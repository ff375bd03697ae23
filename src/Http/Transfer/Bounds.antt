-- ===== src/Http/Transfer/Bounds.antt =====
-- The reading loops of http.rs over any reader at all that keeps to its buffer: they end, and what
-- they give is no longer than it may be.
use libagent.Base.{
  ℕ, zero, suc, ◌+◌, ◌-◌, ◌≤◌, ◌<◌, ◌≡◌, refl, ◌≢◌, inl, inr, [], ◌∷◌, ◌++◌, arith, ltb,
  ltb-false→le, Bool-cases, length, length-append, ok, err,
}
use libagent.Text.{Bytes}
use libagent.Io.{
  Reader, Read, got, fault, Fits, IsBounded, Uninterrupted, NeverInterrupted, interrupted, broken,
}
use libagent.Http.{Attempt, max_body_size, out_of_fuel}
use libagent.Http.Transfer.{
  prepend, filled, fill, read_exact_len, filled_exact, fill_exact, after_chunk, read_to_end,
  saturating_add,
}

-- A loop ended by itself: with bytes that satisfy `P`, or with an error of the source.
abbrev pub Ends : {S : Type 0} → (Bytes → Type 0) → Attempt (Bytes × S) → Type 0
Ends P (ok (bs, s)) = P bs
Ends P (err e) = e ≢ out_of_fuel

abbrev pub HasLength : ℕ → Bytes → Type 0
HasLength n bs = length bs ≡ n

module _ {S : Type 0} where
  prepend-Ends :
      (k n : ℕ) (bs : Bytes) (r : Attempt (Bytes × S))
      → length bs + k ≡ n
      → Ends (HasLength k) r
      → Ends (HasLength n) (prepend bs r)
  prepend-Ends k n bs (ok (more, s)) e h = omega (arith, length-append bs more)
  prepend-Ends k n bs (err x) e h = h

  filled-Ends :
      (read : Reader S) (need : ℕ) (go : ℕ → S → Attempt (Bytes × S)) (r : Read S)
      → Fits need r
      → ((k : ℕ) (s : S) → k < need → Ends (HasLength k) (go k s))
      → Ends (HasLength need) (filled read need go r)
  unfolding filled
  filled-Ends read need go (fault f s) fits h = cc
  filled-Ends read need go (got [] s) fits h = cc
  filled-Ends read need go (got (b ∷ bs) s) fits h =
      prepend-Ends _ need (b ∷ bs) _ (omega arith) (h (need - length (b ∷ bs)) s (omega arith))

  filled_exact-Ends :
      (read : Reader S) (need : ℕ) (go : ℕ → S → Attempt (Bytes × S)) (r : Read S)
      → Fits need r
      → Uninterrupted r
      → ((k : ℕ) (s : S) → k < need → Ends (HasLength k) (go k s))
      → Ends (HasLength need) (filled_exact read need go r)
  unfolding filled_exact
  filled_exact-Ends read need go (fault interrupted s) fits u h = absurd u
  filled_exact-Ends read need go (fault (broken why) s) fits u h = cc
  filled_exact-Ends read need go (got [] s) fits u h = cc
  filled_exact-Ends read need go (got (b ∷ bs) s) fits u h =
      prepend-Ends _ need (b ∷ bs) _ (omega arith) (h (need - length (b ∷ bs)) s (omega arith))

module _ {S : Type 0} (read : Reader S) (bounded : IsBounded read) where
  pub fill-Ends :
      (fuel need : ℕ) (s : S) → need ≤ fuel → Ends (HasLength need) (fill read fuel need s)
  unfolding fill
  fill-Ends fuel zero s h = refl
  fill-Ends zero (suc need) s h = absurd (omega arith)
  fill-Ends (suc fuel) (suc need) s h =
      filled-Ends read (suc need) _ _ (bounded (suc need) s)
        (λ k s' lt. fill-Ends fuel k s' (omega arith))

  -- `read_exact_len` gives exactly the bytes that it was asked for, or an error of the source.
  pub read_exact_len-Ends : (len : ℕ) (s : S) → Ends (HasLength len) (read_exact_len read len s)
  unfolding read_exact_len
  read_exact_len-Ends len s = fill-Ends len len s (omega arith)

  pub fill_exact-Ends :
      NeverInterrupted read
      → (fuel need : ℕ) (s : S) → need ≤ fuel
      → Ends (HasLength need) (fill_exact read fuel need s)
  unfolding fill_exact
  fill_exact-Ends u fuel zero s h = refl
  fill_exact-Ends u zero (suc need) s h = absurd (omega arith)
  fill_exact-Ends u (suc fuel) (suc need) s h =
      filled_exact-Ends read (suc need) _ _ (bounded (suc need) s) (u (suc need) s)
        (λ k s' lt. fill_exact-Ends u fuel k s' (omega arith))

abbrev pub AtMost : ℕ → Bytes → Type 0
AtMost n bs = length bs ≤ n

module _ {S : Type 0} where
  after_chunk-Ends :
      (read : Reader S) (n : ℕ) (body : Bytes) (go : Bytes → S → Attempt (Bytes × S)) (r : Read S)
      → length body ≤ n
      → max_body_size ≤ n
      → ((more : Bytes) (s : S)
          → length body < length more
          → length more ≤ max_body_size
          → Ends (AtMost n) (go more s))
      → Ends (AtMost n) (after_chunk read body go r)
  unfolding after_chunk
  after_chunk-Ends read n body go (fault f s) small fits h = cc
  after_chunk-Ends read n body go (got [] s) small fits h = small
  after_chunk-Ends read n body go (got (b ∷ bs) s) small fits h =
      elim (Bool-cases (ltb max_body_size (saturating_add (length body) (length (b ∷ bs))))) [
        | inl e ↦ rw e (cc)
        | inr e ↦ rw e (
            h (body ++ b ∷ bs) s (omega (arith, length-append body (b ∷ bs)))
              (omega (arith, length-append body (b ∷ bs), ltb-false→le _ _ e)))
      ]

module _ {S : Type 0} (read : Reader S) where
  -- Reading on ends, with a body of `n` bytes at most, where the bytes at the start fit.
  pub read_to_end-Ends :
      (n fuel : ℕ) (body : Bytes) (s : S)
      → length body ≤ n
      → max_body_size ≤ n
      → 0 < fuel
      → max_body_size < fuel + length body
      → Ends (AtMost n) (read_to_end read fuel body s)
  unfolding read_to_end
  read_to_end-Ends n zero body s small fits p h = absurd (omega arith)
  read_to_end-Ends n (suc fuel) body s small fits p h =
      after_chunk-Ends read n body _ (read 16384 s) small fits (λ more s' grows short.
        read_to_end-Ends n fuel more s' (omega arith) fits (omega arith) (omega arith))
