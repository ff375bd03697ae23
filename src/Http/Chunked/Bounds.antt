-- ===== src/Http/Chunked/Bounds.antt =====
-- The chunked decoder over any reader that keeps to its buffer and is not interrupted: it ends, and
-- its body is within the cap.
use libagent.Base.{
  ℕ, zero, suc, ◌+◌, ◌≤◌, ◌<◌, ◌≡◌, ap, ◌≢◌, inl, inr, Bool, true, false, ◌&&◌, Option, none, some,
  [], ◌∷◌, ◌++◌, arith, ltb, ◌==◌, ltb-false→le, Bool-cases, length, length-append, ok, err, ◌>>=◌,
}
use libagent.Text.{Bytes, cr, lf, crlf, bytes_eq}
use libagent.Io.{Reader, Read, got, fault, IsBounded, NeverInterrupted}
use libagent.Http.{Attempt, max_body_size, max_chunk_size, out_of_fuel}
use libagent.Http.Transfer.{saturating_add, read_exact_len, fill_exact}
use libagent.Http.Transfer.Bounds.{Ends, HasLength, AtMost, read_exact_len-Ends, fill_exact-Ends}
use libagent.Http.Chunked.{
  size_result, chunk_size, line_byte, read_line, exact_fuel, read_data, take_chunk, read_chunks,
  read_chunked,
}

abbrev Anything : Bytes → Type 0
Anything bs = Unit

size_result-ne : (a b : Bool) (n : Option ℕ) → size_result a b n ≢ err out_of_fuel
size_result-ne true b n = cc
size_result-ne false false n = cc
size_result-ne false true none = cc
size_result-ne false true (some n) = cc

chunk_size-ne : (line : Bytes) → chunk_size line ≢ err out_of_fuel
unfolding chunk_size
chunk_size-ne line = size_result-ne _ _ _

module _ {S : Type 0} (read : Reader S) where
  line_byte-Ends :
      (last : ℕ) (line : Bytes) (go : ℕ → Bytes → S → Attempt (Bytes × S)) (r : Read S)
      → ((b : ℕ) (line' : Bytes) (s : S)
          → length line' ≡ suc (length line)
          → length line' ≤ 1024
          → Ends Anything (go b line' s))
      → Ends Anything (line_byte read last line go r)
  unfolding line_byte
  line_byte-Ends last line go (fault f s) h = cc
  line_byte-Ends last line go (got [] s) h = cc
  line_byte-Ends last line go (got (b ∷ bs) s) h = elim (Bool-cases (last == cr && b == lf)) [
    | inl e ↦ rw e tt
    | inr e ↦ rw e (elim (Bool-cases (ltb 1024 (length (line ++ b ∷ [])))) [
      | inl long ↦ rw long (cc)
      | inr short ↦ rw short (
          h b (line ++ b ∷ []) s (omega (arith, length-append line (b ∷ [])))
            (ltb-false→le _ _ short))
    ])
  ]

  read_line-Ends :
      (fuel last : ℕ) (line : Bytes) (s : S)
      → length line ≤ 1024
      → 1024 < fuel + length line
      → Ends Anything (read_line read fuel last line s)
  unfolding read_line
  read_line-Ends zero last line s h f = absurd (omega arith)
  read_line-Ends (suc fuel) last line s h f =
      line_byte-Ends last line _ (read 1 s)
        (λ b line' s' grows short. read_line-Ends fuel b line' s' short (omega arith))

  -- Rules for a chain of attempts.
  bind-Ends :
      (P Q : Bytes → Type 0) (r : Attempt (Bytes × S)) (k : Bytes × S → Attempt (Bytes × S))
      → Ends P r
      → ((bs : Bytes) (s : S) → P bs → Ends Q (k (bs, s)))
      → Ends Q (r >>= k)
  bind-Ends P Q (ok (bs, s)) k h step = step bs s h
  bind-Ends P Q (err e) k h step = h

  bind_size-Ends :
      (Q : Bytes → Type 0) (r : Attempt ℕ) (k : ℕ → Attempt (Bytes × S))
      → r ≢ err out_of_fuel
      → ((n : ℕ) → Ends Q (k n))
      → Ends Q (r >>= k)
  bind_size-Ends Q (ok n) k h step = step n
  bind_size-Ends Q (err e) k h step = λ same. h (ap err same)

  module _ (bounded : IsBounded read) (quiet : NeverInterrupted read) where
    read_data-Ends : (size : ℕ) (s : S) → Ends (HasLength size) (read_data read size s)
    unfolding read_data
    read_data-Ends size s =
        bind-Ends (HasLength size) (HasLength size) (read_exact_len read size s) _
          (read_exact_len-Ends read bounded size s)
          (λ chunk s₁ sized.
            bind-Ends (HasLength 2) (HasLength size) (fill_exact read exact_fuel 2 s₁) _
              (fill_exact-Ends read bounded quiet exact_fuel 2 s₁ (omega arith))
              (λ end s₂ two. elim (Bool-cases (bytes_eq end crlf)) [
                | inl e ↦ rw e sized
                | inr e ↦ rw e (cc)
              ]))

    take_chunk-Ends :
        (body : Bytes) (go : Bytes → S → Attempt (Bytes × S)) (size : ℕ) (s : S)
        → length body ≤ max_body_size
        → ((more : Bytes) (s' : S)
            → length body < length more
            → length more ≤ max_body_size
            → Ends (AtMost max_body_size) (go more s'))
        → Ends (AtMost max_body_size) (take_chunk read body go size s)
    unfolding take_chunk
    take_chunk-Ends body go size s small h = elim (Bool-cases (size == 0)) [
      | inl e ↦ rw e small
      | inr e ↦ rw e (elim (Bool-cases (ltb max_chunk_size size)) [
        | inl e₂ ↦ rw e₂ (cc)
        | inr e₂ ↦
            rw e₂ (elim (Bool-cases (ltb max_body_size (saturating_add (length body) size))) [
              | inl e₃ ↦ rw e₃ (cc)
              | inr e₃ ↦
                  let positive : 0 < size = ground arith in
                  let fits = ltb-false→le max_body_size (saturating_add (length body) size) e₃ in
                  rw e₃ (
                    bind-Ends (HasLength size) (AtMost max_body_size) (read_data read size s) _
                      (read_data-Ends size s)
                      (λ chunk s₂ sized.
                        h (body ++ chunk) s₂ (omega (arith, length-append body chunk))
                          (omega (arith, length-append body chunk))))
            ])
      ])
    ]

    read_chunks-Ends :
        (fuel : ℕ) (body : Bytes) (s : S)
        → length body ≤ max_body_size
        → max_body_size < fuel + length body
        → Ends (AtMost max_body_size) (read_chunks read fuel body s)
    unfolding read_chunks
    read_chunks-Ends zero body s small f = absurd (omega arith)
    read_chunks-Ends (suc fuel) body s small f =
        bind-Ends Anything (AtMost max_body_size) (read_line read 1025 0 [] s) _
          (read_line-Ends 1025 0 [] s (omega arith) (omega arith))
          (λ line s₁ _.
            bind_size-Ends (AtMost max_body_size) (chunk_size line) _ (chunk_size-ne line) (λ size.
              take_chunk-Ends body _ size s₁ small
                (λ more s' grows short. read_chunks-Ends fuel more s' short (omega arith))))

    -- The decoder ends by itself, and its body is no longer than the cap.
    pub read_chunked-Ends : (s : S) → Ends (AtMost max_body_size) (read_chunked read s)
    unfolding read_chunked
    read_chunked-Ends s = read_chunks-Ends (suc max_body_size) [] s (omega arith) (omega arith)
