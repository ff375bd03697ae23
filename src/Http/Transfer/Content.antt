-- ===== src/Http/Transfer/Content.antt =====
-- The reading loops over a source: what they give depends on the bytes to come alone, and not on the
-- pieces in which they come.
use libagent.Base.{
  nil_of_length, ℕ, zero, suc, ◌+◌, ◌-◌, ◌≤◌, ◌<◌, ◌≡◌, refl, sym, ap, ◌∙◌, inl, inr, [], ◌∷◌, ◌++◌,
  append-nil, append_assoc, arith, ltb, ltb→lt, lt→ltb, ltb-false→le, le→ltb-false, Bool-cases,
  length, length-append, ok, err,
}
use libagent.Text.{Bytes}
use libagent.Io.{Reader, got, Delivery, IsSource}
use libagent.Http.{Attempt, max_body_size, eof_in_body, body_too_large}
use libagent.Http.Transfer.{
  prepend, filled, fill, filled_exact, fill_exact, after_chunk, read_to_end, saturating_add,
}

module _ {S : Type 0} (read : Reader S) (Live : S → Type 0) (content : S → Bytes) where
  -- The bytes `bs` were read, and the stream goes on live behind them.
  pub record Consumed (bs : Bytes) (r : Attempt (Bytes × S)) (s : S) : Type 0 where
    pub rest : S
    pub result : r ≡ ok (bs, rest)
    pub live : Live rest
    pub splits : bs ++ content rest ≡ content s

  -- `need` bytes were taken off the front.
  abbrev pub Taken : ℕ → Attempt (Bytes × S) → S → Type 0
  Taken need r s = (bs : Bytes) × Consumed bs r s × (length bs ≡ need)

  prepend-Taken :
      (need k : ℕ) (bs : Bytes) (r : Attempt (Bytes × S)) (s s' : S)
      → length bs + k ≡ need
      → bs ++ content s' ≡ content s
      → Taken k r s'
      → Taken need (prepend bs r) s
  prepend-Taken need k bs r s s' e split (more, c, len) = (
    bs ++ more,
    record {
      rest = c.rest;
      result = rw c.result;
      live = c.live;
      splits = rw append_assoc (rw (c.splits, split));
    },
    omega (arith, length-append bs more),
  )

  filled-prepend :
      (need : ℕ) (go : ℕ → S → Attempt (Bytes × S)) (bs : Bytes) (s : S)
      → 0 < length bs
      → filled read need go (got bs s) ≡ prepend bs (go (need - length bs) s)
  unfolding filled
  filled-prepend need go [] s h = absurd (omega arith)
  filled-prepend need go (b ∷ bs) s h = refl

  filled_exact-prepend :
      (need : ℕ) (go : ℕ → S → Attempt (Bytes × S)) (bs : Bytes) (s : S)
      → 0 < length bs
      → filled_exact read need go (got bs s) ≡ prepend bs (go (need - length bs) s)
  unfolding filled_exact
  filled_exact-prepend need go [] s h = absurd (omega arith)
  filled_exact-prepend need go (b ∷ bs) s h = refl

  chunk_more :
      (body bs : Bytes) (go : Bytes → S → Attempt (Bytes × S)) (s : S)
      → 0 < length bs
      → length body + length bs ≤ max_body_size
      → after_chunk read body go (got bs s) ≡ go (body ++ bs) s
  unfolding after_chunk
  chunk_more body [] go s p h = absurd (omega arith)
  chunk_more body (b ∷ bs) go s p h =
      rw (le→ltb-false max_body_size (saturating_add (length body) (length (b ∷ bs))) (omega arith))

  chunk_over :
      (body bs : Bytes) (go : Bytes → S → Attempt (Bytes × S)) (s : S)
      → 0 < length bs
      → max_body_size < length body + length bs
      → after_chunk read body go (got bs s) ≡ err body_too_large
  unfolding after_chunk
  chunk_over body [] go s p h = absurd (omega arith)
  chunk_over body (b ∷ bs) go s p h =
      rw (lt→ltb max_body_size (saturating_add (length body) (length (b ∷ bs))) (omega arith))

  module _ (source : IsSource read Live content) where
    -- How much a delivery leaves.
    delivered_length :
        {n : ℕ} {s : S} (d : Delivery read Live content n s)
        → length d.piece + length (content d.after) ≡ length (content s)
    delivered_length d = sym (length-append d.piece (content d.after)) ∙ ap length d.splits

    -- A delivery of nothing is the end.
    delivered_end :
        {n : ℕ} {s : S} (d : Delivery read Live content n s) → length d.piece ≡ 0 → content s ≡ []
    delivered_end {s} d z = elim (Bool-cases (ltb 0 (length (content s)))) [
      | inl e ↦ absurd (omega (arith, d.progress (ltb→lt _ _ e)))
      | inr e ↦ nil_of_length _ (omega (arith, ltb-false→le _ _ e))
    ]

    pub fill-Taken :
        (fuel need : ℕ) (s : S)
        → need ≤ fuel
        → Live s
        → need ≤ length (content s)
        → Taken need (fill read fuel need s) s
    unfolding fill
    fill-Taken fuel zero s h l fits =
        ([], record { rest = s; result = refl; live = l; splits = refl }, refl)
    fill-Taken zero (suc need) s h l fits = absurd (omega arith)
    fill-Taken (suc fuel) (suc need) s h l fits =
        let d = source.deliver (suc need) s (omega arith) l in
        let p = d.progress (omega arith) in
        let q = d.fits in
        let lens = delivered_length d in
        rw (d.reads, filled-prepend (suc need) _ d.piece d.after p)
          (prepend-Taken (suc need) (suc need - length d.piece) d.piece _ s d.after (omega arith)
            d.splits
            (fill-Taken fuel (suc need - length d.piece) d.after (omega arith) d.live
              (omega arith)))

    pub fill_exact-Taken :
        (fuel need : ℕ) (s : S)
        → need ≤ fuel
        → Live s
        → need ≤ length (content s)
        → Taken need (fill_exact read fuel need s) s
    unfolding fill_exact
    fill_exact-Taken fuel zero s h l fits =
        ([], record { rest = s; result = refl; live = l; splits = refl }, refl)
    fill_exact-Taken zero (suc need) s h l fits = absurd (omega arith)
    fill_exact-Taken (suc fuel) (suc need) s h l fits =
        let d = source.deliver (suc need) s (omega arith) l in
        let p = d.progress (omega arith) in
        let q = d.fits in
        let lens = delivered_length d in
        rw (d.reads, filled_exact-prepend (suc need) _ d.piece d.after p)
          (prepend-Taken (suc need) (suc need - length d.piece) d.piece _ s d.after (omega arith)
            d.splits
            (fill_exact-Taken fuel (suc need - length d.piece) d.after (omega arith) d.live
              (omega arith)))

    -- A stream that ends too early is refused.
    pub fill_short :
        (fuel need : ℕ) (s : S)
        → need ≤ fuel
        → Live s
        → length (content s) < need
        → fill read fuel need s ≡ err eof_in_body
    unfolding fill
    fill_short fuel zero s h l short = absurd (omega arith)
    fill_short zero (suc need) s h l short = absurd (omega arith)
    fill_short (suc fuel) (suc need) s h l short =
        let d = source.deliver (suc need) s (omega arith) l in
        let q = d.fits in
        let lens = delivered_length d in
        rw d.reads (
          after d.piece d.after (λ p.
            fill_short fuel (suc need - length d.piece) d.after (omega arith) d.live (omega arith)))
      where
        after :
            (bs : Bytes) (s' : S)
            → (0 < length bs → fill read fuel (suc need - length bs) s' ≡ err eof_in_body)
            → filled read (suc need) (λ k s''. fill read fuel k s'') (got bs s') ≡ err eof_in_body
        after [] s' ih = unfold filled in refl
        after (b ∷ bs) s' ih = unfold filled in rw (ih (omega arith))

    -- Reading on gives all that is to come, if it fits in the cap with the body that is there.
    pub read_to_end-Consumed :
        (fuel : ℕ) (body : Bytes) (s : S)
        → Live s
        → max_body_size < fuel + length body
        → length body + length (content s) ≤ max_body_size
        → (s' : S) × (read_to_end read fuel body s ≡ ok (body ++ content s, s'))
    unfolding read_to_end
    read_to_end-Consumed zero body s l f fits = absurd (omega arith)
    read_to_end-Consumed (suc fuel) body s l f fits =
        let d = source.deliver 16384 s (omega arith) l in
        let lens = delivered_length d in
        elim (Bool-cases (ltb 0 (length d.piece))) [
          | inl e ↦
              let p = ltb→lt 0 (length d.piece) e in
              let (s', r) =
                read_to_end-Consumed fuel (body ++ d.piece) d.after d.live
                  (omega (arith, length-append body d.piece))
                  (omega (arith, length-append body d.piece)) in
              (
                s',
                rw (d.reads, chunk_more body d.piece _ d.after p (omega arith))
                    (rw r (rw append_assoc (rw d.splits))),
              )
          | inr e ↦
              let z : length d.piece ≡ 0 = omega (arith, ltb-false→le 0 (length d.piece) e) in
              let none_left = delivered_end d z in
              (
                d.after,
                rw (d.reads, nil_of_length d.piece z, none_left)
                    (unfold after_chunk in rw append-nil),
              )
        ]

    -- A body that outgrows the cap is refused.
    pub read_to_end_large :
        (fuel : ℕ) (body : Bytes) (s : S)
        → Live s
        → 0 < fuel
        → max_body_size < fuel + length body
        → 0 < length (content s)
        → max_body_size < length body + length (content s)
        → read_to_end read fuel body s ≡ err body_too_large
    unfolding read_to_end
    read_to_end_large zero body s l f g p large = absurd (omega arith)
    read_to_end_large (suc fuel) body s l f g p large =
        let d = source.deliver 16384 s (omega arith) l in
        let lens = delivered_length d in
        let q = d.progress p in
        elim (Bool-cases (ltb max_body_size (length body + length d.piece))) [
          | inl e ↦ rw (d.reads, chunk_over body d.piece _ d.after q (ltb→lt _ _ e)) refl
          | inr e ↦
              let small = ltb-false→le max_body_size (length body + length d.piece) e in
              rw (d.reads, chunk_more body d.piece _ d.after q small)
                (read_to_end_large fuel (body ++ d.piece) d.after d.live
                  (omega (arith, length-append body d.piece))
                  (omega (arith, length-append body d.piece)) (omega arith)
                  (omega (arith, length-append body d.piece)))
        ]
