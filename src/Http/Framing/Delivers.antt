-- ===== src/Http/Framing/Delivers.antt =====
-- `read_until_double_crlf` over a source: it stops at the first empty line, however the bytes come.
use libagent.Base.{
  ℕ, zero, suc, ◌+◌, ◌≤◌, ◌<◌, ◌≡◌, sym, ap, ◌∙◌, inl, inr, none, some, [], ◌∷◌, ◌++◌, append_assoc,
  arith, le→ltb-false, Option-cases, length, length-append, ok,
}
use libagent.Text.{Bytes}
use libagent.Io.{Reader, got, IsSource}
use libagent.Http.{Attempt, max_head_size}
use libagent.Http.Framing.{memchr_crlf_crlf, after_read, read_head, read_until_double_crlf}
use libagent.Http.Framing.Found.{
  memchr_crlf_crlf-le, memchr_crlf_crlf-append, memchr_crlf_crlf_later,
}

module _ {S : Type 0} (read : Reader S) (Live : S → Type 0) (content : S → Bytes) where
  -- The end of the headers is at `pos` of the whole input, and the buffer holds at least that much.
  pub record Framed (whole : Bytes) (pos : ℕ) (r : Attempt (ℕ × Bytes × S)) : Type 0 where
    pub buf : Bytes
    pub after : S
    pub result : r ≡ ok (pos, buf, after)
    pub live : Live after
    pub splits : buf ++ content after ≡ whole
    pub covers : pos ≤ length buf

  module _ (source : IsSource read Live content) (whole : Bytes) (pos : ℕ)
      (found : memchr_crlf_crlf whole ≡ some pos) (small : pos + 1023 ≤ max_head_size) where
    found_here :
        (buf : Bytes) (s : S) (p : ℕ)
        → Live s
        → buf ++ content s ≡ whole
        → memchr_crlf_crlf buf ≡ some p
        → Framed whole pos (ok (p, buf, s))
    found_here buf s p l e h =
        let same : p ≡ pos = cc (memchr_crlf_crlf-append buf (content s) p h, e, found) in
        record {
          buf = buf;
          after = s;
          result = ap (λ (q : ℕ). ok (q, buf, s)) same;
          live = l;
          splits = e;
          covers = rw (← same) (memchr_crlf_crlf-le buf p h);
        }

    before :
        (buf : Bytes) (s : S)
        → buf ++ content s ≡ whole
        → memchr_crlf_crlf buf ≡ none
        → (length buf < pos) × (0 < length (content s))
    before buf s e h =
        let k = memchr_crlf_crlf_later buf (content s) pos h (rw e found) in
        let m = memchr_crlf_crlf-le whole pos found in
        let total : length buf + length (content s) ≡ length whole =
          sym (length-append buf (content s)) ∙ ap length e in
        (k, omega arith)

    after_read-Framed :
        (buf : Bytes) (go : Bytes → S → Attempt (ℕ × Bytes × S)) (piece : Bytes) (s : S)
        → 0 < length piece
        → length buf + length piece ≤ max_head_size
        → Framed whole pos (go (buf ++ piece) s)
        → Framed whole pos (after_read read buf go (got piece s))
    unfolding after_read
    after_read-Framed buf go [] s p fits h = absurd (omega arith)
    after_read-Framed buf go (b ∷ bs) s p fits h =
        rw
          (le→ltb-false max_head_size (length (buf ++ b ∷ bs))
            (omega (arith, length-append buf (b ∷ bs))))
          h

    read_head-Framed :
        (fuel : ℕ) (buf : Bytes) (s : S)
        → Live s
        → buf ++ content s ≡ whole
        → pos ≤ fuel + length buf
        → Framed whole pos (read_head read fuel buf s)
    unfolding read_head
    read_head-Framed zero buf s l e enough = elim (Option-cases (memchr_crlf_crlf buf)) [
      | inl n ↦ absurd (let k = before buf s e n in omega arith)
      | inr (p, h) ↦ rw (h, read_head) (found_here buf s p l e h)
    ]
    read_head-Framed (suc fuel) buf s l e enough = elim (Option-cases (memchr_crlf_crlf buf)) [
      | inr (p, h) ↦ rw (h, read_head) (found_here buf s p l e h)
      | inl n ↦
          let (early, more) = before buf s e n in
          let d = source.deliver 1024 s (omega arith) l in
          let grows = d.progress more in
          let fits = d.fits in
          rw (n, read_head)
            (rw d.reads (
              after_read-Framed buf (λ buf' s'. read_head read fuel buf' s') d.piece d.after grows
                (omega arith)
                (read_head-Framed fuel (buf ++ d.piece) d.after d.live
                  (append_assoc buf d.piece (content d.after) ∙ (ap (λ t. buf ++ t) d.splits ∙ e))
                  (omega (arith, length-append buf d.piece)))))
    ]

    -- Over a source, the headers end where the whole input first has an empty line, if that is 1023
    -- bytes below the cap of 1 MiB. Nothing is lost: the buffer and what is still to come are the input.
    pub read_until_double_crlf-Framed :
        (s : S) → Live s → content s ≡ whole → Framed whole pos (read_until_double_crlf read [] s)
    unfolding read_until_double_crlf
    read_until_double_crlf-Framed s l e =
        read_head-Framed (suc max_head_size) [] s l e (omega arith)
