-- ===== src/Io/RestThen/Delivers.antt =====
-- What a `RestThen` delivers: the rest of the left-over bytes, then what the inner reader delivers.
use libagent.Base.{
  ℕ, zero, suc, ◌+◌, ◌<◌, min, ◌≡◌, sym, ◌∙◌, inl, inr, [], ◌∷◌, ◌++◌, append_assoc, arith, ltb,
  ltb-false→le, Bool-cases, length, take, drop, take-append-drop, length-take, length-drop,
  drop-nil, drop_all,
}
use libagent.Text.{Bytes}
use libagent.Io.{
  Reader, Read, got, fault, Delivery, IsSource, IsBounded, NeverInterrupted, Fits, Uninterrupted,
  interrupted, broken,
}
use libagent.Io.RestThen.{RestThen, resume, read}

drop_more : (p k : ℕ) (bs : Bytes) → drop k (drop p bs) ≡ drop (p + k) bs
drop_more zero k bs = let e : 0 + k ≡ k = omega arith in rw e
drop_more (suc p) k [] = drop-nil k ∙ sym (drop-nil (suc p + k))
drop_more (suc p) k (b ∷ bs) =
    let e : suc p + k ≡ suc (p + k) = omega arith in rw e (drop_more p k bs)

module _ {S : Type 0} where
  module _ (inner_read : Reader S) (Live : S → Type 0) (content : S → Bytes) where
    abbrev pub LiveThen : RestThen S → Type 0
    LiveThen r = Live r.inner

    abbrev pub content_then : RestThen S → Bytes
    content_then r = drop r.pos r.rest ++ content r.inner

    module _ (source : IsSource inner_read Live content) where
      deliver :
          (n : ℕ) (r : RestThen S)
          → 0 < n
          → LiveThen r
          → Delivery (read inner_read) LiveThen content_then n r
      unfolding read
      deliver n r h l = elim (Bool-cases (ltb r.pos (length r.rest))) [
        | inl e ↦
            let k = min n (length (drop r.pos r.rest)) in
            record {
              piece = take k (drop r.pos r.rest);
              after = record r { pos = r.pos + k };
              reads = rw e;
              live = l;
              splits =
                  rw (← drop_more r.pos k r.rest, ← append_assoc)
                    (rw (take-append-drop k (drop r.pos r.rest)));
              fits = omega (arith, length-take k (drop r.pos r.rest));
              progress =
                  λ _. ground (arith, length-take k (drop r.pos r.rest), length-drop r.pos r.rest);
            }
        | inr e ↦
            let d = source.deliver n r.inner h l in
            let gone : drop r.pos r.rest ≡ [] = drop_all r.pos r.rest (ltb-false→le _ _ e) in
            record {
              piece = d.piece;
              after = record r { inner = d.after };
              reads = rw (e, d.reads);
              live = d.live;
              splits = rw gone d.splits;
              fits = d.fits;
              progress = rw gone d.progress;
            }
      ]

      -- A `RestThen` over a source is a source.
      pub read-IsSource : IsSource (read inner_read) LiveThen content_then
      read-IsSource = record { deliver = deliver }

  resume-Fits : (n : ℕ) (r : RestThen S) (x : Read S) → Fits n x → Fits n (resume r x)
  resume-Fits n r (got bs s) h = h
  resume-Fits n r (fault f s) h = tt

  resume-Uninterrupted :
      (r : RestThen S) (x : Read S) → Uninterrupted x → Uninterrupted (resume r x)
  resume-Uninterrupted r (got bs s) h = tt
  resume-Uninterrupted r (fault interrupted s) h = h
  resume-Uninterrupted r (fault (broken why) s) h = tt

  -- It keeps to the buffer where the inner reader does.
  pub read-IsBounded : (inner_read : Reader S) → IsBounded inner_read → IsBounded (read inner_read)
  unfolding read
  read-IsBounded inner_read b n r = elim (Bool-cases (ltb r.pos (length r.rest))) [
    | inl e ↦
        rw e (omega (arith, length-take (min n (length (drop r.pos r.rest))) (drop r.pos r.rest)))
    | inr e ↦ rw e (resume-Fits n r _ (b n r.inner))
  ]

  -- It is interrupted only where the inner reader is.
  pub read-NeverInterrupted :
      (inner_read : Reader S) → NeverInterrupted inner_read → NeverInterrupted (read inner_read)
  unfolding read
  read-NeverInterrupted inner_read b n r = elim (Bool-cases (ltb r.pos (length r.rest))) [
    | inl e ↦ rw e tt
    | inr e ↦ rw e (resume-Uninterrupted r _ (b n r.inner))
  ]
