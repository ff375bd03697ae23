-- ===== src/Http/Chunked/Decode.antt =====
-- The decoder over a source: it gives the body of the wire format, however the bytes arrive.
use libagent.Base.{
  append_inj, ℕ, zero, suc, ◌+◌, ◌≤◌, ◌<◌, ◌≡◌, refl, sym, ap, ◌∙◌, ◌≢◌, false, ◌&&◌, [], ◌∷◌, ◌++◌,
  append-nil, append_assoc, arith, ltb, ◌==◌, le→ltb-false, length, length-append, All, ok,
}
use libagent.Text.{Bytes, cr, lf, crlf, bytes_eq}
use libagent.Io.{Reader, got, IsSource}
use libagent.Http.{Attempt, max_body_size, max_chunk_size}
use libagent.Http.Transfer.{saturating_add, fill, read_exact_len, fill_exact}
use libagent.Http.Transfer.Content.{Taken, fill-Taken, fill_exact-Taken}
use libagent.Http.Chunked.{
  line_byte, read_line, skip, exact_fuel, read_data, take_chunk, read_chunks, read_chunked,
}
use libagent.Http.Chunked.Sizes.{chunk_size-SizeLine}
use libagent.Http.Chunked.Wire.{Wire, last, more}

module _ {S : Type 0} (read : Reader S) (Live : S → Type 0) (content : S → Bytes)
    (source : IsSource read Live content) where
  -- A read of one byte gives the next byte.
  pub record Next (b : ℕ) (bs : Bytes) (s : S) : Type 0 where
    pub after : S
    pub reads : read 1 s ≡ got (b ∷ []) after
    pub live : Live after
    pub left : content after ≡ bs

  one_byte :
      (piece : Bytes) (b : ℕ) (bs : Bytes) (s s' : S)
      → read 1 s ≡ got piece s'
      → Live s'
      → length piece ≤ 1
      → 0 < length piece
      → piece ++ content s' ≡ b ∷ bs
      → Next b bs s
  one_byte [] b bs s s' r l small p e = absurd (omega arith)
  one_byte (a ∷ []) b bs s s' r l small p e = record { after = s'; reads = cc; live = l; left = cc }
  one_byte (a ∷ c ∷ piece) b bs s s' r l small p e = absurd (omega arith)

  following : (b : ℕ) (bs : Bytes) (s : S) → Live s → content s ≡ b ∷ bs → Next b bs s
  following b bs s l e =
      let d = source.deliver 1 s (omega arith) l in
      one_byte d.piece b bs s d.after d.reads d.live d.fits (d.progress (rw e (omega arith)))
        (d.splits ∙ e)

  -- A stream that goes on with `bs`, behind a result.
  abbrev Leaves : Bytes → Attempt (Bytes × S) → Bytes → Type 0
  Leaves v r bs = (s' : S) × (r ≡ ok (v, s')) × Live s' × (content s' ≡ bs)

  -- A byte that does not end the line is added to it.
  line_byte_on :
      (prev b : ℕ) (acc : Bytes) (go : ℕ → Bytes → S → Attempt (Bytes × S)) (s : S)
      → (prev == cr && b == lf) ≡ false
      → length acc ≤ 1023
      → line_byte read prev acc go (got (b ∷ []) s) ≡ go b (acc ++ b ∷ []) s
  unfolding line_byte
  line_byte_on prev b acc go s e short =
      rw (e, le→ltb-false 1024 (length (acc ++ b ∷ [])) (omega (arith, length-append acc (b ∷ []))))

  line_end :
      (fuel prev : ℕ) (acc bs : Bytes) (s : S)
      → 1 < fuel
      → length acc ≤ 1023
      → Live s
      → content s ≡ cr ∷ lf ∷ bs
      → Leaves (acc ++ crlf) (read_line read fuel prev acc s) bs
  unfolding read_line
  line_end zero prev acc bs s f short l e = absurd (omega arith)
  line_end (suc zero) prev acc bs s f short l e = absurd (omega arith)
  line_end (suc (suc fuel)) prev acc bs s f short l e =
      let n₁ = following cr (lf ∷ bs) s l e in
      let n₂ = following lf bs n₁.after n₁.live n₁.left in
      (
        n₂.after,
        rw (n₁.reads, line_byte_on prev cr acc _ n₁.after (ground arith) short, n₂.reads)
            (unfold line_byte in rw append_assoc),
        n₂.live,
        n₂.left,
      )

  -- A line without a line feed is read up to its CRLF.
  read_line-Leaves :
      (line : Bytes) (fuel prev : ℕ) (acc bs : Bytes) (s : S)
      → All (λ b. b ≢ lf) line
      → length line + 1 < fuel
      → length acc + length line ≤ 1023
      → Live s
      → content s ≡ line ++ crlf ++ bs
      → Leaves (acc ++ (line ++ crlf)) (read_line read fuel prev acc s) bs
  unfolding read_line
  read_line-Leaves [] fuel prev acc bs s ok_line f short l e =
      line_end fuel prev acc bs s (omega arith) (omega arith) l e
  read_line-Leaves (b ∷ line) zero prev acc bs s ok_line f short l e = absurd (omega arith)
  read_line-Leaves (b ∷ line) (suc fuel) prev acc bs s (plain, ok_line) f short l e =
      let n = following b (line ++ crlf ++ bs) s l e in
      let (s', r, l', left) =
        read_line-Leaves line fuel b (acc ++ b ∷ []) bs n.after ok_line (omega arith)
          (omega (arith, length-append acc (b ∷ []))) n.live n.left in
      (
        s',
        rw (n.reads, line_byte_on prev b acc _ n.after (ground arith) (omega arith))
            (r ∙ rw append_assoc),
        l',
        left,
      )

  -- What was taken is the first part of what was to come, if that has its length.
  Taken-Leaves :
      (n : ℕ) (r : Attempt (Bytes × S)) (bs behind : Bytes) (s : S)
      → Taken read Live content n r s
      → length bs ≡ n
      → content s ≡ bs ++ behind
      → Leaves bs r behind
  Taken-Leaves n r bs behind s (got_bs, c, len) h e =
      let (same, left) =
        append_inj got_bs bs (content c.rest) behind (len ∙ sym h) (c.splits ∙ e) in
      (c.rest, c.result ∙ ap (λ v. ok (v, c.rest)) same, c.live, left)

  -- The data of a chunk and its CRLF.
  read_data-Leaves :
      (chunk bs : Bytes) (s : S)
      → Live s
      → content s ≡ chunk ++ (crlf ++ bs)
      → Leaves chunk (read_data read (length chunk) s) bs
  unfolding read_data read_exact_len bytes_eq
  read_data-Leaves chunk bs s l e =
      let (s₁, r₁, l₁, e₁) =
        Taken-Leaves (length chunk) (fill read (length chunk) (length chunk) s) chunk (crlf ++ bs) s
          (fill-Taken read Live content source (length chunk) (length chunk) s (omega arith) l
            (omega (arith, length-append chunk (crlf ++ bs), ap length e)))
          refl e in
      let (s₂, r₂, l₂, e₂) =
        Taken-Leaves 2 (fill_exact read exact_fuel 2 s₁) crlf bs s₁
          (fill_exact-Taken read Live content source exact_fuel 2 s₁ (omega arith) l₁
            (omega (arith, ap length e₁)))
          refl e₁ in
      (s₂, rw (r₁, r₂), l₂, e₂)

  -- A chunk that fits is added to the body, and the decoder goes on.
  take_chunk_on :
      (body chunk bs : Bytes) (go : Bytes → S → Attempt (Bytes × S)) (s s' : S)
      → 0 < length chunk
      → length chunk ≤ max_chunk_size
      → length body + length chunk ≤ max_body_size
      → read_data read (length chunk) s ≡ ok (chunk, s')
      → take_chunk read body go (length chunk) s ≡ go (body ++ chunk) s'
  unfolding take_chunk
  take_chunk_on body chunk bs go s s' p cap fits e =
      let positive : (length chunk == 0) ≡ false = ground arith in
      let small = le→ltb-false max_chunk_size (length chunk) cap in
      let room : ltb max_body_size (saturating_add (length body) (length chunk)) ≡ false =
        le→ltb-false _ _ (omega arith) in
      rw (positive, small, room) (rw e)

  read_chunks-Wire :
      {w b : Bytes}
      → Wire w b
      → (fuel : ℕ) (body : Bytes) (s : S) → Live s
      → content s ≡ w
      → length body + length b ≤ max_body_size
      → max_body_size < fuel + length body
      → (s' : S) × (read_chunks read fuel body s ≡ ok (body ++ b, s'))
  unfolding read_chunks
  read_chunks-Wire (last line trailer size) zero body s l e fits f = absurd (omega arith)
  read_chunks-Wire (last line trailer size) (suc fuel) body s l e fits f =
      let h = size.short in
      let (s₁, r₁, l₁, e₁) =
        read_line-Leaves line 1025 0 [] trailer s size.one_line (omega arith) (omega arith) l e in
      (
        skip read (skip read s₁),
        rw (r₁, chunk_size-SizeLine line 0 size) (unfold take_chunk in rw append-nil),
      )
  read_chunks-Wire (more line chunk size p small wire) zero body s l e fits f =
      absurd (omega (arith, length-append {0} chunk))
  read_chunks-Wire (more line chunk {w} {b} size p small wire) (suc fuel) body s l e fits f =
      let h = size.short in
      let sum = length-append chunk b in
      let (s₁, r₁, l₁, e₁) =
        read_line-Leaves line 1025 0 [] (chunk ++ (crlf ++ w)) s size.one_line (omega arith)
          (omega arith) l e in
      let (s₂, r₂, l₂, e₂) = read_data-Leaves chunk w s₁ l₁ e₁ in
      let (s₃, r₃) =
        read_chunks-Wire wire fuel (body ++ chunk) s₂ l₂ e₂
          (omega (arith, length-append body chunk)) (omega (arith, length-append body chunk)) in
      (
        s₃,
        rw (r₁, chunk_size-SizeLine line (length chunk) size)
            (take_chunk_on body chunk w _ s₁ s₂ p small (omega arith) r₂ ∙ (r₃ ∙ rw append_assoc)),
      )

  -- The decoder gives the body of the wire format, whatever the pieces in which it arrives.
  pub read_chunked-Wire :
      {w b : Bytes}
      → Wire w b
      → (s : S) → Live s
      → content s ≡ w
      → length b ≤ max_body_size
      → (s' : S) × (read_chunked read s ≡ ok (b, s'))
  unfolding read_chunked
  read_chunked-Wire wire s l e fits =
      read_chunks-Wire wire (suc max_body_size) [] s l e (omega arith) (omega arith)
