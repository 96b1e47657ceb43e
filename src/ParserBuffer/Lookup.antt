-- ===== src/ParserBuffer/Lookup.antt =====
-- Reading a `ParserBuffer` at a total offset.
use lz.Prelude.{
  ℕ, ◌+◌, ◌-◌, ◌≤◌, ◌<◌, ◌≡◌, refl, sym, ap, ◌∙◌, inl, inr, ◌≢◌, Option, none, some, [], ◌∷◌, arith,
  length, take, drop, get_or, get_elem?, length-append, drop-append_add, get_or-append_add,
  take-nil, get_elem?-eq-get_or, Bool-cases, if◌then◌else◌, ltb, leb, ◌&&◌, leb→le, Bool, true,
  false,
}
use lz.Prelude.Int.{pos, ◌-ℤ◌, ltb_ℤ}
use lz.Lz.{Bytes, Error}
use lz.Config.{le_ℤ}
use lz.ParserBuffer.{ParserBuffer, peek_at, read_at, byte_at}
use lz.ParserBuffer.Text.{Holds}

abbrev cut : ℕ → Bytes × Option Error → Bytes × Option Error
cut len (q, e) = (take len q, e)

take-of :
    (len : ℕ) (test : Bool) (p : Bytes) (e e' : Option Error)
    → cut len (if◌then◌else◌ {A = Bytes × Option Error} test (p, e) ([], e'))
      ≡ (if test then (take len p, e) else ([], e'))
take-of len true p e e' = refl
take-of len false p e e' = ap (λ q. (q, e')) (take-nil len)

at_least : (k : ℕ) → le_ℤ (pos 0) (pos k) ≡ true
at_least k = ground arith

le_self : (k : ℕ) → le_ℤ (pos k) (pos k) ≡ true
le_self k = ground arith

get_elem?-end : (xs : Bytes) → get_elem? xs (length xs) ≡ none
get_elem?-end [] = refl
get_elem?-end (x ∷ xs) = get_elem?-end xs

module _ {text : Bytes} {head : ℕ} {b : ParserBuffer} (h : Holds text head b) where
  -- Where the text goes on as the data.
  abbrev pub start : ℕ
  start = length h.gone

  rest_at : (o : ℕ) → start ≤ o → drop (o - start) b.data_bytes ≡ drop o text
  rest_at o p =
      sym (drop-append_add o (o - start) h.gone b.data_bytes (omega arith)) ∙ ap (drop o) h.whole

  byte_there : (o : ℕ) → start ≤ o → get_or b.data_bytes (o - start) 0 ≡ get_or text o 0
  byte_there o p =
      sym (get_or-append_add h.gone b.data_bytes o (o - start) 0 (omega arith))
      ∙ ap (λ t. get_or t o 0) h.whole

  text-length : length text ≡ start + length b.data_bytes
  text-length = omega (arith, ap length h.whole, length-append h.gone b.data_bytes)

  inside : (o : ℕ) → start ≤ o → pos o -ℤ b.off ≡ pos (o - start)
  unfolding ◌-ℤ◌
  inside o p = rw h.offset (ground arith)

  below : (o : ℕ) → o < start → le_ℤ (pos 0) (pos o -ℤ b.off) ≡ false
  unfolding ◌-ℤ◌
  below o p = rw h.offset (ground arith)

  under_end : (o : ℕ) → o < start → le_ℤ (pos o -ℤ b.off) (pos (length b.data_bytes)) ≡ true
  unfolding ◌-ℤ◌
  under_end o p = rw h.offset (ground arith)

  above_end : (o : ℕ) → o < start → le_ℤ (pos (length b.data_bytes)) (pos o -ℤ b.off) ≡ false
  unfolding ◌-ℤ◌
  above_end o p = rw h.offset (ground arith)

  -- `PeekAt` gives all that is buffered of the text from the total offset on, with `ErrEndOfBuffer`
  -- exactly if that is less than `n` bytes. An offset before the data, or from its end on, is
  -- `ErrOutOfBuffer`.
  pub peek_at_lem :
      (n o : ℕ)
      → peek_at b n (pos o) ≡ (
          if leb start o && ltb o (length text)
          then (
            drop o text,
            if ltb (length (drop o text)) n then some Error.err_end_of_buffer else none,
          )
          else ([], some Error.err_out_of_buffer))
  unfolding peek_at
  peek_at_lem n o = elim (Bool-cases (leb start o)) [
    | inr e ↦ rw (e, below o (ground arith)) refl
    | inl e ↦
        let le : start ≤ o = leb→le start o e in
        elim (Bool-cases (ltb o (length text))) [
          | inr f ↦
              let out : ltb_ℤ (pos (o - start)) (pos (length b.data_bytes)) ≡ false =
                ground (arith, text-length) in
              rw (e, f, inside o le, at_least (o - start), out) refl
          | inl f ↦
              let in_data : ltb_ℤ (pos (o - start)) (pos (length b.data_bytes)) ≡ true =
                ground (arith, text-length) in
              rw (e, f, inside o le, at_least (o - start), in_data, ← rest_at o le) refl
        ]
  ]

  -- `ReadAt` copies of the text from the total offset on what is buffered and fits the slice.
  pub read_at_lem :
      (len o : ℕ)
      → read_at b len (pos o) ≡ (
          if leb start o && ltb o (length text)
          then (
            take len (drop o text),
            if ltb (length (drop o text)) len then some Error.err_end_of_buffer else none,
          )
          else ([], some Error.err_out_of_buffer))
  unfolding read_at
  read_at_lem len o =
      rw (peek_at_lem len o) (take-of len (leb start o && ltb o (length text)) (drop o text) _ _)

  past :
      (o : ℕ)
      → o ≢ length text
      → ltb o (length text) ≡ false
      → start ≤ o
      → le_ℤ (pos (o - start)) (pos (length b.data_bytes)) ≡ false
  past o ne f le = ground (arith, text-length)

  -- `ByteAt` gives the byte of the text at a total offset in the data, and `ErrOutOfBuffer` for one
  -- before the data or behind its end.
  pub byte_at_lem :
      (o : ℕ)
      → o ≢ length text
      → byte_at b (pos o) ≡ (
          if leb start o && ltb o (length text)
          then some (get_or text o 0, none)
          else some (0, some Error.err_out_of_buffer))
  unfolding byte_at
  byte_at_lem o ne = elim (Bool-cases (leb start o)) [
    | inr e ↦
        let under : le_ℤ (pos o -ℤ b.off) (pos (length b.data_bytes)) ≡ true =
          under_end o (ground arith) in
        let above : le_ℤ (pos (length b.data_bytes)) (pos o -ℤ b.off) ≡ false =
          above_end o (ground arith) in
        rw (e, below o (ground arith), under, above) refl
    | inl e ↦
        let le : start ≤ o = leb→le start o e in
        elim (Bool-cases (ltb o (length text))) [
          | inr f ↦
              let out : le_ℤ (pos (o - start)) (pos (length b.data_bytes)) ≡ false =
                past o ne f le in
              rw (e, f, inside o le, at_least (o - start), out) refl
          | inl f ↦
              let in_data : le_ℤ (pos (o - start)) (pos (length b.data_bytes)) ≡ true =
                ground (arith, text-length) in
              rw
                (
                  e,
                  f,
                  inside o le,
                  at_least (o - start),
                  in_data,
                  get_elem?-eq-get_or b.data_bytes (o - start) 0 (ground (arith, text-length)),
                  byte_there o le,
                )
                refl
        ]
  ]

  -- The total offset just behind the data passes the range test, and reading there panics.
  pub byte_at-end : byte_at b (pos (length text)) ≡ none
  unfolding byte_at
  byte_at-end =
      rw
        (
          inside (length text) (omega (arith, text-length)),
          span,
          at_least (length b.data_bytes),
          le_self (length b.data_bytes),
          get_elem?-end b.data_bytes,
        )
        refl
    where
      span : length text - start ≡ length b.data_bytes
      span = omega (arith, text-length)
