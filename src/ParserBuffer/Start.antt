-- ===== src/ParserBuffer/Start.antt =====
-- `Reset` of a `ParserBuffer`: a text begins, with its head at 0.
use lz.Prelude.{
  ℕ, ◌+◌, ◌≤◌, ◌<◌, ◌≡◌, refl, ◌⊎◌, inl, inr, Option, none, some, [], ◌∷◌, arith, length, drop,
  length-append, length-drop, length-replicate, replicate, Bool-cases, ltb, ◌==◌, false,
}
use lz.Prelude.Int.{pos}
use lz.Lz.{Bytes, Error}
use lz.ParserBuffer.{ParserBuffer, memory, cap_of, reset}
use lz.ParserBuffer.Text.{Holds, IsValid, SameSizes}

starts :
    {b : ParserBuffer} (t : Bytes)
    → b.data_bytes ≡ t
    → b.off ≡ pos 0
    → b.w ≡ 0
    → IsValid b
    → Holds t 0 b
starts t d o w v = record {
  gone = [];
  whole = d;
  offset = o;
  at_head = omega (arith, w);
  valid = v;
}

-- The buffer over the memory `m` behind the bytes `p`.
abbrev over : ParserBuffer → Bytes → Bytes → ParserBuffer
over b p m = record b { data_bytes = p; spare = m; w = 0; off = pos 0 }

Started : ParserBuffer → Bytes → ParserBuffer × Option Error → Type 0
Started b p r = (b' : ParserBuffer) × (r ≡ (b', none)) × Holds p 0 b' × SameSizes b b'

over-Started :
    (b : ParserBuffer) (p m : Bytes) {r : ParserBuffer × Option Error}
    → b.shrink_size ≤ b.buffer_size
    → length p ≤ b.buffer_size
    → (length p ≡ 0) ⊎ (7 ≤ length m)
    → r ≡ (over b p m, none)
    → Started b p r
unfolding Started
over-Started b p m h fits room run = (
  over b p m,
  run,
  starts p refl refl refl
      (record { head_in = omega arith; in_size = fits; margin = room; shrink_in = h }),
  ground arith,
)

adopted :
    (b : ParserBuffer) (p q : Bytes)
    → b.shrink_size ≤ b.buffer_size
    → length p ≤ b.buffer_size
    → ltb b.buffer_size (length p) ≡ false
    → Started b p (reset b p q)
unfolding reset
adopted b [] q h fits e = over-Started b [] (memory b) h fits (inl refl) (rw e refl)
adopted b (x ∷ t) q h fits e =
    let p = x ∷ t in
    let filled : (length p == 0) ≡ false = ground arith in
    elim (Bool-cases (ltb (length p + length q) (length p + 7))) [
      | inr f ↦ over-Started b p q h fits (inr (ground arith)) (rw (e, filled, f) refl)
      | inl f ↦ elim (Bool-cases (ltb (cap_of b) (length p + 7))) [
        | inl g ↦
            over-Started b p (replicate 7 0) h fits
              (inr (omega (arith, length-replicate {A = ℕ} 7 0))) (rw (e, filled, f, g) refl)
        | inr g ↦
            over-Started b p (drop (length p) (memory b)) h fits
              (inr (
                ground
                  (arith, length-drop (length p) (memory b), length-append b.data_bytes b.spare)))
              (rw (e, filled, f, g) refl)
      ]
    ]

-- `Reset` with a slice that exceeds the buffer size is `ErrDataLen` and changes nothing. With any other
-- slice the buffer then holds just its bytes, with the head at 0 and the sizes it had, and, if the
-- slice is not empty, with seven more bytes of memory behind it.
pub buffer-reset_lem :
    (b : ParserBuffer) (p q : Bytes)
    → b.shrink_size ≤ b.buffer_size
    → ((b.buffer_size < length p) × (reset b p q ≡ (b, some Error.err_data_len)))
      ⊎ ((b' : ParserBuffer) × (reset b p q ≡ (b', none)) × Holds p 0 b' × SameSizes b b')
unfolding reset Started
buffer-reset_lem b p q h = elim (Bool-cases (ltb b.buffer_size (length p))) [
  | inl e ↦ inl (ground arith, rw e refl)
  | inr e ↦ inr (adopted b p q h (ground arith) e)
]
