-- ===== src/Greedy/Resets.antt =====
-- A buffer that is ready stays so under `Reset` with a slice of bytes.
use lz.Prelude.{
  ◌+◌, ◌≡◌, ◌<◌, ◌⊎◌, arith, inl, inr, none, some, [], length, drop, replicate, Bool-cases, ltb,
  ◌==◌,
}
use mathlib.Core.Path.{subst}
use lz.Lz.{Bytes, Error}
use lz.Bytes.Prefix.{AreBytes, none_left, drop-AreBytes}
use lz.Bytes.Suffix.{append-AreBytes}
use lz.Bytes.Shift.{zeros-AreBytes}
use lz.ParserBuffer.{ParserBuffer, memory, cap_of, reset}
use lz.ParserBuffer.Text.{Holds}
use lz.ParserBuffer.Start.{buffer-reset_lem}
use lz.Greedy.RoundTrip.{IsReady}

reset-AreBytes :
    (b : ParserBuffer) (p q : Bytes)
    → AreBytes (memory b)
    → AreBytes p
    → AreBytes q
    → AreBytes (memory (reset b p q).0)
unfolding reset
reset-AreBytes b p q bm bp bq = elim (Bool-cases (ltb b.buffer_size (length p))) [
  | inl e ↦ rw e bm
  | inr e ↦ elim (Bool-cases (length p == 0)) [
    | inl z ↦ rw (e, z) bm
    | inr z ↦ elim (Bool-cases (ltb (length p + length q) (length p + 7))) [
      | inr f ↦ rw (e, z, f) (append-AreBytes p q bp bq)
      | inl f ↦ elim (Bool-cases (ltb (cap_of b) (length p + 7))) [
        | inl g ↦
            rw (e, z, f, g) (append-AreBytes p (replicate 7 0) bp (zeros-AreBytes 7 [] none_left))
        | inr g ↦
            rw (e, z, f, g)
              (append-AreBytes p (drop (length p) (memory b)) bp
                (drop-AreBytes (length p) (memory b) bm))
      ]
    ]
  ]
]

-- `Reset` of a ready buffer, with a slice of bytes, returns `ErrDataLen` and changes nothing, or leaves a
-- ready buffer that holds the slice, with its head at 0.
pub buffer_reset :
    (b : ParserBuffer) (p q : Bytes)
    → IsReady b
    → AreBytes p
    → AreBytes q
    → ((b.buffer_size < length p) × (reset b p q ≡ (b, some Error.err_data_len)))
      ⊎ ((b' : ParserBuffer) × (reset b p q ≡ (b', none)) × IsReady b' × Holds p 0 b')
buffer_reset b p q r bp bq = elim (buffer-reset_lem b p q r.valid.shrink_in) [
  | inl (long, run) ↦ inl (long, run)
  | inr (b', run, holds, same) ↦ inr (
    b',
    run,
    record {
      valid = holds.valid;
      bytes = subst (λ x. AreBytes (memory x.0)) run (reset-AreBytes b p q r.bytes bp bq);
      blocks = omega (arith, r.blocks, same.block_size);
      small = omega (arith, r.small, same.buffer_size);
    },
    holds,
  )
]
