-- ===== src/Decoder/Stream.antt =====
-- `Decoder` of decoder_buffer.go: a `DecoderBuffer` in front of an `io.Writer`. The loops of its write
-- methods go round again after the buffer was full and has been handed to the writer. They take
-- fuel, and tell its end from a panic of the buffer.
pub mod Loops
use lz.Prelude.{
  ℕ, zero, suc, ◌+◌, Option, none, some, ◌>>=◌, List, [], ◌∷◌, length, drop, Bool, true, false,
  if◌then◌else◌,
}
use lz.Prelude.Int.{ℤ, pos, ◌+ℤ◌}
use lz.Lz.{Bytes, Seq, Block, Error}
use lz.Slices.{Growth, slice_from}
use lz.Decoder.Config.{Config}
use lz.Decoder.Buffer
use lz.Decoder.Buffer.{Buffer, Writer, Written}

-- How a loop on fuel ends: with a result, with a panic, or not in as many rounds as it was given.
pub data Outcome {ℓ} (A : Type ℓ) : Type ℓ where
  returned : A → Outcome A
  panicked unfinished : Outcome A

-- A call that may panic, and what comes behind it
abbrev pub or_panic {ℓ} : {A B : Type ℓ} → Option A → (A → Outcome B) → Outcome B
or_panic none f = panicked
or_panic (some a) f = f a

-- `err == ErrFullBuffer`
unfoldable pub is_full : Option Error → Bool
is_full (some Error.err_full_buffer) = true
is_full _ = false

module _ (w : Writer) where
  pub record Decoder : Type 0 where
    pub buf : Buffer
    pub sink : w.State

  -- `Init`, with a writer in state `st`
  unfoldable pub init : Decoder → w.State → Config → Decoder × Option Error
  init d st cfg =
      let (b, e) = Buffer.init d.buf cfg in
      elim e [
        | some err ↦ (record d { buf = b }, some err)
        | none ↦ (record { buf = b; sink = st }, none)
      ]

  unfoldable pub reset : Decoder → w.State → Decoder
  reset d st = record { buf = Buffer.reset d.buf; sink = st }

  -- `d.buf.WriteTo(d.w)`
  unfoldable pub flush : Decoder → Option (Decoder × Option Error)
  flush d = do
    (b, n, e, st) ← Buffer.write_to w d.buf d.sink
    some (record { buf = b; sink = st }, e)

  module _ (gr : Growth) where
    unfoldable pub write_byte : ℕ → Decoder → ℕ → Outcome (Decoder × Option Error)
    write_byte zero d c = unfinished
    write_byte (suc fuel) d c =
        let (b, e) = Buffer.write_byte gr d.buf c in
        let retry = or_panic (flush (record d { buf = b })) (λ (d', e'). elim e' [
          | some err ↦ returned (d', some err)
          | none ↦ write_byte fuel d' c
        ]) in
        if is_full e then retry else returned (record d { buf = b }, e)

    -- `n` is the sum of what the buffer's calls returned.
    unfoldable pub write : ℕ → Decoder → Bytes → ℕ → Outcome (Decoder × ℕ × Option Error)
    write zero d p n = unfinished
    write (suc fuel) d p n =
        let (b, k, e) = Buffer.write gr d.buf p in
        let retry = or_panic (flush (record d { buf = b })) (λ (d', e'). elim e' [
          | some err ↦ returned (d', n + k, some err)
          | none ↦ or_panic (slice_from k p) (λ p'. write fuel d' p' (n + k))
        ]) in
        if is_full e then retry else returned (record d { buf = b }, n + k, e)

    unfoldable pub write_block :
        ℕ → Decoder → Block → ℤ → ℕ → ℕ → Outcome (Decoder × ℤ × ℕ × ℕ × Option Error)
    write_block zero d blk n k l = unfinished
    write_block (suc fuel) d blk n k l = or_panic (Buffer.write_block gr d.buf blk) (λ (b, r).
        let n' = n +ℤ r.n in
        let k' = k + r.k in
        let l' = l + r.l in
        let retry = or_panic (flush (record d { buf = b })) (λ (d', e'). elim e' [
          | some err ↦ returned (d', n', k', l', some err)
          | none ↦ or_panic (slice_from r.k blk.sequences) (λ ss.
              or_panic (slice_from r.l blk.literals)
                (λ lits. write_block fuel d' (record { sequences = ss; literals = lits }) n' k' l'))
        ]) in
        if is_full r.error then retry else returned (record d { buf = b }, n', k', l', r.error))
