-- ===== src/DoubleParser/Skip.antt =====
-- `Parse` of the double hash parser without a block: the tables are filled, but the head stays.
use lz.Prelude.{
  ℕ, ◌+◌, ◌≤◌, ◌<◌, ◌≡◌, ◌≢◌, refl, arith, inl, inr, Option, none, some, length, Bool-cases, ◌==◌,
}
use lz.Lz.{Error}
use lz.DoubleHash.{Dictionary}
use lz.Greedy.{block_size}
use lz.Greedy.RoundTrip.{n-bounds}
use lz.DoubleParser.{skip}
use lz.DoubleParser.RoundTrip.{Ready, prepare_lem}

-- What a call without a block returns: a count of bytes, with the buffer as it was.
pub data Stays (f : Dictionary) : Dictionary × ℕ × Option Error → Type 0 where
  stays_at_end :
      f.buffer.w ≡ length f.buffer.data_bytes → Stays f (f, 0, some Error.err_empty_buffer)
  stays :
      {f' : Dictionary} {n : ℕ}
      → 0 < n
      → f.buffer.w + n ≤ length f.buffer.data_bytes
      → f'.buffer ≡ f.buffer
      → Ready f'
      → Stays f (f', n, none)

-- Without a block `Parse` of a double hash parser that is ready ends without a panic. At the end of the
-- data it returns `ErrEmptyBuffer`. Else it returns a count of at least one byte, but its buffer is as
-- it was: the head has not moved over the bytes that it counts.
pub double-skip_lem :
    (f : Dictionary)
    → Ready f
    → (out : Dictionary × ℕ × Option Error) × (skip f ≡ some out) × Stays f out
unfolding skip block_size
double-skip_lem f r =
    let n = block_size f.buffer in
    elim (Bool-cases (n == 0)) [
      | inl e ↦ (
        (f, 0, some Error.err_empty_buffer),
        rw e refl,
        stays_at_end (ground (arith, e, r.buffer.valid.head_in, r.buffer.blocks)),
      )
      | inr e ↦
          let ne : n ≢ 0 = ground (arith, e) in
          let (t, run, ok) = prepare_lem f (f.buffer.w + n) r ne in
          (
            (record f { tables = t }, n, none),
            rw (e, run) refl,
            stays (omega (arith, ne)) ((n-bounds f.buffer r.buffer).0) refl
                (record { buffer = r.buffer; tables = ok }),
          )
    ]
