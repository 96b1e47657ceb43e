-- ===== src/Decoder/Buffer/Room.antt =====
-- The two tests for room: what they keep, and what a passed test means.
use lz.Prelude.{
  ℕ, ◌+◌, ◌-◌, ◌≤◌, ◌≡◌, ap, true, false, ◌<◌, length-append, ◌⊎◌, none, some, arith, length,
  length-drop,
}
use Prim.Native.Nat.{min}
use lz.Ints.Laws.{doz-pos}
use lz.Lz.{Bytes, Error}
use lz.Decoder.Buffer.{Buffer, data_of, slide, shrink, fit, reserve}
use lz.Decoder.Buffer.Shrink.{Holds, shrink-Shrunk, Shrunk-Holds, slide-Shrunk}

-- Holding the text, and nothing else of interest changed.
pub record Kept (text : Bytes) (out : ℕ) (b b' : Buffer) : Type 0 where
  pub holds : Holds text out b'
  pub off : b'.off ≡ b.off
  pub window : b'.window_size ≡ b.window_size
  pub size : b.buffer_size ≤ b'.buffer_size

module _ {text : Bytes} {out : ℕ} {b : Buffer} (h : Holds text out b) where
  shrink-Kept : (g : ℕ) → Kept text out b (shrink b g).0
  shrink-Kept g = record {
    holds = Shrunk-Holds (shrink-Shrunk b g) h;
    off = (shrink-Shrunk b g).off;
    window = (shrink-Shrunk b g).window;
    size = (shrink-Shrunk b g).size;
  }

  same-Kept : Kept text out b b
  same-Kept = record {
    holds = h;
    off = λ i. b.off;
    window = λ i. b.window_size;
    size = omega arith;
  }

  pub fit-Kept : (g : ℕ) → Kept text out b (fit b g).0
  unfolding fit
  fit-Kept g = ground (arith, shrink-Kept g, same-Kept)

  pub fit-room :
      (n : ℕ)
      → (fit b (length (data_of b) + n)).1 ≡ true
      → length (data_of ((fit b (length (data_of b) + n)).0)) + n
        ≤ (fit b (length (data_of b) + n)).0.buffer_size
  unfolding fit
  fit-room n e = ground (
    arith,
    h.valid,
    ap length (shrink-Shrunk b (length (data_of b) + n)).bytes,
    (shrink-Shrunk b (length (data_of b) + n)).beyond,
    length-drop (shrink b (length (data_of b) + n)).1 (data_of b),
  )

  pub reserve-Kept : (g : ℕ) → Kept text out b (reserve b g).0
  unfolding reserve
  reserve-Kept g = ground (arith, shrink-Kept (g + length (data_of b)), same-Kept)

  pub reserve-room :
      (g : ℕ)
      → (reserve b g).1 ≡ none
      → length (data_of ((reserve b g).0)) + g ≤ (reserve b g).0.buffer_size
  unfolding reserve
  reserve-room g e = ground (
    arith,
    h.valid,
    ap length (shrink-Shrunk b (g + length (data_of b))).bytes,
    (shrink-Shrunk b (g + length (data_of b))).beyond,
    (shrink-Shrunk b (g + length (data_of b))).size,
    length-drop (shrink b (g + length (data_of b))).1 (data_of b),
  )

-- The errors of `reserve`.
pub reserve-error :
    (b : Buffer) (g : ℕ)
    → ((reserve b g).1 ≡ none)
      ⊎ ((reserve b g).1 ≡ some Error.err_match_len)
      ⊎ ((reserve b g).1 ≡ some Error.err_full_buffer)
unfolding reserve
reserve-error b g = ground arith

slide-delta : (b : Buffer) → (slide b).1 ≡ min b.r (length (data_of b) - b.window_size)
unfolding slide
slide-delta b = ground (arith, doz-pos (length (data_of b)) b.window_size)

slide-size : (b : Buffer) → (slide b).0.buffer_size ≡ b.buffer_size
unfolding slide
slide-size b = ground arith

-- Once all is read, whatever fits beside the window fits.
pub fit-succeeds :
    {text : Bytes} {out : ℕ} {b : Buffer} (n : ℕ)
    → Holds text out b
    → out ≡ length text
    → n + b.window_size ≤ b.buffer_size
    → (fit b (length (data_of b) + n)).1 ≡ true
unfolding fit shrink
fit-succeeds {b = b} n h all room = ground (
  arith,
  slide-delta b,
  slide-delta (record b { buffer_size = b.slice.cap }),
  slide-size b,
  slide-size (record b { buffer_size = b.slice.cap }),
  h.reads,
  ap length h.whole,
  length-append h.gone (data_of b),
)

-- More than the buffer's size and capacity never fits, and the test changes neither.
pub fit-fails :
    (b : Buffer) (n : ℕ)
    → b.slice.cap ≤ b.buffer_size
    → b.buffer_size < n
    → ((fit b (length (data_of b) + n)).1 ≡ false)
      × ((fit b (length (data_of b) + n)).0.buffer_size ≡ b.buffer_size)
      × ((fit b (length (data_of b) + n)).0.slice.cap ≡ b.slice.cap)
unfolding fit shrink
fit-fails b n h k = ground (arith, slide-size b, slide-delta b, (slide-Shrunk b).cap)
