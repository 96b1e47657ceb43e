-- ===== src/Decoder/Buffer/Shrink.antt =====
-- The invariant of a `DecoderBuffer`, and what `shrink` and the tests for room keep of it.
use Prim.Native.Nat.{min}
use lz.Prelude.{
  ℕ, ◌+◌, ◌-◌, ◌≤◌, ◌<◌, ◌≡◌, ap, ◌∙◌, ◌++◌, append_assoc, arith, length, take, drop, length-append,
  length-take, length-drop, take-append-drop,
}
use lz.Ints.Laws.{doz-pos}
use lz.Lz.{Bytes}
use lz.Decoder.Buffer.{Buffer, data_of, slide, shrink}

pub record IsValid (b : Buffer) : Type 0 where
  pub read_in : b.r ≤ length (data_of b)
  pub in_cap : length (data_of b) ≤ b.slice.cap
  pub in_size : length (data_of b) ≤ b.buffer_size
  pub window_in : b.window_size < b.buffer_size

-- The abstract state of a decoder: `text` is all that was written, `out` how much of it was read.
-- The buffer holds an end of the text, the last `window_size` bytes of it at least.
pub record Holds (text : Bytes) (out : ℕ) (b : Buffer) : Type 0 where
  pub gone : Bytes
  pub whole : gone ++ data_of b ≡ text
  pub reads : length gone + b.r ≡ out
  pub kept : min (length text) b.window_size ≤ length (data_of b)
  pub valid : IsValid b

-- What `shrink` does: it forgets `delta` bytes, all of them read and none in the window.
pub record Shrunk (b : Buffer) (out : Buffer × ℕ) : Type 0 where
  pub bytes : data_of (out.0) ≡ drop out.1 (data_of b)
  pub reads : out.0.r + out.1 ≡ b.r
  pub beyond : out.1 ≤ length (data_of b) - b.window_size
  pub size : b.buffer_size ≤ out.0.buffer_size
  pub window : out.0.window_size ≡ b.window_size
  pub cap : out.0.slice.cap ≡ b.slice.cap
  pub off : out.0.off ≡ b.off

pub slide-Shrunk : (b : Buffer) → Shrunk b (slide b)
unfolding slide
slide-Shrunk b = ground (arith, doz-pos (length (data_of b)) b.window_size)

pub shrink-Shrunk : (b : Buffer) (g : ℕ) → Shrunk b (shrink b g)
unfolding shrink
shrink-Shrunk b g =
    ground (arith, slide-Shrunk b, slide-Shrunk (record b { buffer_size = b.slice.cap }))

-- A shrunk buffer holds the same text.
pub Shrunk-Holds :
    {text : Bytes} {out : ℕ} {b : Buffer} {s : Buffer × ℕ}
    → Shrunk b s
    → Holds text out b
    → Holds text out s.0
Shrunk-Holds {text} {out} {b} {s} k h = record {
  gone = h.gone ++ take s.1 (data_of b);
  whole = rest;
  reads = omega (
    arith,
    length-append h.gone (take s.1 (data_of b)),
    length-take s.1 (data_of b),
    h.reads,
    k.reads,
    h.valid.read_in,
  );
  kept = omega (arith, ap length k.bytes, length-drop s.1 (data_of b), h.kept, k.beyond, k.window);
  valid = record {
    read_in =
        omega (arith, ap length k.bytes, length-drop s.1 (data_of b), h.valid.read_in, k.reads);
    in_cap = omega (arith, ap length k.bytes, length-drop s.1 (data_of b), h.valid.in_cap, k.cap);
    in_size =
        omega (arith, ap length k.bytes, length-drop s.1 (data_of b), h.valid.in_size, k.size);
    window_in = omega (arith, h.valid.window_in, k.window, k.size);
  };
}
  where
    rest : h.gone ++ take s.1 (data_of b) ++ data_of (s.0) ≡ text
    rest = rw k.bytes (
        append_assoc h.gone (take s.1 (data_of b)) (drop s.1 (data_of b))
        ∙ ap (λ t. h.gone ++ t) (take-append-drop s.1 (data_of b))
        ∙ h.whole)
