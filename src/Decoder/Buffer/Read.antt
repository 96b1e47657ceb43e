-- ===== src/Decoder/Buffer/Read.antt =====
-- What a buffer gives back: `Read`, `WriteTo`, `ByteAtEnd`, and the state behind `Init` and `Reset`.
use lz.Prelude.{
  ℕ, zero, suc, ◌+◌, ◌-◌, ◌≤◌, ◌<◌, ◌≡◌, refl, sym, ap, ◌⊎◌, inl, inr, ◌≢◌, none, some, [], arith,
  length, take, drop, get_or, length-append, length-take, length-drop, drop-append_add,
  get_or-append_add, Option-cases,
}
use Prim.Native.Nat.{min}
use lz.Prelude.Int.{pos, pos_part}
use lz.Lz.{Bytes}
use lz.Slices.{Slice}
use lz.Slices.Laws.{slice_from_lem}
use lz.Decoder.Config
use lz.Decoder.Config.{Config}
use lz.Decoder.Buffer.{
  Buffer, data_of, fresh, init, reset, read, byte_at_end, Writer, IsWriter, write_to,
}
use lz.Decoder.Buffer.Shrink.{Holds}

-- What is still to be read.
pub unread :
    {text : Bytes} {out : ℕ} {b : Buffer} → Holds text out b → drop b.r (data_of b) ≡ drop out text
unread {b = b} h = rw (← h.whole) (sym (drop-append_add _ b.r h.gone (data_of b) h.reads))

-- Reading moves `R` on.
pub advance-Holds :
    {text : Bytes} {out : ℕ} {b : Buffer} (n : ℕ)
    → n ≤ length text - out
    → Holds text out b
    → Holds text (out + n) (record b { r = b.r + n })
advance-Holds {b = b} n fits h = record {
  gone = h.gone;
  whole = h.whole;
  reads = omega (arith, h.reads);
  kept = h.kept;
  valid = record {
    read_in =
        omega
          (arith, h.reads, ap length h.whole, length-append h.gone (data_of b), h.valid.read_in);
    in_cap = h.valid.in_cap;
    in_size = h.valid.in_size;
    window_in = h.valid.window_in;
  };
}

-- `Read` never panics. It copies the next bytes of the text, as many as there are and `p` has room
-- for, and counts them as read.
pub read_lem :
    (len : ℕ) {text : Bytes} {out : ℕ} {b : Buffer}
    → Holds text out b
    → (b' : Buffer) × (p : Bytes) × (read b len ≡ some (b', p))
      × (p ≡ take len (drop out text))
      × Holds text (out + length p) b'
unfolding read
read_lem len {text} {out} {b} h = (
  record b { r = b.r + length (take len (drop b.r (data_of b))) },
  take len (drop b.r (data_of b)),
  rw (slice_from_lem b.r (data_of b) h.valid.read_in),
  rw (unread h),
  advance-Holds _
      (rw (unread h) (omega (arith, length-take len (drop out text), length-drop out text))) h,
)

-- `ByteAtEnd` gives the byte `off` places before the end of the text, within the window.
pub byte_at_end_lem :
    (off : ℕ) {text : Bytes} {out : ℕ} {b : Buffer}
    → Holds text out b
    → 0 < off
    → off ≤ min (length text) b.window_size
    → byte_at_end b (pos off) ≡ get_or text (length text - off) 0
unfolding byte_at_end
byte_at_end_lem zero h p q = absurd (omega arith)
byte_at_end_lem (suc n) {text} {b = b} h p q = ground (arith, within, h.kept)
  where
    within : get_or text (length text - suc n) 0 ≡ get_or (data_of b) (length (data_of b) - suc n) 0
    within = rw (← h.whole) (
        get_or-append_add h.gone (data_of b) _ (length (data_of b) - suc n) 0
          (omega (arith, length-append h.gone (data_of b), h.kept, ap length h.whole)))

fresh-Holds : (s : Slice) (window size : ℕ) → window < size → Holds [] 0 (fresh s window size)
unfolding fresh
fresh-Holds s window size h = record {
  gone = [];
  whole = refl;
  reads = omega arith;
  kept = omega arith;
  valid = ground arith;
}

-- What `Verify` accepts.
verified :
    (c : Config)
    → Config.verify c ≡ none
    → (pos (pos_part c.window_size) ≡ c.window_size)
      × (pos_part c.window_size < pos_part c.buffer_size)
unfolding Config.verify
verified c h = ground arith

set_up :
    (b : Buffer) (c : Config)
    → Config.verify c ≡ none
    → let b' = fresh b.slice (pos_part c.window_size) (pos_part c.buffer_size) in
      Holds [] 0 b'
      × (pos b'.window_size ≡ c.window_size)
      × (pos_part c.buffer_size ≤ b'.buffer_size)
      × (b'.off ≡ pos 0)
unfolding fresh
set_up b c ok = (
  fresh-Holds b.slice (pos_part c.window_size) (pos_part c.buffer_size) (verified c ok).1,
  (verified c ok).0,
  ground arith,
  refl,
)

-- `Init` fails with the error of `Verify`, and leaves the buffer alone; or the buffer is empty, has
-- the window that the configuration asks for, and at least its buffer size.
pub init_lem :
    (b : Buffer) (cfg : Config)
    → let (b', e) = init b cfg in
      let c = Config.set_defaults cfg in
      (e ≡ Config.verify c)
      × (((e ≢ none) × (b' ≡ b))
          ⊎ ((e ≡ none)
              × (Holds [] 0 b'
                  × (pos b'.window_size ≡ c.window_size)
                  × (pos_part c.buffer_size ≤ b'.buffer_size)
                  × (b'.off ≡ pos 0))))
unfolding init
init_lem b cfg = elim (Option-cases (Config.verify (Config.set_defaults cfg))) [
  | inl ok ↦ rw (ok, init) (refl, inr (refl, set_up b (Config.set_defaults cfg) ok))
  | inr (e, bad) ↦ rw (bad, init) (refl, inl (ground arith, refl))
]

-- `Reset` leaves an empty text, of which nothing was read, the total offset 0, and the window size.
pub reset_lem :
    {text : Bytes} {out : ℕ} {b : Buffer}
    → Holds text out b
    → Holds [] 0 (reset b) × ((reset b).off ≡ pos 0) × ((reset b).window_size ≡ b.window_size)
unfolding reset fresh
reset_lem {b = b} h =
    (fresh-Holds b.slice b.window_size b.buffer_size h.valid.window_in, refl, refl)

-- `WriteTo` never panics. It offers the writer all that is still to be read, and counts as read what
-- the writer took.
pub write_to_lem :
    (w : Writer) (law : IsWriter w) (st : w.State) {text : Bytes} {out : ℕ} {b : Buffer}
    → Holds text out b
    → let k = (w.write st (drop out text)).0 in
      (b' : Buffer) × (write_to w b st
        ≡ some (b', k, (w.write st (drop out text)).1, (w.write st (drop out text)).2))
      × Holds text (out + k) b'
      × (b'.off ≡ b.off)
      × (b'.window_size ≡ b.window_size)
      × (b'.buffer_size ≡ b.buffer_size)
      × (b'.slice.cap ≡ b.slice.cap)
unfolding write_to
write_to_lem w law st {text} {out} {b} h = (
  record b { r = b.r + (w.write st (drop out text)).0 },
  rw (slice_from_lem b.r (data_of b) h.valid.read_in, unread h),
  advance-Holds _ (omega (arith, law.front st (drop out text), length-drop out text)) h,
  refl,
  refl,
  refl,
  refl,
)
