-- ===== src/ParserBuffer/Text.antt =====
-- A `ParserBuffer` against the text that was written to it: the invariant, and `Write` and `Shrink`.
use lz.Prelude.{
  ℕ, ◌+◌, ◌-◌, ◌≤◌, ◌<◌, ◌≡◌, refl, sym, ap, ◌∙◌, ◌⊎◌, inl, inr, false, Option, none, some, ◌>>=◌,
  ◌++◌, append_assoc, arith, length, take, drop, replicate, length-append, length-take, length-drop,
  length-replicate, take-append-drop, take-all, ltb, leb, Bool-cases, if◌then◌else◌, ltb→lt, ap_at,
}
use Prim.Native.Nat.{min}
use mathlib.Core.Path.{subst}
use lz.Prelude.Int.{pos, ◌+ℤ◌}
use lz.Lz.{Bytes, Error}
use lz.Slices.{Growth}
use lz.Slices.Laws.{slice_from_lem, slice_to_lem}
use lz.ParserBuffer.{ParserBuffer, cap_of, shrink, grow_cap, grow, ensure, put, write}

-- The head of the window lies in the data, the data in the buffer size, and seven bytes are left
-- behind data that is not empty.
pub record IsValid (b : ParserBuffer) : Type 0 where
  pub head_in : b.w ≤ length b.data_bytes
  pub in_size : length b.data_bytes ≤ b.buffer_size
  pub margin : (length b.data_bytes ≡ 0) ⊎ (7 ≤ length b.spare)
  pub shrink_in : b.shrink_size ≤ b.buffer_size

-- The buffer holds the end of the text that begins at `Off`, and its window's head stands at `head`
-- of the text.
pub record Holds (text : Bytes) (head : ℕ) (b : ParserBuffer) : Type 0 where
  pub gone : Bytes
  pub whole : gone ++ b.data_bytes ≡ text
  pub offset : b.off ≡ pos (length gone)
  pub at_head : length gone + b.w ≡ head
  pub valid : IsValid b

-- The sizes stay as they were set up.
pub record SameSizes (b b' : ParserBuffer) : Type 0 where
  pub shrink_size : b'.shrink_size ≡ b.shrink_size
  pub buffer_size : b'.buffer_size ≡ b.buffer_size
  pub window_size : b'.window_size ≡ b.window_size
  pub block_size : b'.block_size ≡ b.block_size

-- What `grow` and the test before it leave: the data, and room for `t` bytes and the margin.
pub record Roomy (b : ParserBuffer) (t : ℕ) (b' : ParserBuffer) : Type 0 where
  pub data_bytes : b'.data_bytes ≡ b.data_bytes
  pub room : t + 7 ≤ length b'.data_bytes + length b'.spare
  pub w : b'.w ≡ b.w
  pub off : b'.off ≡ b.off
  pub sizes : SameSizes b b'

-- What `grow` allocates has room for `t` bytes and the margin, and no more than the margin beyond the
-- buffer size.
pub grow_cap-bounds :
    (b : ParserBuffer) (t : ℕ)
    → t ≤ b.buffer_size
    → (t + 7 ≤ grow_cap b t) × (grow_cap b t ≤ b.buffer_size + 7)
unfolding grow_cap
grow_cap-bounds b t h = ground arith

abbrev larger : ParserBuffer → ℕ → ParserBuffer
larger b t = record b { spare = replicate (grow_cap b t - length b.data_bytes) 0 }

larger-Roomy :
    (b : ParserBuffer) (t : ℕ)
    → length b.data_bytes ≤ t
    → t ≤ b.buffer_size
    → Roomy b t (larger b t)
larger-Roomy b t p q = record {
  data_bytes = refl;
  room = omega (
    arith,
    grow_cap-bounds b t q,
    length-replicate {A = ℕ} (grow_cap b t - length b.data_bytes) 0,
  );
  w = refl;
  off = refl;
  sizes = ground arith;
}

pub ensure-Roomy :
    (b : ParserBuffer) (t : ℕ)
    → length b.data_bytes ≤ t
    → t ≤ b.buffer_size
    → (b' : ParserBuffer) × (ensure b t ≡ some b') × Roomy b t b'
unfolding ensure grow
ensure-Roomy b t p q = elim (Bool-cases (ltb (cap_of b) (t + 7))) [
  | inr fits ↦ (
    b,
    rw fits,
    record { data_bytes = refl; room = ground arith; w = refl; off = refl; sizes = ground arith },
  )
  | inl small ↦ (larger b t, ground (arith, grow_cap-bounds b t q), larger-Roomy b t p q)
]

-- With room in the array, `append` writes into it.
pub put-spare :
    (gr : Growth) (c : ParserBuffer) (p : Bytes)
    → length c.data_bytes + length p ≤ cap_of c
    → (put gr c p).spare ≡ drop (length p) c.spare
unfolding put
put-spare gr c p h = ground arith

pub same-text :
    {text text' : Bytes} {head : ℕ} {b : ParserBuffer}
    → text ≡ text'
    → Holds text head b
    → Holds text' head b
same-text {head = head} {b = b} e h = subst (λ t. Holds t head b) e h

-- Appended bytes are appended to the text.
put-Holds :
    (gr : Growth) (p : Bytes) {text : Bytes} {head : ℕ} {b c : ParserBuffer}
    → Holds text head b
    → Roomy b (length b.data_bytes + length p) c
    → length b.data_bytes + length p ≤ b.buffer_size
    → Holds (text ++ p) head (put gr c p)
unfolding put
put-Holds gr p {text} {head} {b} {c} h k room = record {
  gone = h.gone;
  whole =
      ap (λ t. h.gone ++ (t ++ p)) k.data_bytes
      ∙ sym (append_assoc h.gone b.data_bytes p)
      ∙ ap (λ t. t ++ p) h.whole;
  offset = k.off ∙ h.offset;
  at_head = omega (arith, k.w, h.at_head);
  valid = record {
    head_in = omega (arith, total, k.w, h.valid.head_in);
    in_size = omega (arith, total, k.sizes.buffer_size);
    margin = inr (
        omega (
          arith,
          ap length (put-spare gr c p (omega (arith, same, k.room))),
          length-drop (length p) c.spare,
          k.room,
          same,
        ));
    shrink_in = omega (arith, k.sizes.shrink_size, k.sizes.buffer_size, h.valid.shrink_in);
  };
}
  where
    same : length c.data_bytes ≡ length b.data_bytes
    same = ap length k.data_bytes

    total : length (c.data_bytes ++ p) ≡ length b.data_bytes + length p
    total = omega (arith, length-append c.data_bytes p, same)

put-SameSizes :
    (gr : Growth) (p : Bytes) {b c : ParserBuffer} → SameSizes b c → SameSizes b (put gr c p)
unfolding put
put-SameSizes gr p s = record {
  shrink_size = s.shrink_size;
  buffer_size = s.buffer_size;
  window_size = s.window_size;
  block_size = s.block_size;
}

abbrev store :
    Growth → ParserBuffer → Bytes → Option Error → Option (ParserBuffer × ℕ × Option Error)
store gr b q e = ensure b (length b.data_bytes + length q) >>= (λ c. some (put gr c q, length q, e))

-- A write that takes the front part `q` of what it was given.
stored :
    (gr : Growth) (q : Bytes) (e : Option Error) {text : Bytes} {head : ℕ} {b : ParserBuffer}
    → Holds text head b
    → length b.data_bytes + length q ≤ b.buffer_size
    → (b' : ParserBuffer) × (store gr b q e ≡ some (b', length q, e))
      × Holds (text ++ q) head b'
      × SameSizes b b'
stored gr q e {b = b} h room =
    let (c, run, k) = ensure-Roomy b (length b.data_bytes + length q) (omega arith) room in
    (put gr c q, rw run, put-Holds gr q h k room, put-SameSizes gr q k.sizes)

named :
    (b : ParserBuffer) {n k : ℕ} {e e' : Option Error}
    → n ≡ k
    → e ≡ e'
    → ◌≡◌ {A = Option (ParserBuffer × ℕ × Option Error)} (some (b, n, e)) (some (b, k, e'))
named b p q = cc

-- `Write` never panics on a valid buffer. It appends what the buffer size has room for, returns how
-- much that is, and reports `ErrFullBuffer` exactly if that is not all. The head of the window and
-- the sizes stay.
pub buffer-write_lem :
    (gr : Growth) (p : Bytes) {text : Bytes} {head : ℕ} {b : ParserBuffer}
    → Holds text head b
    → let n = min (length p) (b.buffer_size - length b.data_bytes) in
      (b' : ParserBuffer) × (write gr b p
        ≡ some (b', n, (if ltb n (length p) then some Error.err_full_buffer else none)))
      × Holds (text ++ take n p) head b'
      × SameSizes b b'
unfolding write
buffer-write_lem gr p {text} {head} {b} h =
    elim (Bool-cases (ltb b.buffer_size (length b.data_bytes + length p))) [
      | inl over ↦
          let less : b.buffer_size < length b.data_bytes + length p = ltb→lt _ _ over in
          let valid : ltb b.buffer_size (length b.data_bytes) ≡ false =
            ground (arith, h.valid.in_size) in
          let free = b.buffer_size - length b.data_bytes in
          let size : length (take free p) ≡ min (length p) free =
            omega (arith, length-take free p) in
          let (b', run, holds, sizes) =
            stored gr (take free p) (some Error.err_full_buffer) h
              (omega (arith, size, h.valid.in_size)) in
          (
            b',
            rw (over, valid, slice_to_lem free p (omega (arith, h.valid.in_size)))
                (run ∙ named b' size (ground arith)),
            same-text (ap_at (λ k. text ++ take k p) free (min (length p) free) (omega arith))
                holds,
            sizes,
          )
      | inr fits ↦
          let le : length b.data_bytes + length p ≤ b.buffer_size = ground arith in
          let (b', run, holds, sizes) = stored gr p none h le in
          (
            b',
            rw fits (run ∙ named b' (omega arith) (ground arith)),
            same-text
                (ap (λ t. text ++ t)
                  (sym (
                    take-all (min (length p) (b.buffer_size - length b.data_bytes)) p
                      (omega arith))))
                holds,
            sizes,
          )
    ]

-- the buffer without the first `d` bytes, whose memory keeps its last bytes
abbrev cut : ParserBuffer → ℕ → ParserBuffer
cut b d = record b {
  data_bytes = drop d b.data_bytes;
  spare = drop (length (drop d b.data_bytes)) b.data_bytes ++ b.spare;
  w = b.shrink_size;
  off = b.off +ℤ pos d;
}

cut-Holds :
    {text : Bytes} {head : ℕ} (b : ParserBuffer) (d : ℕ)
    → b.shrink_size + d ≡ b.w
    → 0 < d
    → Holds text head b
    → Holds text head (cut b d) × (cap_of (cut b d) ≡ cap_of b)
unfolding ◌+ℤ◌
cut-Holds {text} {head} b d e p h = (
  record {
    gone = h.gone ++ take d b.data_bytes;
    whole =
        append_assoc h.gone (take d b.data_bytes) (drop d b.data_bytes)
        ∙ ap (λ t. h.gone ++ t) (take-append-drop d b.data_bytes)
        ∙ h.whole;
    offset = rw h.offset (ground (arith, longer));
    at_head = omega (arith, longer, h.at_head);
    valid = record {
      head_in = omega (arith, shorter, h.valid.head_in);
      in_size = omega (arith, shorter, h.valid.in_size);
      margin = inr (omega (arith, more, h.valid.margin, h.valid.head_in));
      shrink_in = h.valid.shrink_in;
    };
  },
  omega (arith, shorter, more, h.valid.head_in),
)
  where
    shorter : length (drop d b.data_bytes) ≡ length b.data_bytes - d
    shorter = length-drop d b.data_bytes

    longer : length (h.gone ++ take d b.data_bytes) ≡ length h.gone + d
    longer = omega (
      arith,
      length-append h.gone (take d b.data_bytes),
      length-take d b.data_bytes,
      h.valid.head_in,
    )

    more : length (drop (length (drop d b.data_bytes)) b.data_bytes ++ b.spare) ≡ d + length b.spare
    more = omega (
      arith,
      length-append (drop (length (drop d b.data_bytes)) b.data_bytes) b.spare,
      length-drop (length (drop d b.data_bytes)) b.data_bytes,
      shorter,
      h.valid.head_in,
    )

-- `Shrink` never panics on a valid buffer. It drops data before the window's head only, returns how
-- much that is, and keeps `shrink_size` bytes there if it drops any.
pub shrink_lem :
    {text : Bytes} {head : ℕ} {b : ParserBuffer}
    → Holds text head b
    → (b' : ParserBuffer) × (shrink b ≡ some (b', b.w - b.shrink_size))
      × Holds text head b'
      × (b'.w ≡ min b.w b.shrink_size)
      × (cap_of b' ≡ cap_of b)
      × SameSizes b b'
unfolding shrink
shrink_lem {b = b} h = elim (Bool-cases (leb b.w b.shrink_size)) [
  | inl small ↦ (
    b,
    rw small (ap_at (λ k. some (b, k)) 0 (b.w - b.shrink_size) (ground arith)),
    h,
    ground arith,
    refl,
    ground arith,
  )
  | inr large ↦
      let d = b.w - b.shrink_size in
      let (holds, cap') = cut-Holds b d (ground arith) (ground arith) h in
      (
        cut b d,
        rw (large, slice_from_lem d b.data_bytes (omega (arith, h.valid.head_in))),
        holds,
        ground arith,
        cap',
        ground arith,
      )
]
