-- ===== src/Session/Buffer.antt =====
-- A buffer that is ready stays so in `Write` and `Shrink`.
use lz.Prelude.Int.{pos, ◌+ℤ◌}
use lz.Prelude.{
  some-inj, ℕ, zero, suc, ◌+◌, ◌-◌, ◌≤◌, ◌≡◌, refl, sym, ◌∙◌, arith, inl, inr, false, Option, none,
  some, [], ◌∷◌, ◌++◌, length, take, drop, replicate, length-take, Bool-cases, ltb, leb,
}
use mathlib.Core.Path.{subst}
use lz.Lz.{Bytes, Error}
use lz.Slices.{Growth}
use lz.Slices.Laws.{slice_to_lem, slice_from_lem}
use lz.Bytes.Prefix.{AreBytes, none_left, byte, take-AreBytes, drop-AreBytes}
use lz.Bytes.Suffix.{append-AreBytes}
use lz.ParserBuffer.{ParserBuffer, cap_of, memory, ensure, grow, grow_cap, put, write, shrink}
use lz.ParserBuffer.Text.{Holds, SameSizes, buffer-write_lem, shrink_lem, grow_cap-bounds}
use lz.Greedy.RoundTrip.{IsReady}

split-AreBytes : (p q : Bytes) → AreBytes (p ++ q) → AreBytes p × AreBytes q
split-AreBytes [] q h = (none_left, h)
split-AreBytes (a ∷ p) q (byte lt h) = let (hp, hq) = split-AreBytes p q h in (byte lt hp, hq)

zeros-AreBytes : (n : ℕ) → AreBytes (replicate n 0)
zeros-AreBytes zero = none_left
zeros-AreBytes (suc n) = byte (omega arith) (zeros-AreBytes n)

ensure-AreBytes :
    (b : ParserBuffer) (t : ℕ)
    → AreBytes (memory b)
    → length b.data_bytes ≤ t
    → t ≤ b.buffer_size
    → (c : ParserBuffer) × (ensure b t ≡ some c) × AreBytes (memory c)
unfolding ensure grow
ensure-AreBytes b t h le small = elim (Bool-cases (ltb (cap_of b) (t + 7))) [
  | inr fits ↦ (b, rw fits refl, h)
  | inl tight ↦
      let much = grow_cap-bounds b t small in
      let more : leb (t + 7) (cap_of b) ≡ false = ground (arith, tight) in
      let room : ltb (grow_cap b t) (length b.data_bytes) ≡ false = ground (arith, much, le) in
      let (front, _) = split-AreBytes b.data_bytes b.spare h in
      (
        record b { spare = replicate (grow_cap b t - length b.data_bytes) 0 },
        rw (tight, more, room) refl,
        append-AreBytes b.data_bytes _ front (zeros-AreBytes (grow_cap b t - length b.data_bytes)),
      )
]

put-AreBytes :
    (gr : Growth) (b : ParserBuffer) (p : Bytes)
    → AreBytes (memory b)
    → AreBytes p
    → AreBytes (memory (put gr b p))
unfolding put
put-AreBytes gr b p h hp =
    let (front, behind) = split-AreBytes b.data_bytes b.spare h in
    let total = append-AreBytes b.data_bytes p front hp in
    let needed = length b.data_bytes + length p in
    append-AreBytes (b.data_bytes ++ p) _ total (elim (Bool-cases (leb needed (cap_of b))) [
      | inl e ↦ rw e (drop-AreBytes (length p) b.spare behind)
      | inr e ↦ rw e (zeros-AreBytes (gr.grow (cap_of b) needed - needed))
    ])

abbrev Written : Type 0
Written = ParserBuffer × ℕ × Option Error

write-AreBytes :
    (gr : Growth) (b : ParserBuffer) (p : Bytes)
    → IsReady b
    → AreBytes p
    → (out : Written) × (write gr b p ≡ some out) × AreBytes (memory (out.0))
unfolding write
write-AreBytes gr b p r hp =
    elim (Bool-cases (ltb b.buffer_size (length b.data_bytes + length p))) [
      | inr fits ↦
          let (c, run, h) =
            ensure-AreBytes b (length b.data_bytes + length p) r.bytes (omega arith)
              (ground (arith, fits)) in
          ((put gr c p, length p, none), rw (fits, run) refl, put-AreBytes gr c p h hp)
      | inl over ↦
          let valid : ltb b.buffer_size (length b.data_bytes) ≡ false =
            ground (arith, r.valid.in_size) in
          let free = b.buffer_size - length b.data_bytes in
          let q = take free p in
          let (c, run, h) =
            ensure-AreBytes b (length b.data_bytes + length q) r.bytes (omega arith)
              (omega (arith, length-take free p, r.valid.in_size)) in
          (
            (put gr c q, length q, some Error.err_full_buffer),
            rw (over, valid, slice_to_lem free p (ground (arith, over)), run) refl,
            put-AreBytes gr c q h (take-AreBytes free p hp),
          )
    ]

shrink-AreBytes :
    (b : ParserBuffer)
    → IsReady b
    → (out : ParserBuffer × ℕ) × (shrink b ≡ some out) × AreBytes (memory (out.0))
unfolding shrink
shrink-AreBytes b r = elim (Bool-cases (leb b.w b.shrink_size)) [
  | inl e ↦ ((b, 0), rw e refl, r.bytes)
  | inr e ↦
      let d = b.w - b.shrink_size in
      let rest = drop d b.data_bytes in
      let (front, behind) = split-AreBytes b.data_bytes b.spare r.bytes in
      (
        (
          record b {
            data_bytes = rest;
            spare = drop (length rest) b.data_bytes ++ b.spare;
            w = b.shrink_size;
            off = b.off +ℤ pos d;
          },
          d,
        ),
        rw (e, slice_from_lem d b.data_bytes (omega (arith, r.valid.head_in))) refl,
        append-AreBytes rest _ (drop-AreBytes d b.data_bytes front)
            (append-AreBytes _ b.spare (drop-AreBytes (length rest) b.data_bytes front) behind),
      )
]

resized :
    (b b' : ParserBuffer) (text : Bytes) (head : ℕ)
    → IsReady b
    → Holds text head b'
    → SameSizes b b'
    → AreBytes (memory b')
    → IsReady b'
resized b b' text head r h s bytes = record {
  valid = h.valid;
  bytes = bytes;
  blocks = omega (arith, r.blocks, s.block_size);
  small = omega (arith, r.small, s.buffer_size);
}

-- What a buffer holds goes on through `Write` and `Shrink`, and it stays ready.
module _ (b : ParserBuffer) (r : IsReady b) (text : Bytes) (head : ℕ) (h : Holds text head b) where
  pub write-IsReady :
      (gr : Growth) (p : Bytes) (out : Written)
      → AreBytes p
      → write gr b p ≡ some out
      → IsReady (out.0) × Holds (text ++ take (out.1) p) head (out.0)
  write-IsReady gr p out hp e =
      let (out', run', bytes) = write-AreBytes gr b p r hp in
      let (b', run, holds, sizes) = buffer-write_lem gr p h in
      let bytes' : AreBytes (memory (out.0)) =
        subst (λ o. AreBytes (memory (o.0))) (some-inj out (sym run' ∙ e)) bytes in
      let (holds', sizes') =
        subst (λ o. Holds (text ++ take (o.1) p) head (o.0) × SameSizes b (o.0))
          (some-inj out (sym run ∙ e)) (holds, sizes) in
      (resized b (out.0) _ head r holds' sizes' bytes', holds')

  pub shrink-IsReady :
      (out : ParserBuffer × ℕ) → shrink b ≡ some out → IsReady (out.0) × Holds text head (out.0)
  shrink-IsReady out e =
      let (out', run', bytes) = shrink-AreBytes b r in
      let (b', run, holds, _, _, sizes) = shrink_lem h in
      let bytes' : AreBytes (memory (out.0)) =
        subst (λ o. AreBytes (memory (o.0))) (some-inj out (sym run' ∙ e)) bytes in
      let (holds', sizes') =
        subst (λ o. Holds text head (o.0) × SameSizes b (o.0)) (some-inj out (sym run ∙ e))
          (holds, sizes) in
      (resized b (out.0) text head r holds' sizes' bytes', holds')
