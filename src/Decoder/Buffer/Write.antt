-- ===== src/Decoder/Buffer/Write.antt =====
-- Appending bytes and matches: the doubling loop is the byte-by-byte copy.
use lz.Prelude.{
  ℕ, zero, suc, ◌+◌, ◌-◌, ◌*◌, ◌≤◌, ◌<◌, ◌≡◌, refl, sym, ap, ◌∙◌, ◌⊎◌, inl, inr, Option, some, ◌++◌,
  arith, length, take, drop, length-append, length-drop, take-all, ltb, leb, Bool-cases,
  if◌then◌else◌, leb→le, ltb→lt,
}
use lz.Lz.{Bytes}
use lz.Slices.{Growth}
use lz.Slices.Laws.{slice_to_lem, slice_last_lem, bytes-append, cap-append}
use lz.Spec.{copy}
use lz.Spec.Copy.{length-copy, copy-add, copy-piece, copy-Repeats, copy-double, Repeats}
use lz.Decoder.Buffer.{Buffer, data_of, put, copy_rest, copy_match}
use lz.Decoder.Buffer.Shrink.{Holds}

-- `b'` is `b` with the bytes `p`, in a slice that has room for them.
pub record Has (p : Bytes) (b b' : Buffer) : Type 0 where
  pub bytes : data_of b' ≡ p
  pub in_cap : length p ≤ b'.slice.cap
  pub r : b'.r ≡ b.r
  pub off : b'.off ≡ b.off
  pub window : b'.window_size ≡ b.window_size
  pub size : b'.buffer_size ≡ b.buffer_size

pub put-Has : (gr : Growth) (b : Buffer) (p : Bytes) → Has (data_of b ++ p) b (put gr b p)
unfolding put
put-Has gr b p = record {
  bytes = bytes-append gr b.slice p;
  in_cap = (cap-append gr b.slice p).0;
  r = refl;
  off = refl;
  window = refl;
  size = refl;
}

Has-trans : {p q : Bytes} {b c d : Buffer} → Has p b c → Has q c d → Has q b d
Has-trans h k = record {
  bytes = k.bytes;
  in_cap = k.in_cap;
  r = k.r ∙ h.r;
  off = k.off ∙ h.off;
  window = k.window ∙ h.window;
  size = k.size ∙ h.size;
}

-- The buffer that a run ends in.
abbrev pub EndsIn : Option Buffer → Bytes → Buffer → Type 0
EndsIn run p b = (b' : Buffer) × (run ≡ some b') × Has p b b'

copy_rest-Has :
    (gr : Growth) (b : Buffer) (n off : ℕ)
    → n ≤ off
    → off ≤ length (data_of b)
    → EndsIn (copy_rest gr b n off) (copy n off (data_of b)) b
unfolding copy_rest
copy_rest-Has gr b n off p q = (
  put gr b piece,
  rw (
    slice_last_lem off (data_of b) q,
    slice_to_lem n (drop (length (data_of b) - off) (data_of b)) fits,
  ),
  rw (copy-piece n off (data_of b) p q) (put-Has gr b piece),
)
  where
    piece : Bytes
    piece = take n (drop (length (data_of b) - off) (data_of b))

    fits : n ≤ length (drop (length (data_of b) - off) (data_of b))
    fits = omega (arith, length-drop (length (data_of b) - off) (data_of b))

-- A round of the loop: the last `off` bytes once more, after which the rest may be copied from `off`
-- back, or from twice as far.
abbrev round : Growth → Buffer → ℕ → Buffer
round gr b off = put gr b (drop (length (data_of b) - off) (data_of b))

module _ (gr : Growth) (b : Buffer) (n off : ℕ) (p : 0 < off) (q : off ≤ length (data_of b))
    (r : off < n) where
  round-Has : Has (copy off off (data_of b)) b (round gr b off)
  round-Has =
      rw
        (
          copy-piece off off (data_of b) (omega arith) q,
          take-all off (drop (length (data_of b) - off) (data_of b))
              (omega (arith, length-drop (length (data_of b) - off) (data_of b))),
        )
        (put-Has gr b (drop (length (data_of b) - off) (data_of b)))

  round-length : length (data_of (round gr b off)) ≡ length (data_of b) + off
  round-length = omega (arith, ap length round-Has.bytes, length-copy off off (data_of b))

  round-copy : copy (n - off) off (data_of (round gr b off)) ≡ copy n off (data_of b)
  round-copy = rw round-Has.bytes (sym (copy-add off (n - off) n off (data_of b) (omega arith)))

  round-double : copy (n - off) (2 * off) (data_of (round gr b off)) ≡ copy n off (data_of b)
  round-double =
      sym (
        copy-double (n - off) off (data_of (round gr b off)) p (omega (arith, round-length))
          repeats)
      ∙ round-copy
    where
      repeats : Repeats off off (data_of (round gr b off))
      repeats = rw round-Has.bytes (
          copy-Repeats off 0 off off (data_of b) p (omega arith) (omega arith)
            (λ i l. absurd (omega arith)))

  -- The rest of the loop, from a run of what follows the round.
  round-then :
      (run : Option Buffer) (off' : ℕ)
      → copy (n - off) off' (data_of (round gr b off)) ≡ copy n off (data_of b)
      → EndsIn run (copy (n - off) off' (data_of (round gr b off))) (round gr b off)
      → EndsIn run (copy n off (data_of b)) b
  round-then run off' same (b', e, k) = (b', e, Has-trans round-Has (rw same at k))

  round-loop :
      (fuel : ℕ)
      → EndsIn
          (copy_match fuel gr (round gr b off) (n - off) (2 * off))
          (copy (n - off) (2 * off) (data_of (round gr b off)))
          (round gr b off)
      → EndsIn
          (if leb (n - off) off
            then copy_rest gr (round gr b off) (n - off) off
            else copy_match fuel gr (round gr b off) (n - off) (2 * off))
          (copy n off (data_of b))
          b
  round-loop fuel rest = elim (Bool-cases (leb (n - off) off)) [
    | inl end ↦ rw end (
        round-then _ off round-copy (
          copy_rest-Has gr (round gr b off) (n - off) off (leb→le _ _ end)
            (omega (arith, round-length))))
    | inr more ↦ rw more (round-then _ (2 * off) round-double rest)
  ]

-- With fuel above the match length, the doubling loop ends, for an offset that is within the data, and
-- not 0 unless there is nothing to copy. It appends what the byte-by-byte copy appends.
pub copy_match-Has :
    (fuel : ℕ) (gr : Growth) (b : Buffer) (n off : ℕ)
    → n < fuel
    → (0 < off) ⊎ (n ≡ 0)
    → off ≤ length (data_of b)
    → EndsIn (copy_match fuel gr b n off) (copy n off (data_of b)) b
unfolding copy_match
copy_match-Has zero gr b n off f p q = absurd (omega arith)
copy_match-Has (suc fuel) gr b n off f p q = elim (Bool-cases (ltb off n)) [
  | inr small ↦ rw small (copy_rest-Has gr b n off (ground arith) q)
  | inl large ↦
      let less : off < n = ltb→lt off n large in
      let pos' : 0 < off = omega arith in
      rw (large, slice_last_lem off (data_of b) q)
        (round-loop gr b n off pos' q less fuel (
          copy_match-Has fuel gr (round gr b off) (n - off) (2 * off) (omega arith)
            (inl (omega arith)) (omega (arith, round-length gr b n off pos' q less))))
]

-- More text, in a buffer that has room for it.
pub Has-Holds :
    {text p : Bytes} {out : ℕ} {b b' : Buffer} (h : Holds text out b)
    → Has p b b'
    → length p ≤ b.buffer_size
    → length (data_of b) ≤ length p
    → Holds (h.gone ++ p) out b'
Has-Holds {text} {p} {b = b} {b' = b'} h k room more = record {
  gone = h.gone;
  whole = ap (λ t. h.gone ++ t) k.bytes;
  reads = omega (arith, h.reads, k.r);
  kept = omega (
    arith,
    ap length k.bytes,
    ap length h.whole,
    length-append h.gone p,
    length-append h.gone (data_of b),
    h.kept,
    k.window,
  );
  valid = record {
    read_in = omega (arith, ap length k.bytes, k.r, h.valid.read_in);
    in_cap = omega (arith, ap length k.bytes, k.in_cap);
    in_size = omega (arith, ap length k.bytes, k.size);
    window_in = omega (arith, k.window, k.size, h.valid.window_in);
  };
}
