-- ===== src/Bytes/Lcp.antt =====
-- `lcp` of bytes.go compares words; it counts the bytes that two slices have in common at the front.
use Prim.Native.Nat.{bit_xor}
use lz.Prelude.{
  ℕ, zero, suc, ◌+◌, ◌*◌, ◌/◌, ◌^◌, ◌≤◌, ◌<◌, ◌≡◌, refl, ap, ◌∙◌, arith, inl, inr, Option, some, [],
  ◌∷◌, length, take, drop, length-drop, length-take, Bool-cases, ◌==◌, ltb, leb, if◌then◌else◌,
}
use lz.Lz.{Bytes}
use lz.Slices.Laws.{slice_from_lem}
use lz.Bytes.{
  get_le64, get_le64_fast, get_le32_fast, trailing_zeros, lcp_tail, lcp_half, lcp_loop, lcp,
}
use lz.Bytes.Words.{bit_or_shift}
use lz.Bytes.Prefix.{
  AreBytes, byte, prefix, little_endian, take-AreBytes, drop-AreBytes, zeros-prefix, prefix_short,
  prefix_full, prefix_comm, trailing_zeros-bound,
}

pub word_32 :
    (p : Bytes) → AreBytes p → 4 ≤ length p → get_le32_fast p ≡ some (little_endian (take 4 p))
unfolding get_le32_fast little_endian
word_32 (a ∷ b ∷ c ∷ d ∷ p) (byte ha (byte hb (byte hc (byte hd _)))) h =
    rw
      (
        bit_or_shift 8 a b ha,
        bit_or_shift 16 (a + b * 2 ^ 8) c (omega arith),
        bit_or_shift 24 (a + b * 2 ^ 8 + c * 2 ^ 16) d (omega arith),
      )
      (ap some (omega arith))
word_32 [] h g = absurd (omega arith)
word_32 (a ∷ []) h g = absurd (omega arith)
word_32 (a ∷ b ∷ []) h g = absurd (omega arith)
word_32 (a ∷ b ∷ c ∷ []) h g = absurd (omega arith)

pub word_64 :
    (p : Bytes) → AreBytes p → 8 ≤ length p → get_le64_fast p ≡ some (little_endian (take 8 p))
unfolding get_le64_fast little_endian
word_64 (a ∷ b ∷ c ∷ d ∷ e ∷ f ∷ g ∷ h ∷ p)
      (byte ha (byte hb (byte hc (byte hd (byte he (byte hf (byte hg (byte hh _)))))))) _ =
    let low = a + b * 2 ^ 8 + c * 2 ^ 16 + d * 2 ^ 24 in
    rw
      (
        bit_or_shift 8 a b ha,
        bit_or_shift 16 (a + b * 2 ^ 8) c (omega arith),
        bit_or_shift 24 (a + b * 2 ^ 8 + c * 2 ^ 16) d (omega arith),
        bit_or_shift 32 low e (omega arith),
        bit_or_shift 40 (low + e * 2 ^ 32) f (omega arith),
        bit_or_shift 48 (low + e * 2 ^ 32 + f * 2 ^ 40) g (omega arith),
        bit_or_shift 56 (low + e * 2 ^ 32 + f * 2 ^ 40 + g * 2 ^ 48) h (omega arith),
      )
      (ap some (omega arith))
word_64 [] h g = absurd (omega arith)
word_64 (_ ∷ []) h g = absurd (omega arith)
word_64 (_ ∷ _ ∷ []) h g = absurd (omega arith)
word_64 (_ ∷ _ ∷ _ ∷ []) h g = absurd (omega arith)
word_64 (_ ∷ _ ∷ _ ∷ _ ∷ []) h g = absurd (omega arith)
word_64 (_ ∷ _ ∷ _ ∷ _ ∷ _ ∷ []) h g = absurd (omega arith)
word_64 (_ ∷ _ ∷ _ ∷ _ ∷ _ ∷ _ ∷ []) h g = absurd (omega arith)
word_64 (_ ∷ _ ∷ _ ∷ _ ∷ _ ∷ _ ∷ _ ∷ []) h g = absurd (omega arith)

pub word_any : (p : Bytes) → AreBytes p → get_le64 p ≡ some (little_endian (take 8 p))
unfolding get_le64 get_le32_fast little_endian
word_any [] _ = refl
word_any (a ∷ []) _ = ap some (omega arith)
word_any (a ∷ b ∷ []) (byte ha (byte hb _)) = rw (bit_or_shift 8 a b ha) (ap some (omega arith))
word_any (a ∷ b ∷ c ∷ []) (byte ha (byte hb (byte hc _))) =
    rw (bit_or_shift 8 a b ha, bit_or_shift 16 (a + b * 2 ^ 8) c (omega arith))
      (ap some (omega arith))
word_any (a ∷ b ∷ c ∷ d ∷ []) (byte ha (byte hb (byte hc (byte hd _)))) =
    rw
      (
        bit_or_shift 8 a b ha,
        bit_or_shift 16 (a + b * 2 ^ 8) c (omega arith),
        bit_or_shift 24 (a + b * 2 ^ 8 + c * 2 ^ 16) d (omega arith),
      )
      (ap some (omega arith))
word_any (a ∷ b ∷ c ∷ d ∷ e ∷ []) (byte ha (byte hb (byte hc (byte hd (byte he _))))) =
    rw
      (
        bit_or_shift 8 a b ha,
        bit_or_shift 16 (a + b * 2 ^ 8) c (omega arith),
        bit_or_shift 24 (a + b * 2 ^ 8 + c * 2 ^ 16) d (omega arith),
        bit_or_shift 32 (a + b * 2 ^ 8 + c * 2 ^ 16 + d * 2 ^ 24) e (omega arith),
      )
      (ap some (omega arith))
word_any (a ∷ b ∷ c ∷ d ∷ e ∷ f ∷ [])
      (byte ha (byte hb (byte hc (byte hd (byte he (byte hf _)))))) =
    rw
      (
        bit_or_shift 8 a b ha,
        bit_or_shift 16 (a + b * 2 ^ 8) c (omega arith),
        bit_or_shift 24 (a + b * 2 ^ 8 + c * 2 ^ 16) d (omega arith),
        bit_or_shift 32 (a + b * 2 ^ 8 + c * 2 ^ 16 + d * 2 ^ 24) e (omega arith),
        bit_or_shift 40 (a + b * 2 ^ 8 + c * 2 ^ 16 + d * 2 ^ 24 + e * 2 ^ 32) f (omega arith),
      )
      (ap some (omega arith))
word_any (a ∷ b ∷ c ∷ d ∷ e ∷ f ∷ g ∷ [])
      (byte ha (byte hb (byte hc (byte hd (byte he (byte hf (byte hg _))))))) =
    rw
      (
        bit_or_shift 8 a b ha,
        bit_or_shift 16 (a + b * 2 ^ 8) c (omega arith),
        bit_or_shift 24 (a + b * 2 ^ 8 + c * 2 ^ 16) d (omega arith),
        bit_or_shift 32 (a + b * 2 ^ 8 + c * 2 ^ 16 + d * 2 ^ 24) e (omega arith),
        bit_or_shift 40 (a + b * 2 ^ 8 + c * 2 ^ 16 + d * 2 ^ 24 + e * 2 ^ 32) f (omega arith),
        bit_or_shift 48 (a + b * 2 ^ 8 + c * 2 ^ 16 + d * 2 ^ 24 + e * 2 ^ 32 + f * 2 ^ 40) g
            (omega arith),
      )
      (ap some (omega arith))
word_any (a ∷ b ∷ c ∷ d ∷ e ∷ f ∷ g ∷ h ∷ p) hp =
    word_64 (a ∷ b ∷ c ∷ d ∷ e ∷ f ∷ g ∷ h ∷ p) hp (omega arith)

-- The loop over the last bytes counts them.
tail_lem : (p q : Bytes) (n : ℕ) → length q ≤ length p → lcp_tail p q n ≡ some (n + prefix p q)
unfolding lcp_tail prefix
tail_lem [] [] n h = ap some (omega arith)
tail_lem (a ∷ p) [] n h = ap some (omega arith)
tail_lem [] (b ∷ q) n h = absurd (omega arith)
tail_lem (a ∷ p) (b ∷ q) n h = elim (Bool-cases (a == b)) [
  | inl e ↦ rw e (tail_lem p q (n + 1) (omega arith) ∙ ap some (omega arith))
  | inr e ↦ rw e (ap some (omega arith))
]

module _ (w : ℕ) (p q : Bytes) (hp : AreBytes p) (hq : AreBytes q) (lp : w ≤ length p)
    (lq : w ≤ length q) where
  -- the count that a round takes from two words of `w` bytes
  abbrev pub count : ℕ
  count = trailing_zeros (8 * w) (bit_xor (little_endian (take w p)) (little_endian (take w q))) / 8

  pub count-prefix : count ≡ prefix (take w p) (take w q)
  count-prefix = omega (
    arith,
    zeros-prefix w (take w p) (take w q) (take-AreBytes w p hp) (take-AreBytes w q hq)
        (omega (arith, length-take w p, length-take w q)) (omega (arith, length-take w q)),
    length-take w q,
    trailing_zeros-bound (8 * w) (bit_xor (little_endian (take w p)) (little_endian (take w q))),
  )

  -- One round: the count is the answer, or the slices go on behind the words.
  pub round :
      (n : ℕ) (more : Option ℕ)
      → more ≡ some (n + count + prefix (drop w p) (drop w q))
      → (if ltb count w then some (n + count) else more) ≡ some (n + prefix p q)
  round n more h = elim (Bool-cases (ltb count w)) [
    | inl e ↦
        let few : prefix (take w p) (take w q) < w = ground (arith, e, count-prefix) in
        rw e (ap some (omega (arith, count-prefix, prefix_short w p q lp lq few)))
    | inr e ↦
        let full : count ≡ w = ground (
          arith,
          e,
          trailing_zeros-bound (8 * w)
              (bit_xor (little_endian (take w p)) (little_endian (take w q))),
        ) in
        rw e
          (h ∙ ap some (omega (arith, full, prefix_full w p q (omega (arith, full, count-prefix)))))
  ]

half_lem :
    (p q : Bytes) (n : ℕ)
    → AreBytes p
    → AreBytes q
    → length q ≤ length p
    → lcp_half p q n ≡ some (n + prefix p q)
unfolding lcp_half
half_lem p q n hp hq h = elim (Bool-cases (leb 4 (length q))) [
  | inr e ↦ rw e (tail_lem p q n h)
  | inl e ↦
      let lq : 4 ≤ length q = ground (arith, e) in
      let lp : 4 ≤ length p = omega (arith, lq, h) in
      rw (e, word_32 p hp lp, word_32 q hq lq)
        (round 4 p q hp hq lp lq n _ (
          rw (slice_from_lem 4 q lq, slice_from_lem 4 p lp)
            (tail_lem (drop 4 p) (drop 4 q) (n + count 4 p q hp hq lp lq)
              (omega (arith, length-drop 4 p, length-drop 4 q)))))
]

loop_lem :
    (fuel : ℕ) (p q : Bytes) (n : ℕ)
    → AreBytes p
    → AreBytes q
    → length q ≤ length p
    → length q < fuel
    → lcp_loop fuel p q n ≡ some (n + prefix p q)
unfolding lcp_loop
loop_lem zero p q n hp hq h g = absurd (omega arith)
loop_lem (suc fuel) p q n hp hq h g = elim (Bool-cases (leb 8 (length q))) [
  | inr e ↦ rw e (half_lem p q n hp hq h)
  | inl e ↦
      let lq : 8 ≤ length q = ground (arith, e) in
      let lp : 8 ≤ length p = omega (arith, lq, h) in
      rw (e, word_64 p hp lp, word_64 q hq lq)
        (round 8 p q hp hq lp lq n _ (
          rw (slice_from_lem 8 q lq, slice_from_lem 8 p lp)
            (loop_lem fuel (drop 8 p) (drop 8 q) (n + count 8 p q hp hq lp lq)
              (drop-AreBytes 8 p hp) (drop-AreBytes 8 q hq)
              (omega (arith, length-drop 8 p, length-drop 8 q))
              (omega (arith, length-drop 8 q, lq, g)))))
]

-- For slices of bytes `lcp` ends without a panic, and gives the number of bytes that the two have in
-- common at the front.
pub lcp_lem : (p q : Bytes) → AreBytes p → AreBytes q → lcp p q ≡ some (prefix p q)
unfolding lcp
lcp_lem p q hp hq = elim (Bool-cases (ltb (length p) (length q))) [
  | inl e ↦ rw e (
      loop_lem (suc (length p)) q p 0 hq hp (ground (arith, e)) (omega arith)
      ∙ ap some (omega (arith, prefix_comm p q)))
  | inr e ↦ rw e (
      loop_lem (suc (length q)) p q 0 hp hq (ground (arith, e)) (omega arith)
      ∙ ap some (omega arith))
]
