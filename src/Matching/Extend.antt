-- ===== src/Matching/Extend.antt =====
-- The match that `Parse` finds is a repetition of the text.
use Prim.Native.Nat.{bit_xor, min}
use lz.Prelude.{
  ℕ, zero, suc, ◌+◌, ◌/◌, ◌≤◌, ◌<◌, ◌≡◌, refl, ap, ◌∙◌, arith, inl, inr, some, [], ◌∷◌, length,
  take, drop, length-drop, length-take, Bool-cases, ◌==◌, ltb, leb, false, if◌then◌else◌, take-all,
}
use lz.Lz.{Bytes}
use lz.Slices.Laws.{slice_from_lem}
use lz.Bytes.{trailing_zeros}
use lz.Bytes.Prefix.{
  AreBytes, prefix, prefix-bound, little_endian, take-AreBytes, drop-AreBytes, zeros-prefix,
}
use lz.Bytes.Lcp.{word_any, word_64, count, round}
use lz.Matching.{extend}

prefix-take : (n : ℕ) (p q : Bytes) → length q ≤ n → prefix (take n p) q ≡ prefix p q
unfolding prefix
prefix-take n [] q h = ap (λ t. prefix t q) (take-all n [] (omega arith))
prefix-take zero (a ∷ p) [] h = refl
prefix-take (suc n) (a ∷ p) [] h = refl
prefix-take zero (a ∷ p) (b ∷ q) h = absurd (omega arith)
prefix-take (suc n) (a ∷ p) (b ∷ q) h = elim (Bool-cases (a == b)) [
  | inl e ↦ rw e (ap suc (prefix-take n p q (omega arith)))
  | inr e ↦ rw e refl
]

clip : (n b : ℕ) → (if ltb n b then n else b) ≡ min n b
clip n b = ground arith

tail_count :
    (r q : Bytes)
    → AreBytes r
    → AreBytes q
    → length q ≤ length r
    → length q < 8
    → (let b = trailing_zeros 64 (bit_xor (little_endian (take 8 r)) (little_endian q)) / 8 in
        if ltb (length q) b then length q else b)
      ≡ prefix r q
tail_count r q hr hq h short =
    clip (length q) (trailing_zeros 64 (bit_xor (little_endian (take 8 r)) (little_endian q)) / 8)
    ∙ zeros-prefix 8 (take 8 r) q (take-AreBytes 8 r hr) hq (omega (arith, length-take 8 r))
        (omega arith)
    ∙ prefix-take 8 r q (omega arith)

-- The extension of a match counts the bytes in common.
pub extend_lem :
    (fuel : ℕ) (r q : Bytes) (k : ℕ)
    → AreBytes r
    → AreBytes q
    → length q ≤ length r
    → length q < fuel
    → extend fuel r q k ≡ some (k + prefix r q)
unfolding extend
extend_lem zero r q k hr hq h g = absurd (omega arith)
extend_lem (suc fuel) r q k hr hq h g = elim (Bool-cases (leb 8 (length q))) [
  | inl e ↦
      let lq : 8 ≤ length q = ground (arith, e) in
      let lr : 8 ≤ length r = omega (arith, lq, h) in
      rw (e, word_64 r hr lr, word_64 q hq lq)
        (round 8 r q hr hq lr lq k _ (
          rw (slice_from_lem 8 r lr, slice_from_lem 8 q lq)
            (extend_lem fuel (drop 8 r) (drop 8 q) (k + count 8 r q hr hq lr lq)
              (drop-AreBytes 8 r hr) (drop-AreBytes 8 q hq)
              (omega (arith, length-drop 8 r, length-drop 8 q))
              (omega (arith, length-drop 8 q, lq, g)))))
  | inr e ↦ elim (Bool-cases (ltb 0 (length q))) [
    | inr z ↦ rw (e, z) (ap some (omega (arith, prefix-bound r q, ne z)))
    | inl z ↦
        let short : length q < 8 = ground (arith, e) in
        rw (e, z, word_any r hr, word_any q hq, take-all 8 q (omega arith))
          (ap some (omega (arith, tail_count r q hr hq h short)))
  ]
]
  where
    ne : ltb 0 (length q) ≡ false → length q ≡ 0
    ne z = ground arith
