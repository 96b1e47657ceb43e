-- ===== src/Bytes/Prefix.antt =====
-- The bytes that two slices have in common at the front, and the words of bytes.go as numbers.
use Prim.Native.Nat.{bit_xor, min}
use lz.Prelude.{
  ℕ, zero, suc, ◌+◌, ◌*◌, ◌/◌, ◌%◌, ◌^◌, ◌≤◌, ◌<◌, ◌≡◌, ◌≢◌, refl, ap, arith, inl, inr, [], ◌∷◌,
  length, take, drop, get_or, suc, Bool-cases, ◌==◌, true, false, if◌then◌else◌,
}
use lz.Lz.{Bytes}
use lz.Bits.{bit_xor_self}
use lz.Bytes.{trailing_zeros}
use lz.Bytes.Words.{xor_shift, xor-below, xor-apart, zeros-front, zeros-shift}

-- A Go byte is below 256.
pub data AreBytes : Bytes → Type 0 where
  none_left : AreBytes []
  byte : {a : ℕ} {p : Bytes} → a < 256 → AreBytes p → AreBytes (a ∷ p)

unfoldable pub prefix : Bytes → Bytes → ℕ
prefix [] q = 0
prefix (a ∷ p) [] = 0
prefix (a ∷ p) (b ∷ q) = let rest = prefix p q in if a == b then suc rest else 0

-- the number with the bytes as its digits, the lowest first
unfoldable pub little_endian : Bytes → ℕ
little_endian [] = 0
little_endian (a ∷ p) = a + little_endian p * 2 ^ 8

pub take-AreBytes : (n : ℕ) (p : Bytes) → AreBytes p → AreBytes (take n p)
take-AreBytes zero p h = none_left
take-AreBytes (suc n) [] h = none_left
take-AreBytes (suc n) (a ∷ p) (byte lt h) = byte lt (take-AreBytes n p h)

pub drop-AreBytes : (n : ℕ) (p : Bytes) → AreBytes p → AreBytes (drop n p)
drop-AreBytes zero p h = h
drop-AreBytes (suc n) [] h = none_left
drop-AreBytes (suc n) (a ∷ p) (byte lt h) = drop-AreBytes n p h

-- Up to the end of `q`, the trailing zeros of `^` count the bytes in common.
pub zeros-prefix :
    (m : ℕ) (p q : Bytes)
    → AreBytes p
    → AreBytes q
    → length q ≤ length p
    → length q ≤ m
    → min (length q) (trailing_zeros (8 * m) (bit_xor (little_endian p) (little_endian q)) / 8)
      ≡ prefix p q
unfolding prefix little_endian
zeros-prefix m [] [] hp hq h g = omega arith
zeros-prefix m [] (b ∷ q) hp hq h g = absurd (omega arith)
zeros-prefix m (a ∷ p) [] hp hq h g = omega arith
zeros-prefix zero (a ∷ p) (b ∷ q) hp hq h g = absurd (omega arith)
zeros-prefix (suc m) (a ∷ p) (b ∷ q) (byte ha hp) (byte hb hq) h g =
    let split = xor_shift 8 a b (little_endian p) (little_endian q) ha hb in
    elim (Bool-cases (a == b)) [
      | inl e ↦
          let same : a ≡ b = ground arith in
          let z = bit_xor (little_endian p) (little_endian q) in
          let first : bit_xor a b + z * 2 ^ 8 ≡ z * 2 ^ 8 =
            omega (arith, ap (λ t. bit_xor t b) same, bit_xor_self b) in
          let count : trailing_zeros (8 * suc m) (z * 2 ^ 8) ≡ 8 + trailing_zeros (8 * m) z =
            zeros-shift 8 (8 * m) (8 * suc m) z (omega arith) in
          rw (e, split, first, count)
            (omega (arith, zeros-prefix m p q hp hq (omega arith) (omega arith)))
      | inr e ↦
          let other : a ≢ b = ground arith in
          let few =
            zeros-front 8 (8 * suc m) (bit_xor a b) (bit_xor (little_endian p) (little_endian q))
              (omega (arith, xor-apart a b other)) (xor-below 8 a b ha hb) in
          rw (e, split) (omega (arith, few))
    ]

-- If two front parts differ, they tell; if they agree, the rest counts on.
pub prefix_short :
    (n : ℕ) (p q : Bytes)
    → n ≤ length p
    → n ≤ length q
    → prefix (take n p) (take n q) < n
    → prefix p q ≡ prefix (take n p) (take n q)
unfolding prefix
prefix_short zero p q h g lt = absurd (omega arith)
prefix_short (suc n) [] q h g lt = absurd (omega arith)
prefix_short (suc n) (a ∷ p) [] h g lt = absurd (omega arith)
prefix_short (suc n) (a ∷ p) (b ∷ q) h g lt = elim (Bool-cases (a == b)) [
  | inl e ↦
      let shorter : prefix (take n p) (take n q) < n = ground (arith, lt, e) in
      rw e (ap suc (prefix_short n p q (omega arith) (omega arith) shorter))
  | inr e ↦ rw e refl
]

pub prefix_full :
    (n : ℕ) (p q : Bytes)
    → prefix (take n p) (take n q) ≡ n
    → prefix p q ≡ n + prefix (drop n p) (drop n q)
unfolding prefix
prefix_full zero p q h = omega arith
prefix_full (suc n) [] q h = absurd (omega arith)
prefix_full (suc n) (a ∷ p) [] h = absurd (omega arith)
prefix_full (suc n) (a ∷ p) (b ∷ q) h = elim (Bool-cases (a == b)) [
  | inl e ↦
      let rest : prefix (take n p) (take n q) ≡ n = ground (arith, h, e) in
      rw e (omega (arith, prefix_full n p q rest))
  | inr e ↦ absurd (ground (arith, h, e))
]

pub prefix_comm : (p q : Bytes) → prefix p q ≡ prefix q p
unfolding prefix
prefix_comm [] [] = refl
prefix_comm [] (b ∷ q) = refl
prefix_comm (a ∷ p) [] = refl
prefix_comm (a ∷ p) (b ∷ q) = elim (Bool-cases (a == b)) [
  | inl e ↦ let e' : (b == a) ≡ true = ground (arith, e) in rw (e, e') (ap suc (prefix_comm p q))
  | inr e ↦ let e' : (b == a) ≡ false = ground (arith, e) in rw (e, e') refl
]

pub trailing_zeros-bound : (m x : ℕ) → trailing_zeros m x ≤ m
unfolding trailing_zeros
trailing_zeros-bound zero x = omega arith
trailing_zeros-bound (suc m) x = elim (Bool-cases (x % 2 == 1)) [
  | inl e ↦ rw e (omega arith)
  | inr e ↦ rw e (omega (arith, trailing_zeros-bound m (x / 2)))
]

pub prefix-bytes : (p q : Bytes) (m : ℕ) → m < prefix p q → get_or p m 0 ≡ get_or q m 0
unfolding prefix
prefix-bytes [] q m h = absurd (omega arith)
prefix-bytes (a ∷ p) [] m h = absurd (omega arith)
prefix-bytes (a ∷ p) (b ∷ q) zero h = elim (Bool-cases (a == b)) [
  | inl e ↦ ground (arith, e)
  | inr e ↦ absurd (ground (arith, e, h))
]
prefix-bytes (a ∷ p) (b ∷ q) (suc m) h = elim (Bool-cases (a == b)) [
  | inl e ↦ prefix-bytes p q m (ground (arith, e, h))
  | inr e ↦ absurd (ground (arith, e, h))
]

pub prefix-bound : (p q : Bytes) → prefix p q ≤ length q
unfolding prefix
prefix-bound [] q = omega arith
prefix-bound (a ∷ p) [] = omega arith
prefix-bound (a ∷ p) (b ∷ q) = elim (Bool-cases (a == b)) [
  | inl e ↦ rw e (omega (arith, prefix-bound p q))
  | inr e ↦ rw e (omega arith)
]
