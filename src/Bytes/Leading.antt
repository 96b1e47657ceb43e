-- ===== src/Bytes/Leading.antt =====
-- The leading zeros of two words count the bytes that they have in common at the back.
use Prim.Native.Nat.{bit_xor}
use native.Mathlib.Nat.{pow-suc, mul_assoc, mul-le-mul_right, pow-le-pow_right}
use mathlib.Core.List.{reverse, reverse-cons}
use lz.Prelude.{
  ℕ, zero, suc, ◌+◌, ◌*◌, ◌/◌, ◌^◌, ◌≤◌, ◌<◌, ◌≡◌, ◌≢◌, refl, sym, ap, ◌∙◌, arith, inl, inr, [],
  ◌∷◌, ◌++◌, length, length-append, ap_at, Bool-cases, ◌==◌, leb,
}
use lz.Lz.{Bytes}
use lz.Bits.{bit_xor_self}
use lz.Bytes.{leading_zeros}
use lz.Bytes.Words.{xor_shift, xor-below, xor-apart}
use lz.Bytes.Prefix.{AreBytes, byte, prefix, little_endian}

-- the number with the bytes as its digits, the highest first
unfoldable pub big_endian : Bytes → ℕ
big_endian [] = 0
big_endian (a ∷ p) = big_endian p + a * 2 ^ (8 * length p)

pub pow_sum : (a b n : ℕ) → a + b ≡ n → 2 ^ n ≡ 2 ^ a * 2 ^ b
pow_sum a zero n h = ap_at (λ t. 2 ^ t) n a (omega arith) ∙ omega arith
pow_sum a (suc b) zero h = absurd (omega arith)
pow_sum a (suc b) (suc n) h =
    grind (arith, pow-suc 2 n, pow-suc 2 b, pow_sum a b n (omega (arith, h)))

pub pow_8 : (n : ℕ) → 2 ^ (8 * suc n) ≡ 2 ^ (8 * n) * 256
pow_8 n = pow_sum (8 * n) 8 (8 * suc n) (omega arith)

big_endian_snoc : (p : Bytes) (a : ℕ) → big_endian (p ++ a ∷ []) ≡ a + big_endian p * 2 ^ 8
unfolding big_endian
big_endian_snoc [] a = omega arith
big_endian_snoc (b ∷ p) a =
    let size : length (p ++ a ∷ []) ≡ suc (length p) = omega (arith, length-append p (a ∷ [])) in
    let wide : b * 2 ^ (8 * suc (length p)) ≡ b * 2 ^ (8 * length p) * 256 =
      ap (λ t. b * t) (pow_8 (length p)) ∙ sym (mul_assoc b (2 ^ (8 * length p)) 256) in
    rw size (omega (arith, wide, big_endian_snoc p a))

-- The bytes of a little-endian word, from the last.
pub little_endian-reverse : (p : Bytes) → little_endian p ≡ big_endian (reverse p)
unfolding little_endian big_endian
little_endian-reverse [] = refl
little_endian-reverse (a ∷ p) = omega (
  arith,
  ap big_endian (reverse-cons a p),
  big_endian_snoc (reverse p) a,
  little_endian-reverse p,
)

digit_bound : (a low top : ℕ) → a < 256 → low < top → low + a * top < top * 256
digit_bound a low top h g =
    let most : a * top ≤ 255 * top = mul-le-mul_right top (omega (arith, h)) in
    omega (arith, most, g)

big_endian-bound : (p : Bytes) → AreBytes p → big_endian p < 2 ^ (8 * length p)
unfolding big_endian
big_endian-bound [] h = omega arith
big_endian-bound (a ∷ p) (byte lt h) = omega (
  arith,
  pow_8 (length p),
  digit_bound a (big_endian p) (2 ^ (8 * length p)) lt (big_endian-bound p h),
)

-- The count is short of `k`, if one of the digits before the last `n` is set, else it is past them.
pub leading_short : (k n m x : ℕ) → k + n ≡ m → 2 ^ n ≤ x → x < 2 ^ m → leading_zeros m x < k
unfolding leading_zeros
leading_short zero n m x s h g = absurd (omega (arith, ap_at (λ t. 2 ^ t) m n (omega arith), g, h))
leading_short (suc k) n zero x s h g = absurd (omega arith)
leading_short (suc k) n (suc m) x s h g = elim (Bool-cases (leb (2 ^ m) x)) [
  | inl e ↦ rw e (omega arith)
  | inr e ↦ rw e (omega (arith, leading_short k n m x (omega arith) h (ground (arith, e))))
]

pub leading_past : (k n m x : ℕ) → k + n ≡ m → x < 2 ^ n → leading_zeros m x ≡ k + leading_zeros n x
unfolding leading_zeros
leading_past zero n m x s h = ap_at (λ t. leading_zeros t x) m n (omega arith) ∙ omega arith
leading_past (suc k) n zero x s h = absurd (omega arith)
leading_past (suc k) n (suc m) x s h = elim (Bool-cases (leb (2 ^ m) x)) [
  | inl e ↦
      let wide : 2 ^ n ≤ 2 ^ m = pow-le-pow_right (omega arith) (omega arith) in
      absurd (ground (arith, e, wide, h))
  | inr e ↦ rw e (omega (arith, leading_past k n m x (omega arith) h))
]

-- Of slices of the same length, from the last byte of a word
pub leading-prefix :
    (p q : Bytes)
    → AreBytes p
    → AreBytes q
    → length p ≡ length q
    → leading_zeros (8 * length q) (bit_xor (big_endian p) (big_endian q)) / 8 ≡ prefix p q
unfolding prefix big_endian leading_zeros
leading-prefix [] [] hp hq l = omega arith
leading-prefix [] (b ∷ q) hp hq l = absurd (omega arith)
leading-prefix (a ∷ p) [] hp hq l = absurd (omega arith)
leading-prefix (a ∷ p) (b ∷ q) (byte ha hp) (byte hb hq) l =
    let n = 8 * length q in
    let same : length p ≡ length q = omega arith in
    let low : big_endian p < 2 ^ n = rw (← same) (big_endian-bound p hp) in
    let z = bit_xor (big_endian p) (big_endian q) in
    let z_low : z < 2 ^ n = xor-below n (big_endian p) (big_endian q) low (big_endian-bound q hq) in
    let split : bit_xor (big_endian p + a * 2 ^ n) (big_endian q + b * 2 ^ n)
        ≡ z + bit_xor a b * 2 ^ n =
      xor_shift n (big_endian p) (big_endian q) a b low (big_endian-bound q hq) in
    elim (Bool-cases (a == b)) [
      | inl e ↦
          let equal : a ≡ b = ground arith in
          let first : z + bit_xor a b * 2 ^ n ≡ z = rw (equal, bit_xor_self b) (omega arith) in
          rw (e, same, split, first)
            (omega (
              arith,
              leading_past 8 n (8 * suc (length q)) z (omega arith) z_low,
              leading-prefix p q hp hq same,
            ))
      | inr e ↦
          let other : a ≢ b = ground arith in
          let some_bit : 1 ≤ bit_xor a b = omega (arith, xor-apart a b other) in
          let least : 1 * 2 ^ n ≤ bit_xor a b * 2 ^ n = mul-le-mul_right (2 ^ n) some_bit in
          let x = z + bit_xor a b * 2 ^ n in
          let most : x < 2 ^ (8 * suc (length q)) = omega (
            arith,
            pow_8 (length q),
            digit_bound (bit_xor a b) z (2 ^ n) (xor-below 8 a b ha hb) z_low,
          ) in
          let few =
            leading_short 8 n (8 * suc (length q)) x (omega arith) (omega (arith, least)) most in
          rw (e, same, split) (omega (arith, few))
    ]
