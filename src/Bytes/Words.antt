-- ===== src/Bytes/Words.antt =====
-- Words as little-endian numbers, and what `^` and the count of trailing zeros make of two of them.
use Prim.Native.Nat.{bit_or, bit_xor, max}
use native.Mathlib.Nat.{pow-suc}
use lz.Prelude.{
  ℕ, zero, suc, ◌+◌, ◌*◌, ◌/◌, ◌%◌, ◌^◌, ◌≤◌, ◌<◌, ◌≡◌, ◌≢◌, refl, ap, ◌∙◌, arith, inl, inr,
  Bool-cases, ◌==◌, false,
}
use lz.Bytes.{trailing_zeros}
use lz.Bits.{bit_or_step, bit_xor_step}

bit_or_zero_below : (n x : ℕ) → x ≤ n → bit_or 0 x ≡ x
bit_or_zero_below n zero h = refl
bit_or_zero_below zero (suc x) h = absurd (omega arith)
bit_or_zero_below (suc n) (suc x) h =
    omega (arith, bit_or_step 0 (suc x), bit_or_zero_below n (suc x / 2) (omega arith))

bit_xor_zero_below : (n x : ℕ) → x ≤ n → bit_xor 0 x ≡ x
bit_xor_zero_below n zero h = refl
bit_xor_zero_below zero (suc x) h = absurd (omega arith)
bit_xor_zero_below (suc n) (suc x) h =
    omega (arith, bit_xor_step 0 (suc x), bit_xor_zero_below n (suc x / 2) (omega arith))

bit_xor_zero : (x : ℕ) → bit_xor 0 x ≡ x
bit_xor_zero x = bit_xor_zero_below x x (omega arith)

half_shift : (k b : ℕ) → b * 2 ^ suc k ≡ 2 * (b * 2 ^ k)
half_shift k b = grind (arith, pow-suc 2 k)

-- A number below 2 ^ k has no digit in common with a multiple of 2 ^ k.
pub bit_or_shift : (k a b : ℕ) → a < 2 ^ k → bit_or a (b * 2 ^ k) ≡ a + b * 2 ^ k
bit_or_shift zero a b h =
    let nothing : a ≡ 0 = omega arith in
    rw nothing (omega (arith, bit_or_zero_below (b * 1) (b * 1) (omega arith)))
bit_or_shift (suc k) a b h =
    let low : a / 2 < 2 ^ k = omega (arith, pow-suc 2 k) in
    let twice = half_shift k b in
    let half : b * 2 ^ suc k / 2 ≡ b * 2 ^ k = omega (arith, twice) in
    let up =
      bit_or_step a (b * 2 ^ suc k)
      ∙ ap (λ t. bit_or (a / 2) t * 2 + max (a % 2) (b * 2 ^ suc k % 2)) half in
    omega (arith, up, twice, bit_or_shift k (a / 2) b low)

pub xor_shift :
    (k a b x y : ℕ)
    → a < 2 ^ k
    → b < 2 ^ k
    → bit_xor (a + x * 2 ^ k) (b + y * 2 ^ k) ≡ bit_xor a b + bit_xor x y * 2 ^ k
xor_shift zero a b x y h g =
    let p : a ≡ 0 = omega arith in
    let q : b ≡ 0 = omega arith in
    let x_same : 0 + x * 1 ≡ x = omega arith in
    let y_same : 0 + y * 1 ≡ y = omega arith in rw (p, q, x_same, y_same) (omega arith)
xor_shift (suc k) a b x y h g =
    let low : a / 2 < 2 ^ k = omega (arith, pow-suc 2 k) in
    let low' : b / 2 < 2 ^ k = omega (arith, pow-suc 2 k) in
    let half : (a + x * 2 ^ suc k) / 2 ≡ a / 2 + x * 2 ^ k = omega (arith, half_shift k x) in
    let half' : (b + y * 2 ^ suc k) / 2 ≡ b / 2 + y * 2 ^ k = omega (arith, half_shift k y) in
    let up : bit_xor (a + x * 2 ^ suc k) (b + y * 2 ^ suc k)
        ≡ bit_xor (a / 2 + x * 2 ^ k) (b / 2 + y * 2 ^ k) * 2
          + (a + x * 2 ^ suc k + (b + y * 2 ^ suc k)) % 2 =
      rw (← half, ← half') (bit_xor_step (a + x * 2 ^ suc k) (b + y * 2 ^ suc k)) in
    omega (
      arith,
      up,
      half_shift k x,
      half_shift k y,
      half_shift k (bit_xor x y),
      bit_xor_step a b,
      xor_shift k (a / 2) (b / 2) x y low low',
    )

pub xor-below : (k a b : ℕ) → a < 2 ^ k → b < 2 ^ k → bit_xor a b < 2 ^ k
xor-below zero a b h g =
    let p : a ≡ 0 = omega arith in let q : b ≡ 0 = omega arith in rw (p, q) (omega arith)
xor-below (suc k) a b h g = omega (
  arith,
  bit_xor_step a b,
  pow-suc 2 k,
  xor-below k (a / 2) (b / 2) (omega (arith, pow-suc 2 k)) (omega (arith, pow-suc 2 k)),
)

xor-apart_below : (n a b : ℕ) → a ≤ n → bit_xor a b ≡ 0 → a ≡ b
xor-apart_below n zero zero h e = refl
xor-apart_below zero (suc a) b h e = absurd (omega arith)
xor-apart_below n zero (suc b) h e = omega (arith, e, bit_xor_zero (suc b))
xor-apart_below (suc n) (suc a) b h e = omega (
  arith,
  bit_xor_step (suc a) b,
  xor-apart_below n (suc a / 2) (b / 2) (omega arith) (omega (arith, bit_xor_step (suc a) b, e)),
)

pub xor-apart : (a b : ℕ) → a ≢ b → bit_xor a b ≢ 0
xor-apart a b ne e = ne (xor-apart_below a a b (omega arith) e)

-- The count of trailing zeros of a number, digit by digit, over `n` digits at most.
pub zeros-front : (k m a z : ℕ) → 0 < a → a < 2 ^ k → trailing_zeros m (a + z * 2 ^ k) < k
unfolding trailing_zeros
zeros-front zero m a z p h = absurd (omega arith)
zeros-front (suc k) zero a z p h = omega arith
zeros-front (suc k) (suc m) a z p h = elim (Bool-cases ((a + z * 2 ^ suc k) % 2 == 1)) [
  | inl odd ↦ rw odd (omega arith)
  | inr even ↦
      let half : (a + z * 2 ^ suc k) / 2 ≡ a / 2 + z * 2 ^ k = omega (arith, half_shift k z) in
      let bit : (a + z * 2 ^ suc k) % 2 ≢ 1 = ground arith in
      rw (even, half)
        (omega (
          arith,
          zeros-front k m (a / 2) z (omega (arith, half_shift k z, bit))
              (omega (arith, pow-suc 2 k)),
        ))
]

pub zeros-shift : (k n m z : ℕ) → k + n ≡ m → trailing_zeros m (z * 2 ^ k) ≡ k + trailing_zeros n z
unfolding trailing_zeros
zeros-shift zero n m z h =
    let same : z * 1 ≡ z = omega arith in
    let count : m ≡ n = omega arith in rw (same, count) (omega arith)
zeros-shift (suc k) n zero z h = absurd (omega arith)
zeros-shift (suc k) n (suc m) z h =
    let even : (z * 2 ^ suc k % 2 == 1) ≡ false = ground (arith, half_shift k z) in
    let half : z * 2 ^ suc k / 2 ≡ z * 2 ^ k = omega (arith, half_shift k z) in
    rw (even, half) (omega (arith, zeros-shift k n m z (omega arith)))
