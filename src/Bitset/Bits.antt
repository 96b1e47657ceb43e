-- ===== src/Bitset/Bits.antt =====
-- The bits of a word, and which numbers a bit set has.
use Prim.Native.Nat.{bit_or}
use native.Mathlib.Nat.{pow-suc}
use lz.Prelude.{
  ℕ, zero, suc, ◌-◌, ◌/◌, ◌%◌, ◌^◌, ◌≡◌, refl, ap, arith, Bool, false, ◌||◌, get_or, leb, ◌==◌,
  if◌then◌else◌,
}
use lz.Bits.{bit_or_step, bit_or-zero}
use lz.Bitset.{Bitset}

-- the bit `k` of a word
unfoldable pub bit : ℕ → ℕ → Bool
bit x zero = x % 2 == 1
bit x (suc k) = bit (x / 2) k

-- the word of the numbers from `64 * q` on
unfoldable pub word : Bitset → ℕ → ℕ
word b q = if leb b.off q then get_or b.words (q - b.off) 0 else 0

-- the numbers in the set
unfoldable pub member : Bitset → ℕ → Bool
member b i = bit (word b (i / 64)) (i % 64)

pub zero_bit : (k : ℕ) → bit 0 k ≡ false
unfolding bit
zero_bit zero = refl
zero_bit (suc k) = zero_bit k

pub bit-or : (m k x : ℕ) → bit (bit_or x (2 ^ m)) k ≡ ((k == m) || bit x k)
unfolding bit
bit-or zero zero x = let e : bit_or x 1 % 2 ≡ 1 = omega (arith, bit_or_step x 1) in rw e refl
bit-or zero (suc k) x =
    let half : bit_or x 1 / 2 ≡ x / 2 = omega (arith, bit_or_step x 1, bit_or-zero (x / 2)) in
    let apart : (suc k == 0) ≡ false = ground arith in rw (half, apart) refl
bit-or (suc m) zero x =
    let e : bit_or x (2 ^ suc m) % 2 ≡ x % 2 =
      omega (arith, bit_or_step x (2 ^ suc m), pow-suc 2 m) in
    let apart : (0 == suc m) ≡ false = ground arith in rw (e, apart) refl
bit-or (suc m) (suc k) x =
    let down : 2 ^ suc m / 2 ≡ 2 ^ m = omega (arith, pow-suc 2 m) in
    let half : bit_or x (2 ^ suc m) / 2 ≡ bit_or (x / 2) (2 ^ m) =
      omega (arith, bit_or_step x (2 ^ suc m), ap (bit_or (x / 2)) down, pow-suc 2 m) in
    let same : (suc k == suc m) ≡ (k == m) = ground arith in rw (half, same) (bit-or m k (x / 2))
