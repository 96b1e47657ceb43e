-- ===== src/Bitset/Masks.antt =====
-- The bits of a masked word, and the first and the last bit of a word.
use Prim.Native.Nat.{bit_and, bit_and-bitwise}
use native.Mathlib.Nat.{pow-suc, one-le-pow}
use lz.Prelude.{
  ℕ, zero, suc, ◌-◌, ◌/◌, ◌%◌, ◌^◌, ◌≤◌, ◌<◌, ◌≡◌, refl, ◌∙◌, arith, inl, inr, true, false, ◌&&◌,
  Option, none, some, ltb, leb, ◌==◌, Bool-cases, ap_at,
}
use lz.Bits.{bit_and_step}
use lz.Bytes.{leading_zeros, trailing_zeros}
use lz.Bitset.{first_bit, last_bit}
use lz.Bitset.Bits.{bit, zero_bit}

pub bit-and : (k x y : ℕ) → bit (bit_and x y) k ≡ (bit x k && bit y k)
unfolding bit
bit-and zero x y = ground (arith, bit_and_step x y)
bit-and (suc k) x y =
    let half : bit_and x y / 2 ≡ bit_and (x / 2) (y / 2) = omega (arith, bit_and_step x y) in
    rw half (bit-and k (x / 2) (y / 2))

pub bit_and-bound : (n a b : ℕ) → a < 2 ^ n → bit_and a b < 2 ^ n
bit_and-bound zero a b h =
    let z : a ≡ 0 = omega (arith, h) in rw z (omega (arith, bit_and-bitwise 0 b))
bit_and-bound (suc n) a b h = omega (
  arith,
  bit_and_step a b,
  pow-suc 2 n,
  bit_and-bound n (a / 2) (b / 2) (omega (arith, h, pow-suc 2 n)),
)

two_pow : (m : ℕ) → 1 ≤ 2 ^ m
two_pow m = one-le-pow m 2 (omega arith)

pub low_mask : (m k : ℕ) → bit (2 ^ m - 1) k ≡ ltb k m
unfolding bit
low_mask zero k = zero_bit k ∙ ground arith
low_mask (suc m) zero = ground (arith, pow-suc 2 m, two_pow m)
low_mask (suc m) (suc k) =
    let half : (2 ^ suc m - 1) / 2 ≡ 2 ^ m - 1 = omega (arith, pow-suc 2 m, two_pow m) in
    rw half (low_mask m k ∙ ground arith)

pub high_mask : (n m k : ℕ) → m ≤ n → k < n → bit (2 ^ n - 2 ^ m) k ≡ leb m k
unfolding bit
high_mask n zero k h g = low_mask n k ∙ ground arith
high_mask zero (suc m) k h g = absurd (omega arith)
high_mask (suc n) (suc m) zero h g = ground (arith, pow-suc 2 m, pow-suc 2 n)
high_mask (suc n) (suc m) (suc k) h g =
    let half : (2 ^ suc n - 2 ^ suc m) / 2 ≡ 2 ^ n - 2 ^ m =
      omega (arith, pow-suc 2 m, pow-suc 2 n) in
    rw half (high_mask n m k (omega arith) (omega arith) ∙ ground arith)

bit_above : (n k x : ℕ) → x < 2 ^ n → n ≤ k → bit x k ≡ false
unfolding bit
bit_above zero k x h g = let z : x ≡ 0 = omega (arith, h) in rw z (zero_bit k)
bit_above (suc n) zero x h g = absurd (omega arith)
bit_above (suc n) (suc k) x h g =
    bit_above n k (x / 2) (omega (arith, pow-suc 2 n, h)) (omega arith)

bit_top : (n x : ℕ) → 2 ^ n ≤ x → x < 2 ^ suc n → bit x n ≡ true
unfolding bit
bit_top zero x h g = ground (arith, h, g, pow-suc 2 0)
bit_top (suc n) x h g =
    bit_top n (x / 2) (omega (arith, h, pow-suc 2 n)) (omega (arith, g, pow-suc 2 (suc n)))

-- The last bit that is set, if any
pub data LastBit (x : ℕ) : Option ℕ → Type 0 where
  no_last : ((k : ℕ) → bit x k ≡ false) → LastBit x none
  last_at :
      {j : ℕ} → j < 64 → bit x j ≡ true → ((k : ℕ) → j < k → bit x k ≡ false) → LastBit x (some j)

record Leading (n x : ℕ) : Type 0 where
  most : leading_zeros n x ≤ n
  set_there : leading_zeros n x < n → bit x (n - 1 - leading_zeros n x) ≡ true
  clear : (k : ℕ) → n - leading_zeros n x ≤ k → bit x k ≡ false

leading_lem : (n x : ℕ) → x < 2 ^ n → Leading n x
unfolding leading_zeros
leading_lem zero x h = record {
  most = omega arith;
  set_there = λ l. absurd (omega arith);
  clear = λ k l. bit_above 0 k x h (omega arith);
}
leading_lem (suc n) x h = elim (Bool-cases (leb (2 ^ n) x)) [
  | inl e ↦
      let none_before : leading_zeros (suc n) x ≡ 0 = rw (e, leading_zeros) refl in
      record {
        most = omega (arith, none_before);
        set_there = λ l.
            ap_at (bit x) (suc n - 1 - leading_zeros (suc n) x) n (omega (arith, none_before))
            ∙ bit_top n x (ground (arith, e)) h;
        clear = λ k l. bit_above (suc n) k x h (omega (arith, none_before));
      }
  | inr e ↦
      let rest = leading_lem n x (ground (arith, e)) in
      let one_more : leading_zeros (suc n) x ≡ suc (leading_zeros n x) =
        rw (e, leading_zeros) refl in
      record {
        most = omega (arith, one_more, rest.most);
        set_there = λ l.
            ap_at (bit x) (suc n - 1 - leading_zeros (suc n) x) (n - 1 - leading_zeros n x)
              (omega (arith, one_more))
            ∙ rest.set_there (omega (arith, one_more, l));
        clear = λ k l. rest.clear k (omega (arith, one_more, l));
      }
]

-- The first bit that is set, if any
pub data FirstBit (x : ℕ) : Option ℕ → Type 0 where
  no_first : ((k : ℕ) → k < 64 → bit x k ≡ false) → FirstBit x none
  first_at :
      {j : ℕ} → j < 64 → bit x j ≡ true → ((k : ℕ) → k < j → bit x k ≡ false) → FirstBit x (some j)

trailing_clear : (n x k : ℕ) → k < trailing_zeros n x → bit x k ≡ false
unfolding trailing_zeros bit
trailing_clear zero x k h = absurd (omega arith)
trailing_clear (suc n) x k h = elim (Bool-cases (x % 2 == 1)) [
  | inl e ↦ absurd (ground (arith, e, h))
  | inr e ↦ trailing_next n x k e (ground (arith, e, h)) (λ k' h'. trailing_clear n (x / 2) k' h')
]
  where
    trailing_next :
        (n x k : ℕ)
        → (x % 2 == 1) ≡ false
        → k < suc (trailing_zeros n (x / 2))
        → ((k' : ℕ) → k' < trailing_zeros n (x / 2) → bit (x / 2) k' ≡ false)
        → bit x k ≡ false
    trailing_next n x zero e h rest = e
    trailing_next n x (suc k) e h rest = rest k (omega (arith, h))

trailing_set : (n x : ℕ) → trailing_zeros n x < n → bit x (trailing_zeros n x) ≡ true
unfolding trailing_zeros bit
trailing_set zero x h = absurd (omega arith)
trailing_set (suc n) x h = elim (Bool-cases (x % 2 == 1)) [
  | inl e ↦ rw (e, trailing_zeros) e
  | inr e ↦ rw (e, trailing_zeros) (trailing_set n (x / 2) (ground (arith, e, h)))
]

pub first_bit_lem : (x : ℕ) → FirstBit x (first_bit x)
unfolding first_bit
first_bit_lem x = elim (Bool-cases (ltb (trailing_zeros 64 x) 64)) [
  | inl e ↦ rw e (
      first_at (ground (arith, e)) (trailing_set 64 x (ground (arith, e)))
        (λ k h. trailing_clear 64 x k h))
  | inr e ↦ rw e (no_first (λ k h. trailing_clear 64 x k (ground (arith, e, h))))
]

pub last_bit_lem : (x : ℕ) → x < 2 ^ 64 → LastBit x (last_bit x)
unfolding last_bit
last_bit_lem x small =
    let l = leading_lem 64 x small in
    elim (Bool-cases (ltb (leading_zeros 64 x) 64)) [
      | inl e ↦ rw e (
          last_at (omega arith) (l.set_there (ground (arith, e)))
            (λ k h. l.clear k (ground (arith, e, h))))
      | inr e ↦ rw e (no_last (λ k. l.clear k (ground (arith, e))))
    ]
