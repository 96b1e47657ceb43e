-- ===== src/Bytes/Shift.antt =====
-- A word that is shifted up by whole bytes.
use native.Mathlib.Nat.{mul_assoc}
use lz.Prelude.{
  ℕ, zero, suc, ◌+◌, ◌*◌, ◌%◌, ◌^◌, ◌<◌, ◌≡◌, sym, ap, ◌∙◌, arith, [], ◌∷◌, ◌++◌, take, replicate,
  ap_at, take-nil,
}
use lz.Lz.{Bytes}
use lz.Bytes.Leading.{pow_8}
use lz.Bytes.Prefix.{AreBytes, none_left, byte, little_endian}

low_digits : (m : ℕ) (p : Bytes) → AreBytes p → little_endian (take m p) < 2 ^ (8 * m)
unfolding little_endian
low_digits zero p h = omega arith
low_digits (suc m) [] h =
    omega (arith, low_digits m [] none_left, pow_8 m, ap little_endian (take-nil {A = ℕ} m))
low_digits (suc m) (a ∷ p) (byte lt h) = omega (arith, low_digits m p h, pow_8 m)

top_digit :
    (m : ℕ) (p : Bytes)
    → (c : ℕ) × (little_endian (take (suc m) p) ≡ little_endian (take m p) + c * 2 ^ (8 * m))
unfolding little_endian
top_digit m [] = (0, omega (arith, ap little_endian (take-nil {A = ℕ} m)))
top_digit zero (a ∷ p) = (a, omega arith)
top_digit (suc m) (a ∷ p) =
    let (c, e) = top_digit m p in
    let wide : c * 2 ^ (8 * suc m) ≡ c * 2 ^ (8 * m) * 256 =
      ap (λ t. c * t) (pow_8 m) ∙ sym (mul_assoc c (2 ^ (8 * m)) 256) in
    (c, omega (arith, e, wide))

shift_byte :
    (p : Bytes)
    → AreBytes p
    → little_endian (take 8 p) * 2 ^ 8 % 2 ^ 64 ≡ little_endian (take 8 (0 ∷ p))
unfolding little_endian
shift_byte p h = let (c, e) = top_digit 7 p in omega (arith, e, low_digits 7 p h)

pub zeros-AreBytes : (d : ℕ) (p : Bytes) → AreBytes p → AreBytes (replicate d 0 ++ p)
zeros-AreBytes zero p h = h
zeros-AreBytes (suc d) p h = byte (omega arith) (zeros-AreBytes d p h)

-- Shifting by `d` bytes puts zeros in front of the bytes.
pub shift_bytes :
    (d s : ℕ) (p : Bytes)
    → d * 8 ≡ s
    → AreBytes p
    → little_endian (take 8 p) * 2 ^ s % 2 ^ 64 ≡ little_endian (take 8 (replicate d 0 ++ p))
shift_bytes zero s p e h =
    ap_at (λ t. little_endian (take 8 p) * 2 ^ t % 2 ^ 64) s 0 (omega arith)
    ∙ omega (arith, low_digits 8 p h)
shift_bytes (suc d) s p e h =
    let x = little_endian (take 8 p) in
    let wide : x * 2 ^ s ≡ x * 2 ^ (8 * d) * 256 =
      ap_at (λ t. x * 2 ^ t) s (8 * suc d) (omega arith)
      ∙ ap (λ t. x * t) (pow_8 d)
      ∙ sym (mul_assoc x (2 ^ (8 * d)) 256) in
    omega (
      arith,
      wide,
      shift_bytes d (8 * d) p (omega arith) h,
      shift_byte (replicate d 0 ++ p) (zeros-AreBytes d p h),
    )
