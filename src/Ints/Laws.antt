-- ===== src/Ints/Laws.antt =====
-- What the branch-free `doz` and `min` compute.
use lz.Prelude.{ℕ, ◌-◌, ◌≡◌, arith, Bool, true, false, not, if◌then◌else◌}
use lz.Prelude.Int.{ℤ, pos, negsuc, ◌-ℤ◌, ltb_ℤ}
use lz.Bits.{bit_and-zero, bit_or-zero}
use lz.Ints.{iverson, and_int, doz, min}

and_int-zero : (d : ℤ) → and_int d (pos 0) ≡ pos 0
unfolding and_int
and_int-zero (pos a) = ground (arith, bit_and-zero a)
and_int-zero (negsuc a) = ground arith

and_int-ones : (d : ℤ) → and_int d (negsuc 0) ≡ d
unfolding and_int
and_int-ones (pos a) = ground (arith, bit_and-zero a)
and_int-ones (negsuc a) = ground (arith, bit_or-zero a)

-- the mask `-iverson(x >= y)`
mask : (b : Bool) (d : ℤ) → and_int d (pos 0 -ℤ iverson (not b)) ≡ (if b then pos 0 else d)
unfolding iverson ◌-ℤ◌
mask true d = and_int-zero d
mask false d = and_int-ones d

-- `doz` is the difference of two integers where that is not negative, and 0 elsewhere.
pub doz-max : (x y : ℤ) → doz x y ≡ (if ltb_ℤ x y then pos 0 else x -ℤ y)
unfolding doz
doz-max x y = mask (ltb_ℤ x y) (x -ℤ y)

-- On sizes it is the truncated difference.
pub doz-pos : (x y : ℕ) → doz (pos x) (pos y) ≡ pos (x - y)
unfolding ◌-ℤ◌
doz-pos x y = ground (arith, doz-max (pos x) (pos y))

-- `min` is the smaller of two integers.
pub min_lem : (x y : ℤ) → min x y ≡ (if ltb_ℤ x y then x else y)
unfolding min ◌-ℤ◌
min_lem x y = ground (arith, doz-max x y)
