-- ===== src/Ints.antt =====
-- ints.go. A Go `int` is an integer of `Prelude.Int`: the sizes and positions of the program stay
-- far below 2 ^ 63, and no operation of this file overflows on them.
pub mod Laws
use Prim.Native.Nat.{bit_and, bit_or}
use lz.Prelude.{ℕ, suc, ◌-◌, Bool, true, false}
use lz.Prelude.Int.{ℤ, pos, negsuc, ◌-ℤ◌, ltb_ℤ}
use mathlib.Core.Bool.{not}

unfoldable pub iverson : Bool → ℤ
iverson true = pos 1
iverson false = pos 0

-- `&` on two's complement integers: `negsuc n` has the bits of `n` inverted.
unfoldable pub and_int : ℤ → ℤ → ℤ
and_int (pos a) (pos b) = pos (bit_and a b)
and_int (pos a) (negsuc b) = pos (a - bit_and a b)
and_int (negsuc a) (pos b) = pos (b - bit_and b a)
and_int (negsuc a) (negsuc b) = negsuc (bit_or a b)

unfoldable pub doz : ℤ → ℤ → ℤ
unfolding iverson and_int ◌-ℤ◌
doz x y = and_int (x -ℤ y) (pos 0 -ℤ iverson (not (ltb_ℤ x y)))

unfoldable pub min : ℤ → ℤ → ℤ
unfolding doz
min x y = x -ℤ doz x y
