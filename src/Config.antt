-- ===== src/Config.antt =====
-- The configurations: `BufConfig` of lz.go, and those of the match finders. Sizes are Go integers.
pub mod Buffer
pub mod Laws
use lz.Prelude.{Bool, not, ◌&&◌}
use lz.Prelude.Int.{ℤ, pos, ltb_ℤ}

-- `x == 0` and `x <= y`
abbrev pub is_zero : ℤ → Bool
is_zero x = not (ltb_ℤ x (pos 0)) && not (ltb_ℤ (pos 0) x)

abbrev pub le_ℤ : ℤ → ℤ → Bool
le_ℤ x y = not (ltb_ℤ y x)

-- `lo <= x && x <= hi`
abbrev pub in_range : ℤ → ℤ → ℤ → Bool
in_range lo x hi = le_ℤ lo x && le_ℤ x hi
