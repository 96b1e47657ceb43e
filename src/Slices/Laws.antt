-- ===== src/Slices/Laws.antt =====
-- Laws of slice expressions within their bounds, and of `append`.
use lz.Prelude.{
  ℕ, ◌+◌, ◌-◌, ◌≤◌, ◌≡◌, refl, arith, some, List, ◌++◌, length, take, drop, length-append,
}
use lz.Lz.{Bytes}
use lz.Slices.{slice_from, slice_to, slice_last, Growth, Slice, append}

module _ {ℓ} {A : Type ℓ} (i : ℕ) (xs : List A) (h : i ≤ length xs) where
  pub slice_from_lem : slice_from i xs ≡ some (drop i xs)
  unfolding slice_from
  slice_from_lem = ground arith

  pub slice_to_lem : slice_to i xs ≡ some (take i xs)
  unfolding slice_to
  slice_to_lem = ground arith

  pub slice_last_lem : slice_last i xs ≡ some (drop (length xs - i) xs)
  unfolding slice_last
  slice_last_lem = ground arith

pub bytes-append : (g : Growth) (s : Slice) (p : Bytes) → (append g s p).bytes ≡ s.bytes ++ p
unfolding append
bytes-append g s p = refl

-- The result fits its capacity, and the capacity never falls.
pub cap-append :
    (g : Growth) (s : Slice) (p : Bytes)
    → (length (s.bytes ++ p) ≤ (append g s p).cap) × (s.cap ≤ (append g s p).cap)
unfolding append
cap-append g s p =
    ground (arith, length-append s.bytes p, g.grow_room s.cap (length s.bytes + length p))
