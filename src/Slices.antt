-- ===== src/Slices.antt =====
-- Go slices. A slice expression with a bound out of range panics. What a slice holds is a list; its
-- capacity is a number beside it. How far `append` grows a slice that is full is up to the Go
-- runtime: a parameter, of which the code relies on one thing, that the result has room.
pub mod Laws
use lz.Prelude.{
  ℕ, ◌+◌, ◌-◌, ◌≤◌, Option, none, some, List, ◌++◌, length, take, drop, leb, ltb, if◌then◌else◌,
  ◌&&◌,
}
use lz.Lz.{Bytes}

-- `s[i:]`
unfoldable pub slice_from {ℓ} : {A : Type ℓ} → ℕ → List A → Option (List A)
slice_from i xs = if leb i (length xs) then some (drop i xs) else none

-- `s[:j]`, for a bound within the length (Go allows one up to the capacity)
unfoldable pub slice_to {ℓ} : {A : Type ℓ} → ℕ → List A → Option (List A)
slice_to j xs = if leb j (length xs) then some (take j xs) else none

-- `s[len(s)-off:]`
unfoldable pub slice_last {ℓ} : {A : Type ℓ} → ℕ → List A → Option (List A)
slice_last off xs = if leb off (length xs) then some (drop (length xs - off) xs) else none

-- The runtime's choice of a new capacity, from the old one and the length that is needed.
pub record Growth : Type 0 where
  pub grow : ℕ → ℕ → ℕ
  pub grow_room : (old needed : ℕ) → needed ≤ grow old needed

-- A byte slice with its capacity.
pub record Slice : Type 0 where
  pub bytes : Bytes
  pub cap : ℕ

-- `append(s, p...)`
unfoldable pub append : Growth → Slice → Bytes → Slice
append g s p =
    let needed = length s.bytes + length p in
    record { bytes = s.bytes ++ p; cap = if leb needed s.cap then s.cap else g.grow s.cap needed }
