-- ===== src/Tests/Bitset.antt =====
-- A bit set with 64 and 66, and a spare word behind its only one.
use lz.Prelude.{ℕ, ◌≡◌, refl, arith, some, [], ◌∷◌, ◌==◌, ◌||◌, false}
use lz.Hash.{store}
use lz.Bitset.{Bitset, insert, set_bits, least, greatest, support, new_off, widen, reuse, set_bit}
use lz.Bitset.Bits.{member}
use lz.Bitset.Support.{not_before}
use lz.Bitset.Insert.{insert_lem}
use lz.Bitset.Loss.{insert_loses}

abbrev two : Bitset
two = record { words = 5 ∷ []; spare = 0 ∷ []; off = 1 }

insert_lem_example :
    (c : Bitset) × (insert two (200 ∷ []) ≡ some c)
    × ((j : ℕ) → member c j ≡ ((j == 200) || member two j))
insert_lem_example = insert_lem two 200 (not_before (omega arith))

insert_loses_example : (c : Bitset) × (insert two (3 ∷ []) ≡ some c) × (member c 66 ≡ false)
insert_loses_example =
    insert_loses two 3 66 (omega arith) (omega arith) (omega arith) (omega arith) (omega arith)

-- Several numbers
several :
    insert two (70 ∷ 65 ∷ 130 ∷ []) ≡ some (record { words = 71 ∷ 4 ∷ []; spare = []; off = 1 })
unfolding insert set_bits least greatest support new_off widen reuse set_bit store
several = refl
