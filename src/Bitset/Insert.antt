-- ===== src/Bitset/Insert.antt =====
-- `insert` adds a number and keeps the others, unless the array is used again for words in front.
use Prim.Native.Nat.{bit_or}
use lz.Prelude.{
  ℕ, zero, suc, ◌-◌, ◌/◌, ◌%◌, ◌^◌, ◌<◌, ◌≡◌, refl, ap, ◌∙◌, arith, inl, inr, false, ◌||◌, some,
  List, [], ◌∷◌, length, get_or, ltb, leb, ◌==◌, if◌then◌else◌, Bool-cases, get_elem?-eq-get_or,
}
use lz.Hash.{store}
use lz.Bitset.{Bitset, support, set_bit, set_bits, least, greatest, insert}
use lz.Bitset.Bits.{bit, word, member, bit-or}
use lz.Bitset.Support.{Fits, HasRoom, Supported, support_lem}

pub store-word :
    (xs : List ℕ) (k v : ℕ)
    → k < length xs
    → (ys : List ℕ) × (store xs k v ≡ some ys)
      × ((q : ℕ) → get_or ys q 0 ≡ (if q == k then v else get_or xs q 0))
unfolding store
store-word [] k v h = absurd (omega arith)
store-word (x ∷ xs) zero v h = (v ∷ xs, refl, λ q. at q)
  where
    at : (q : ℕ) → get_or (v ∷ xs) q 0 ≡ (if q == 0 then v else get_or (x ∷ xs) q 0)
    at zero = refl
    at (suc q) = let apart : (suc q == 0) ≡ false = ground arith in rw apart refl
store-word (x ∷ xs) (suc k) v h =
    let (ys, run, same) = store-word xs k v (omega arith) in
    (x ∷ ys, rw run refl, λ q. at ys same q)
  where
    at :
        (ys : List ℕ)
        → ((q : ℕ) → get_or ys q 0 ≡ (if q == k then v else get_or xs q 0))
        → (q : ℕ) → get_or (x ∷ ys) q 0 ≡ (if q == suc k then v else get_or (x ∷ xs) q 0)
    at ys same zero = let apart : (0 == suc k) ≡ false = ground arith in rw apart refl
    at ys same (suc q) = let shift : (suc q == suc k) ≡ (q == k) = ground arith in rw shift (same q)

-- Where a number has a word, its bit is set, and the others stay.
pub set_bit_lem :
    (b : Bitset) (i : ℕ)
    → HasRoom b (i / 64)
    → (c : Bitset) × (set_bit b i ≡ some c) × ((j : ℕ) → member c j ≡ ((j == i) || member b j))
unfolding set_bit member word
set_bit_lem b i room =
    let k = i / 64 - b.off in
    let x = get_or b.words k 0 in
    let inside : k < length b.words = omega (arith, room.lower, room.upper) in
    let (ys, run, same) = store-word b.words k (bit_or x (2 ^ (i % 64))) inside in
    let lower : ltb (i / 64) b.off ≡ false = ground (arith, room.lower) in
    (
      record b { words = ys },
      rw (lower, get_elem?-eq-get_or b.words k 0 inside, run) refl,
      λ j. elim (Bool-cases (leb b.off (j / 64))) [
        | inr before ↦
            let other : (j == i) ≡ false = ground (arith, before, room.lower) in
            rw (before, other) refl
        | inl after ↦ elim (Bool-cases (j / 64 - b.off == k)) [
          | inr away ↦
              let other : (j == i) ≡ false = ground (arith, away) in
              rw (after, same (j / 64 - b.off), away, other) refl
          | inl here ↦
              let at : j / 64 - b.off ≡ k = ground (arith, here) in
              let word_same : j / 64 ≡ i / 64 = ground (arith, here, after, room.lower) in
              let number : (j % 64 == i % 64) ≡ (j == i) = ground (arith, word_same) in
              rw (after, same (j / 64 - b.off), here, bit-or (i % 64) (j % 64) x, number, at) refl
        ]
      ],
    )

-- One number
pub insert-set_bit :
    (b : Bitset) (i : ℕ) {c : Bitset}
    → set_bit (support b i i) i ≡ some c
    → insert b (i ∷ []) ≡ some c
unfolding insert set_bits least greatest
insert-set_bit b i run = rw run refl

-- Where a bit set may be asked for a number without a loss (it has no words, or the number is not before
-- them, or there are fewer spare words behind them than are needed in front), `insert` of it alone never
-- panics, and the set then has this number and those that it had.
pub insert_lem :
    (b : Bitset) (i : ℕ)
    → Fits b (i / 64)
    → (c : Bitset) × (insert b (i ∷ []) ≡ some c)
      × ((j : ℕ) → member c j ≡ ((j == i) || member b j))
unfolding Supported member
insert_lem b i fits =
    let (words, room) = support_lem b i fits in
    let (c, run, has) = set_bit_lem (support b i i) i room in
    (c, insert-set_bit b i run, λ j. has j ∙ ap (λ x. (j == i) || bit x (j % 64)) (words (j / 64)))
