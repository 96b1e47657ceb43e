-- ===== src/Bitset/Nearest.antt =====
-- `memberBefore` and `memberAfter` find the nearest members.
use Prim.Native.Nat.{bit_and}
use lz.Prelude.{
  ℕ, zero, suc, ◌+◌, ◌-◌, ◌*◌, ◌/◌, ◌%◌, ◌^◌, ◌≤◌, ◌<◌, ◌≡◌, refl, ap, ◌∙◌, arith, inl, inr, true,
  false, ◌&&◌, Option, none, some, List, [], ◌∷◌, length, drop, length-drop, get_or, get_or-drop,
  ltb, leb, Bool-cases, ap_at,
}
use lz.Bitset.{Bitset, first_bit, last_bit, search_back, search_on, member_before, member_after}
use lz.Bitset.Bits.{bit, zero_bit, word, member}
use lz.Bitset.Support.{get_or-beyond}
use lz.Bitset.Kept.{Words}
use lz.Bitset.Masks.{
  bit_and-bound, bit-and, low_mask, high_mask, LastBit, no_last, last_at, FirstBit, no_first,
  first_at, first_bit_lem, last_bit_lem,
}

-- The nearest member before `i`, if any
pub data Before (b : Bitset) (i : ℕ) : Option ℕ → Type 0 where
  none_before : ((j : ℕ) → j < i → member b j ≡ false) → Before b i none
  before_at :
      {j : ℕ}
      → j < i
      → member b j ≡ true
      → ((k : ℕ) → j < k → k < i → member b k ≡ false)
      → Before b i (some j)

-- The nearest member behind `i`, if any
pub data After (b : Bitset) (i : ℕ) : Option ℕ → Type 0 where
  none_after : ((j : ℕ) → i < j → member b j ≡ false) → After b i none
  after_at :
      {j : ℕ}
      → i < j
      → member b j ≡ true
      → ((k : ℕ) → i < k → k < j → member b k ≡ false)
      → After b i (some j)

module _ (b : Bitset) where
  outside_low : (n : ℕ) → n / 64 < b.off → member b n ≡ false
  unfolding member word
  outside_low n h =
      let out : leb b.off (n / 64) ≡ false = ground (arith, h) in rw out (zero_bit (n % 64))

  outside_high : (n : ℕ) → b.off + length b.words ≤ n / 64 → member b n ≡ false
  unfolding member word
  outside_high n h =
      let in_front : leb b.off (n / 64) ≡ true = ground (arith, h) in
      rw (in_front, get_or-beyond b.words (n / 64 - b.off) (omega (arith, h))) (zero_bit (n % 64))

  -- The bits of the word `k` are the members of its 64 numbers.
  member-bit : (n k : ℕ) → n / 64 ≡ b.off + k → member b n ≡ bit (get_or b.words k 0) (n % 64)
  unfolding member word
  member-bit n k h =
      let in_front : leb b.off (n / 64) ≡ true = ground (arith, h) in
      rw in_front
        (ap_at (λ t. bit (get_or b.words t 0) (n % 64)) (n / 64 - b.off) k (omega (arith, h)))

  in_word :
      (k j : ℕ)
      → j < 64
      → bit (get_or b.words k 0) j ≡ true
      → member b ((b.off + k) * 64 + j) ≡ true
  in_word k j h e =
      member-bit ((b.off + k) * 64 + j) k (omega (arith, h))
      ∙ ap_at (bit (get_or b.words k 0)) (((b.off + k) * 64 + j) % 64) j (omega (arith, h))
      ∙ e

  module _ (small : Words b) (i : ℕ) where
    get-small : (k : ℕ) → get_or b.words k 0 < 2 ^ 64
    unfolding word
    get-small k =
        let at : leb b.off (b.off + k) ≡ true = ground arith in
        let e : get_or b.words (b.off + k - b.off) 0 ≡ get_or b.words k 0 =
          ap_at (λ t. get_or b.words t 0) (b.off + k - b.off) k (omega arith) in
        ground (arith, small (b.off + k), at, e)

    -- The numbers from the word `k` on, before `i`, are no members.
    abbrev ClearFrom : ℕ → Type 0
    ClearFrom k = (n : ℕ) → (b.off + k) * 64 ≤ n → n < i → member b n ≡ false

    back_step :
        (k : ℕ) (r : Option ℕ)
        → (b.off + suc k) * 64 ≤ i
        → ClearFrom (suc k)
        → (ClearFrom k → Before b i (search_back b k none))
        → LastBit (get_or b.words k 0) r
        → Before b i (search_back b k r)
    unfolding search_back
    back_step k none at clear rest (no_last empty) = rest λ n low high.
        elim (Bool-cases (ltb n ((b.off + suc k) * 64))) [
          | inl e ↦ member-bit n k (ground (arith, e, low)) ∙ empty (n % 64)
          | inr e ↦ clear n (ground (arith, e)) high
        ]
    back_step k (some j) at clear rest (last_at small_j set_j above) =
        before_at (omega (arith, small_j, at)) (in_word k j small_j set_j) λ n low high.
          elim (Bool-cases (ltb n ((b.off + suc k) * 64))) [
            | inl e ↦
                member-bit n k (ground (arith, e, low))
                ∙ above (n % 64) (ground (arith, e, low, small_j))
            | inr e ↦ clear n (ground (arith, e)) high
          ]

    search_back_lem :
        (k : ℕ) → (b.off + k) * 64 ≤ i → ClearFrom k → Before b i (search_back b k none)
    unfolding search_back
    search_back_lem zero at clear = none_before λ j h. elim (Bool-cases (ltb (j / 64) b.off)) [
      | inl e ↦ outside_low j (ground (arith, e))
      | inr e ↦ clear j (ground (arith, e)) h
    ]
    search_back_lem (suc k) at clear =
        back_step k (last_bit (get_or b.words k 0)) at clear (search_back_lem k (omega arith))
          (last_bit_lem (get_or b.words k 0) (get-small k))

    -- In the word of `i` only the numbers before it count.
    first_back :
        (k : ℕ) (r : Option ℕ)
        → i / 64 ≡ b.off + k
        → LastBit (bit_and (get_or b.words k 0) (2 ^ (i % 64) - 1)) r
        → Before b i (search_back b k r)
    unfolding search_back
    first_back k r at found =
        let masked : (q : ℕ)
            → bit (bit_and (get_or b.words k 0) (2 ^ (i % 64) - 1)) q
              ≡ (bit (get_or b.words k 0) q && ltb q (i % 64)) =
          λ q.
            bit-and q (get_or b.words k 0) (2 ^ (i % 64) - 1)
            ∙ ap (λ t. bit (get_or b.words k 0) q && t) (low_mask (i % 64) q) in
        go r found masked
      where
        go :
            (r : Option ℕ)
            → LastBit (bit_and (get_or b.words k 0) (2 ^ (i % 64) - 1)) r
            → ((q : ℕ)
                → bit (bit_and (get_or b.words k 0) (2 ^ (i % 64) - 1)) q
                  ≡ (bit (get_or b.words k 0) q && ltb q (i % 64)))
            → Before b i (search_back b k r)
        go none (no_last empty) masked = search_back_lem k (omega (arith, at)) λ n low high.
            member-bit n k (omega (arith, at, low, high))
            ∙ ground (arith, masked (n % 64), empty (n % 64), at, low, high)
        go (some j) (last_at small_j set_j above) masked =
            before_at (ground (arith, masked j, set_j, at))
              (in_word k j small_j (ground (arith, masked j, set_j)))
              λ n low high.
                member-bit n k (omega (arith, at, low, high, small_j))
                ∙ ground (arith, masked (n % 64), above (n % 64), at, low, high, small_j)

  -- In a bit set of words of 64 bits, `memberBefore` gives the nearest member before a number, and reports that
  -- there is none exactly if there is none.
  pub member_before_lem : Words b → (i : ℕ) → Before b i (member_before b i)
  unfolding member_before
  member_before_lem small i =
      let k = i / 64 - b.off in
      elim (Bool-cases (ltb (i / 64) b.off)) [
        | inl e ↦ rw e (none_before λ j h. outside_low j (ground (arith, e, h)))
        | inr e ↦ elim (Bool-cases (ltb k (length b.words))) [
          | inl f ↦
              let x = bit_and (get_or b.words k 0) (2 ^ (i % 64) - 1) in
              rw (e, f)
                (first_back small i k (last_bit x) (ground (arith, e)) (
                  last_bit_lem x (
                    bit_and-bound 64 (get_or b.words k 0) (2 ^ (i % 64) - 1)
                      (get-small small i k))))
          | inr f ↦
              rw (e, f)
                (search_back_lem small i (length b.words) (ground (arith, e, f))
                  λ n low high. outside_high n (omega (arith, low)))
        ]
      ]

  module _ (small : Words b) (i : ℕ) where
    -- The numbers behind `i`, before the word `k`, are no members.
    abbrev ClearTo : ℕ → Type 0
    ClearTo k = (n : ℕ) → i < n → n < (b.off + k) * 64 → member b n ≡ false

    on_step :
        (k : ℕ) (xs : List ℕ) (r : Option ℕ)
        → i < (b.off + k) * 64
        → ClearTo k
        → (ClearTo (k + 1) → After b i (search_on b.off (k + 1) xs none))
        → FirstBit (get_or b.words k 0) r
        → After b i (search_on b.off (k + 1) xs r)
    unfolding search_on
    on_step k xs none at clear rest (no_first empty) = rest λ n low high.
        elim (Bool-cases (ltb n ((b.off + k) * 64))) [
          | inl e ↦ clear n low (ground (arith, e))
          | inr e ↦ member-bit n k (ground (arith, e, high)) ∙ empty (n % 64) (omega arith)
        ]
    on_step k xs (some j) at clear rest (first_at small_j set_j below) =
        let here : ◌≡◌ {A = ℕ} ((b.off + k) * 64 + j) ((b.off + (k + 1) - 1) * 64 + j) =
          omega arith in
        rw (← here) (
          after_at (omega (arith, at)) (in_word k j small_j set_j) λ n low high.
            elim (Bool-cases (ltb n ((b.off + k) * 64))) [
              | inl e ↦ clear n low (ground (arith, e))
              | inr e ↦
                  member-bit n k (ground (arith, e, high, small_j))
                  ∙ below (n % 64) (ground (arith, e, high, small_j))
            ])

    search_on_lem :
        (xs : List ℕ) (k : ℕ)
        → ((q : ℕ) → get_or xs q 0 ≡ get_or b.words (k + q) 0)
        → length b.words ≤ k + length xs
        → i < (b.off + k) * 64
        → ClearTo k
        → After b i (search_on b.off k xs none)
    unfolding search_on
    search_on_lem [] k same size at clear = none_after λ n h.
        elim (Bool-cases (ltb n ((b.off + k) * 64))) [
          | inl e ↦ clear n h (ground (arith, e))
          | inr e ↦ outside_high n (ground (arith, e, size))
        ]
    search_on_lem (x ∷ xs) k same size at clear =
        let head : x ≡ get_or b.words k 0 =
          same 0 ∙ ap_at (λ t. get_or b.words t 0) (k + 0) k (omega arith) in
        rw head (
          on_step k xs (first_bit (get_or b.words k 0)) at clear
            (λ clear'.
              search_on_lem xs (k + 1)
                (λ q.
                  same (suc q)
                  ∙ ap_at (λ t. get_or b.words t 0) (k + suc q) (k + 1 + q) (omega arith))
                (omega arith) (omega (arith, at)) clear')
            (first_bit_lem (get_or b.words k 0)))

    -- In the word of `i + 1` only the numbers from there on count.
    first_on :
        (k : ℕ) (r : Option ℕ)
        → (i + 1) / 64 ≡ b.off + k
        → FirstBit (bit_and (get_or b.words k 0) (2 ^ 64 - 2 ^ ((i + 1) % 64))) r
        → After b i (search_on b.off (k + 1) (drop (k + 1) b.words) r)
    unfolding search_on
    first_on k r at found =
        let masked : (q : ℕ)
            → q < 64
            → bit (bit_and (get_or b.words k 0) (2 ^ 64 - 2 ^ ((i + 1) % 64))) q
              ≡ (bit (get_or b.words k 0) q && leb ((i + 1) % 64) q) =
          λ q h.
            bit-and q (get_or b.words k 0) (2 ^ 64 - 2 ^ ((i + 1) % 64))
            ∙ ap (λ t. bit (get_or b.words k 0) q && t)
                (high_mask 64 ((i + 1) % 64) q (omega arith) h) in
        go r found masked
      where
        go :
            (r : Option ℕ)
            → FirstBit (bit_and (get_or b.words k 0) (2 ^ 64 - 2 ^ ((i + 1) % 64))) r
            → ((q : ℕ)
                → q < 64
                → bit (bit_and (get_or b.words k 0) (2 ^ 64 - 2 ^ ((i + 1) % 64))) q
                  ≡ (bit (get_or b.words k 0) q && leb ((i + 1) % 64) q))
            → After b i (search_on b.off (k + 1) (drop (k + 1) b.words) r)
        go none (no_first empty) masked =
            search_on_lem (drop (k + 1) b.words) (k + 1)
              (λ q. get_or-drop (k + 1) q (k + 1 + q) b.words 0 refl)
              (omega (arith, length-drop (k + 1) b.words)) (omega (arith, at))
              λ n low high.
                member-bit n k (omega (arith, at, low, high))
                ∙ ground (
                  arith,
                  masked (n % 64) (omega arith),
                  empty (n % 64) (omega arith),
                  at,
                  low,
                  high,
                )
        go (some j) (first_at small_j set_j below) masked =
            let here : ◌≡◌ {A = ℕ} ((b.off + k) * 64 + j) ((b.off + (k + 1) - 1) * 64 + j) =
              omega arith in
            rw (← here) (
              after_at (ground (arith, masked j small_j, set_j, at))
                (in_word k j small_j (ground (arith, masked j small_j, set_j)))
                λ n low high.
                  member-bit n k (omega (arith, at, low, high, small_j))
                  ∙ ground (
                    arith,
                    masked (n % 64) (omega arith),
                    below (n % 64),
                    at,
                    low,
                    high,
                    small_j,
                  ))

  -- `memberAfter` gives the nearest member behind a number, and reports that there is none exactly if there is none.
  pub member_after_lem : Words b → (i : ℕ) → After b i (member_after b i)
  unfolding member_after
  member_after_lem small i =
      let k = (i + 1) / 64 - b.off in
      elim (Bool-cases (ltb ((i + 1) / 64) b.off)) [
        | inl e ↦ rw e (
            search_on_lem small i b.words 0
              (λ q. ap_at (λ t. get_or b.words t 0) q (0 + q) (omega arith)) (omega arith)
              (ground (arith, e)) (λ n low high. outside_low n (omega (arith, high))))
        | inr e ↦ elim (Bool-cases (leb (length b.words) k)) [
          | inl f ↦ rw (e, f) (none_after λ n h. outside_high n (ground (arith, e, f, h)))
          | inr f ↦
              let x = bit_and (get_or b.words k 0) (2 ^ 64 - 2 ^ ((i + 1) % 64)) in
              rw (e, f) (first_on small i k (first_bit x) (ground (arith, e)) (first_bit_lem x))
        ]
      ]

-- In a bit set of words of 64 bits, `memberBefore` gives the nearest member before a number and `memberAfter` the
-- nearest one behind it; each reports that there is none exactly if there is none.
pub nearest_lem :
    (b : Bitset) → Words b → (i : ℕ) → Before b i (member_before b i) × After b i (member_after b i)
nearest_lem b small i = (member_before_lem b small i, member_after_lem b small i)
