-- ===== src/Bitset/Kept.antt =====
-- Whatever a bit set is asked for, `insert` of a number adds nothing else to it.
use Prim.Native.Nat.{bit_or}
use native.Mathlib.Nat.{pow-suc, pow-le-pow_right}
use lz.Prelude.{
  some-inj, ℕ, zero, suc, ◌+◌, ◌-◌, ◌/◌, ◌%◌, ◌^◌, ◌≤◌, ◌<◌, ◌≡◌, refl, sym, ap, ◌∙◌, arith, inl,
  inr, true, false, ◌⊎◌, some, List, [], ◌∷◌, ◌++◌, length, take, drop, replicate, get_or, ltb, leb,
  ◌==◌, Bool-cases, ap_at, get_elem?-eq-get_or, get_or-append_lt, get_or-append_add, get_or-take,
  get_or-drop, length-replicate, length-take,
}
use mathlib.Core.Path.{subst}
use lz.Bits.{bit_or_step}
use lz.Bitset.{Bitset, support, reuse, set_bit, insert}
use lz.Bitset.Bits.{member, word, zero_bit, bit}
use lz.Bitset.Support.{
  Fits, nothing_yet, not_before, no_room, HasRoom, Supported, support_lem, padded, get_or-zeros,
  get_or-beyond,
}
use lz.Bitset.Insert.{store-word, set_bit_lem, insert-set_bit}
use lz.Bitset.Loss.{reuse-HasRoom, support-reuse}

module _ (b : Bitset) (k d : ℕ) (at : k + d ≡ b.off) (room : d ≤ length b.spare) where
  abbrev len : ℕ
  len = length b.words

  abbrev memory : List ℕ
  memory = take (d + len) (b.words ++ b.spare)

  abbrev cleared : List ℕ
  cleared = replicate d 0 ++ drop d memory

  left : (q : ℕ) → q < len → (get_or cleared q 0 ≡ get_or b.words q 0) ⊎ (get_or cleared q 0 ≡ 0)
  left q h = elim (Bool-cases (ltb q d)) [
    | inl e ↦ inr (
        get_or-append_lt (replicate d 0) (drop d memory) q 0
          (ground (arith, e, length-replicate {A = ℕ} d 0))
        ∙ get_or-zeros d q)
    | inr e ↦
        let far : d ≤ q = ground (arith, e) in
        inl (
          get_or-append_add (replicate d 0) (drop d memory) q (q - d) 0
            (omega (arith, far, length-replicate {A = ℕ} d 0))
          ∙ get_or-drop d (q - d) q memory 0 (omega (arith, far))
          ∙ get_or-take (d + len) q (b.words ++ b.spare) 0 (omega (arith, h))
          ∙ get_or-append_lt b.words b.spare q 0 h)
  ]

  reuse-word :
      (q : ℕ) → (word (reuse b k d (d + len)) q ≡ word b q) ⊎ (word (reuse b k d (d + len)) q ≡ 0)
  unfolding word reuse
  reuse-word q = elim (Bool-cases (leb k q)) [
    | inr e ↦ rw e (inr refl)
    | inl e ↦ elim (Bool-cases (leb d (q - k))) [
      | inr f ↦ rw e (inr (padded d (d + len - (d + len)) (q - k) (take len cleared) ∙ rw f refl))
      | inl f ↦ elim (Bool-cases (ltb (q - k - d) len)) [
        | inr g ↦ rw e (
            inr (
              padded d (d + len - (d + len)) (q - k) (take len cleared)
              ∙ rw f (
                  get_or-beyond (take len cleared) (q - k - d)
                    (ground (arith, g, length-take len cleared)))))
        | inl g ↦
            let lower : leb b.off q ≡ true = ground (arith, e, f, at) in
            let same : get_or
                  (replicate d 0 ++ (take len cleared ++ replicate (d + len - (d + len)) 0)) (q - k)
                  0
                ≡ get_or cleared (q - k - d) 0 =
              padded d (d + len - (d + len)) (q - k) (take len cleared)
              ∙ rw f (get_or-take len (q - k - d) cleared 0 (ground (arith, g))) in
            rw (e, lower, same)
              (elim (left (q - k - d) (ground (arith, g))) [
                | inr z ↦ inr z
                | inl z ↦ inl (
                    z ∙ ap_at (λ t. get_or b.words t 0) (q - k - d) (q - b.off) (omega (arith, at)))
              ])
      ]
    ]
  ]

-- What `support` leaves at the least: each word as it was or empty, and one for the number.
unfoldable pub Held : Bitset → ℕ → Bitset → Type 0
Held b k c = ((q : ℕ) → (word c q ≡ word b q) ⊎ (word c q ≡ 0)) × HasRoom c k

Supported-Held : (b c : Bitset) (k : ℕ) → Supported b k c → Held b k c
unfolding Supported Held
Supported-Held b c k (same, room) = (λ q. inl (same q), room)

pub support-Held : (b : Bitset) (i : ℕ) → Held b (i / 64) (support b i i)
unfolding Held
support-Held b i =
    let k = i / 64 in
    let d = b.off - k in
    let fits : Fits b k → Held b k (support b i i) =
      λ f. Supported-Held b (support b i i) k (support_lem b i f) in
    elim (Bool-cases (leb b.off k)) [
      | inl e ↦ fits (not_before (ground (arith, e)))
      | inr e ↦ elim (Bool-cases (length b.words == 0)) [
        | inl z ↦ fits (nothing_yet (ground (arith, z)))
        | inr z ↦ elim (Bool-cases (ltb (length b.spare) d)) [
          | inl s ↦ fits (no_room (ground (arith, e)) (ground (arith, s)))
          | inr s ↦
              let before : k < b.off = ground (arith, e) in
              let at : k + d ≡ b.off = omega (arith, before) in
              let room : d ≤ length b.spare = ground (arith, s) in
              let some_words : 0 < length b.words = ground (arith, z) in
              rw (support-reuse b i some_words before room) (
                reuse-word b k d at room,
                reuse-HasRoom b k d at room (omega (arith, before)) some_words,
              )
        ]
      ]
    ]

bit_or-bound : (n a b : ℕ) → a < 2 ^ n → b < 2 ^ n → bit_or a b < 2 ^ n
bit_or-bound zero a b h g =
    let za : a ≡ 0 = omega (arith, h) in
    let zb : b ≡ 0 = omega (arith, g) in rw (za, zb) (omega arith)
bit_or-bound (suc n) a b h g = omega (
  arith,
  bit_or_step a b,
  pow-suc 2 n,
  bit_or-bound n (a / 2) (b / 2) (omega (arith, pow-suc 2 n)) (omega (arith, pow-suc 2 n)),
)

-- All words have 64 bits.
abbrev pub Words : Bitset → Type 0
Words b = (q : ℕ) → word b q < 2 ^ 64

Held-Words : (b c : Bitset) (k : ℕ) → Words b → Held b k c → Words c
unfolding Held
Held-Words b c k small (same, room) q = elim (same q) [
  | inl e ↦ omega (arith, e, small q)
  | inr e ↦ omega (arith, e)
]

Held-member : (b c : Bitset) (k j : ℕ) → Held b k c → member c j ≡ true → member b j ≡ true
unfolding Held member
Held-member b c k j (same, room) h = elim (same (j / 64)) [
  | inl e ↦ ap (λ x. bit x (j % 64)) (sym e) ∙ h
  | inr e ↦ ground (arith, zero_bit (j % 64), ap (λ x. bit x (j % 64)) e, h)
]

-- The word of the number changes, within its 64 bits.
set_bit-Words :
    (b c : Bitset) (i : ℕ) → Words b → HasRoom b (i / 64) → set_bit b i ≡ some c → Words c
unfolding set_bit word
set_bit-Words b c i small room run =
    let k = i / 64 - b.off in
    let x = get_or b.words k 0 in
    let inside : k < length b.words = omega (arith, room.lower, room.upper) in
    let lower : ltb (i / 64) b.off ≡ false = ground (arith, room.lower) in
    let after : leb b.off (i / 64) ≡ true = ground (arith, room.lower) in
    let old : x < 2 ^ 64 = ground (arith, small (i / 64), after) in
    let bit_low : 2 ^ (i % 64) ≤ 2 ^ 63 =
      pow-le-pow_right {n = 2} (omega arith) {i = i % 64} {j = 63} (omega arith) in
    let new : bit_or x (2 ^ (i % 64)) < 2 ^ 64 =
      bit_or-bound 64 x (2 ^ (i % 64)) old (omega (arith, bit_low)) in
    let (ys, stored, same) = store-word b.words k (bit_or x (2 ^ (i % 64))) inside in
    let made : set_bit b i ≡ some (record b { words = ys }) =
      rw (lower, get_elem?-eq-get_or b.words k 0 inside, stored) refl in
    subst Words (some-inj (record b { words = ys }) (sym made ∙ run)) (λ q.
      elim (Bool-cases (leb b.off q)) [
        | inr e ↦ rw e (omega arith)
        | inl e ↦ elim (Bool-cases (q - b.off == k)) [
          | inl f ↦ rw (e, same (q - b.off), f) new
          | inr f ↦ rw (e, same (q - b.off), f) (ground (arith, small q, e))
        ]
      ])

-- `insert` of a number never panics. The set then has the number, and no others that it did not have.
pub insert_kept :
    (b : Bitset) (i : ℕ)
    → Words b
    → (c : Bitset) × (insert b (i ∷ []) ≡ some c)
      × Words c
      × (member c i ≡ true)
      × ((j : ℕ) → member c j ≡ true → (j ≡ i) ⊎ (member b j ≡ true))
unfolding Held
insert_kept b i small =
    let held = support-Held b i in
    let s = support b i i in
    let (c, run, has) = set_bit_lem s i (held.1) in
    (
      c,
      insert-set_bit b i run,
      set_bit-Words s c i (Held-Words b s (i / 64) small held) (held.1) run,
      has i ∙ ground arith,
      λ j h. elim (Bool-cases (j == i)) [
        | inl e ↦ inl (ground (arith, e))
        | inr e ↦ inr (Held-member b s (i / 64) j held (ground (arith, has j, e, h)))
      ],
    )
