-- ===== src/Segments/Stack.antt =====
-- Suffixes that have bytes in common, and the stack of open segments.
use lz.Prelude.{
  ℕ, zero, suc, ◌+◌, ◌-◌, ◌≤◌, ◌<◌, ◌≡◌, sym, ◌⊎◌, arith, inl, inr, true, List, [], ◌∷◌, length,
  drop, get_or, ltb, ◌==◌, Bool-cases,
}
use mathlib.Core.Path.{subst}
use lz.Lz.{Bytes}
use lz.Bytes.Prefix.{prefix, prefix_comm}
use lz.Segments.{Item}

-- The suffixes at two positions have the first `m` bytes in common.
abbrev pub Close : Bytes → (m i j : ℕ) → Type 0
Close t m i j = m ≤ prefix (drop i t) (drop j t)

prefix_trans : (m : ℕ) (p q r : Bytes) → m ≤ prefix p q → m ≤ prefix q r → m ≤ prefix p r
unfolding prefix
prefix_trans zero p q r h g = omega arith
prefix_trans (suc m) [] q r h g = absurd (omega (arith, h))
prefix_trans (suc m) (a ∷ p) [] r h g = absurd (omega (arith, h))
prefix_trans (suc m) (a ∷ p) (b ∷ q) [] h g = absurd (omega (arith, g))
prefix_trans (suc m) (a ∷ p) (b ∷ q) (c ∷ r) h g = elim (Bool-cases (a == b)) [
  | inr e ↦ absurd (ground (arith, e, h))
  | inl e ↦ elim (Bool-cases (b == c)) [
    | inr e' ↦ absurd (ground (arith, e', g))
    | inl e' ↦
        let both : (a == c) ≡ true = ground (arith, e, e') in
        rw both (omega (arith, prefix_trans m p q r (ground (arith, e, h)) (ground (arith, e', g))))
  ]
]

module _ (t : Bytes) where
  pub trans-Close : (m i j k : ℕ) → Close t m i j → Close t m j k → Close t m i k
  trans-Close m i j k h g = prefix_trans m (drop i t) (drop j t) (drop k t) h g

  pub sym-Close : (m i j : ℕ) → Close t m i j → Close t m j i
  sym-Close m i j h = omega (arith, h, prefix_comm (drop i t) (drop j t))

  -- All positions from `a` to before `b` hold suffixes with `m` bytes in common.
  abbrev pub Group : List ℕ → (m a b : ℕ) → Type 0
  Group sa m a b =
      (q r : ℕ) → a ≤ q → q < b → a ≤ r → r < b → Close t m (get_or sa q 0) (get_or sa r 0)

  -- The stack at `j`, with the limit `max`: heights and starts at most `h` and `a` at the top, and lower ones below
  pub data IsStack (max : ℕ) (sa : List ℕ) (j : ℕ) : (a h : ℕ) → List Item → Type 0 where
    bottom : {a h : ℕ} → IsStack max sa j a h []
    opened :
        {a h : ℕ} {x : Item} {stack : List Item}
        → x.j ≤ a
        → x.n ≤ h
        → x.n ≤ max
        → x.j < j
        → Group sa x.n x.j j
        → IsStack max sa j x.j x.n stack
        → IsStack max sa j a h (x ∷ stack)

  -- The next position joins all segments of at most the height it has in common with the one before.
  pub join_lem :
      (max v : ℕ) (sa : List ℕ) (j a h : ℕ) (stack : List Item)
      → h ≤ v
      → Close t v (get_or sa (j - 1) 0) (get_or sa j 0)
      → IsStack max sa j a h stack
      → IsStack max sa (j + 1) a h stack
  join_lem max v sa j a h [] le near bottom = bottom
  join_lem max v sa j a h (x ∷ stack) le near (opened in_a in_h in_max early group below) =
      opened in_a in_h in_max (omega (arith, early)) wider
        (join_lem max v sa j x.j x.n stack (omega (arith, in_h, le)) near below)
    where
      last : (q : ℕ) → x.j ≤ q → q < j → Close t x.n (get_or sa q 0) (get_or sa j 0)
      last q lq hq =
          trans-Close x.n (get_or sa q 0) (get_or sa (j - 1) 0) (get_or sa j 0)
            (group q (j - 1) lq hq (omega (arith, early)) (omega (arith, early)))
            (omega (arith, near, le, in_h))

      wider : Group sa x.n x.j (j + 1)
      wider q r lq hq lr hr = elim (Bool-cases (ltb q j)) [
        | inl e ↦ elim (Bool-cases (ltb r j)) [
          | inl e' ↦ group q r lq (ground (arith, e)) lr (ground (arith, e'))
          | inr e' ↦
              let is : r ≡ j = ground (arith, e', hr) in
              subst (λ i. Close t x.n (get_or sa q 0) (get_or sa i 0)) (sym is)
                (last q lq (ground (arith, e)))
        ]
        | inr e ↦
            let here : q ≡ j = ground (arith, e, hq) in
            elim (Bool-cases (ltb r j)) [
              | inl e' ↦
                  subst (λ i. Close t x.n (get_or sa i 0) (get_or sa r 0)) (sym here)
                    (sym-Close x.n (get_or sa r 0) (get_or sa j 0) (last r lr (ground (arith, e'))))
              | inr e' ↦
                  let is : r ≡ j = ground (arith, e', hr) in
                  let one = last (j - 1) (omega (arith, early)) (omega (arith, early)) in
                  subst (λ i. Close t x.n (get_or sa i 0) (get_or sa r 0)) (sym here)
                    (subst (λ i. Close t x.n (get_or sa j 0) (get_or sa i 0)) (sym is)
                      (trans-Close x.n (get_or sa j 0) (get_or sa (j - 1) 0) (get_or sa j 0)
                        (sym-Close x.n (get_or sa (j - 1) 0) (get_or sa j 0) one) one))
            ]
      ]

  -- The elements from `a` to before `j` are moved among their places.
  pub record Moved (a j : ℕ) (sa sa' : List ℕ) : Type 0 where
    pub from :
        (q : ℕ)
        → q < j
        → (r : ℕ) × (get_or sa' q 0 ≡ get_or sa r 0) × ((r ≡ q) ⊎ ((a ≤ r) × (r < j)))
    pub later : (q : ℕ) → j ≤ q → get_or sa' q 0 ≡ get_or sa q 0
    pub size : length sa' ≡ length sa

  pub Moved-Group :
      {m a b j : ℕ} {sa sa' : List ℕ} → b ≤ a → Moved a j sa sa' → Group sa m b j → Group sa' m b j
  Moved-Group {m} {a} {b} {j} {sa} {sa'} le moved group q r lq hq lr hr =
      let (q', at_q, in_q) = moved.from q hq in
      let (r', at_r, in_r) = moved.from r hr in
      subst (λ i. Close t m i (get_or sa' r 0)) (sym at_q)
        (subst (λ i. Close t m (get_or sa q' 0) i) (sym at_r)
          (group q' r' (low q q' lq in_q) (high q q' hq in_q) (low r r' lr in_r)
            (high r r' hr in_r)))
    where
      low : (q q' : ℕ) → b ≤ q → (q' ≡ q) ⊎ ((a ≤ q') × (q' < j)) → b ≤ q'
      low q q' h (inl e) = omega (arith, h, e)
      low q q' h (inr (g, _)) = omega (arith, g, le)

      high : (q q' : ℕ) → q < j → (q' ≡ q) ⊎ ((a ≤ q') × (q' < j)) → q' < j
      high q q' h (inl e) = omega (arith, h, e)
      high q q' h (inr (_, g)) = g

  pub Moved-IsStack :
      {max j a c h : ℕ} {sa sa' : List ℕ} (stack : List Item)
      → c ≤ a
      → Moved a j sa sa'
      → IsStack max sa j c h stack
      → IsStack max sa' j c h stack
  Moved-IsStack [] le moved bottom = bottom
  Moved-IsStack (x ∷ stack) le moved (opened in_a in_h in_max early group below) =
      opened in_a in_h in_max early (Moved-Group (omega (arith, in_a, le)) moved group)
        (Moved-IsStack stack (omega (arith, in_a, le)) moved below)
