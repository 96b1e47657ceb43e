-- ===== src/Segments/Scan.antt =====
-- The scan calls its function on groups of suffixes that have as many bytes in common as it says.
use lz.Prelude.{
  ℕ, ◌+◌, ◌-◌, ◌≤◌, ◌<◌, ◌≡◌, refl, sym, ◌∙◌, arith, inl, inr, List, [], ◌∷◌, length, get_or, ltb,
  leb, ◌==◌, Bool-cases, if◌then◌else◌, none, some,
}
use mathlib.Core.Path.{subst}
use lz.Lz.{Bytes}
use lz.Segments.{Callback, Item, call, pop}
use lz.Segments.Stack.{
  Close, trans-Close, sym-Close, Group, IsStack, bottom, opened, join_lem, Moved, Moved-IsStack,
}
use lz.Segments.Calls.{IsCallback, call_lem}

module _ {ℓ} {S : Type ℓ} (t : Bytes) (Q : S → Type 0) (min_len max_len : ℕ) (f : Callback S)
    (c : IsCallback t Q min_len max_len f) where
  -- The call for the top of the stack, if it is long enough
  top_lem :
      (x : Item) (j : ℕ) (sa : List ℕ) (s : S)
      → x.n ≤ max_len
      → x.j < j
      → j ≤ length sa
      → Group t sa x.n x.j j
      → Q s
      → (sa' : List ℕ) × (s' : S) × ((if leb min_len x.n
            then call f x.n x.j j sa s
            else some (sa, s))
          ≡ some (sa', s'))
        × Moved t x.j j sa sa'
        × Q s'
  top_lem x j sa s high early within group holds = elim (Bool-cases (leb min_len x.n)) [
    | inl e ↦
        let (sa', s', run, moved, holds') =
          call_lem t Q min_len max_len f c x.n x.j j sa s (ground (arith, e)) high
            (omega (arith, early)) within group holds in
        (sa', s', rw e run, moved, holds')
    | inr e ↦ (
      sa,
      s,
      rw e refl,
      record { from = λ q h. (q, refl, inl refl); later = λ q h. refl; size = refl },
      holds,
    )
  ]

  -- The last round takes all segments off the stack.
  pub finish_lem :
      (stack : List Item) (j a h : ℕ) (sa : List ℕ) (s : S)
      → j ≤ length sa
      → IsStack t max_len sa j a h stack
      → Q s
      → (sa' : List ℕ) × (s' : S) × (pop f min_len none j stack sa s ≡ some ([], sa', s'))
        × (length sa' ≡ length sa)
        × Q s'
  unfolding pop
  finish_lem [] j a h sa s within bottom holds = (sa, s, refl, refl, holds)
  finish_lem (x ∷ stack) j a h sa s within (opened in_a in_h high early group below) holds =
      let (sa', s', run, moved, holds') = top_lem x j sa s high early within group holds in
      let (sa'', s'', rest, size, holds'') =
        finish_lem stack j x.j x.n sa' s' (omega (arith, within, moved.size))
          (Moved-IsStack t stack (omega arith) moved below) holds' in
      (sa'', s'', rw run rest, size ∙ moved.size, holds'')

  -- The array and the stack after a round at `j`
  pub record Popped (j v : ℕ) (sa : List ℕ) (stack' : List Item) (sa' : List ℕ) (s' : S)
      : Type 0 where
    pub stands : IsStack t max_len sa' (j + 1) j v stack'
    pub holds : Q s'
    pub size : length sa' ≡ length sa
    pub later : (q : ℕ) → j ≤ q → get_or sa' q 0 ≡ get_or sa q 0

  -- A group of two
  pair_lem :
      (j v : ℕ) (sa : List ℕ)
      → 0 < j
      → Close t v (get_or sa (j - 1) 0) (get_or sa j 0)
      → Group t sa v (j - 1) (j + 1)
  pair_lem j v sa pos near q r lq hq lr hr =
      trans-Close t v (get_or sa q 0) (get_or sa j 0) (get_or sa r 0) (to q lq hq)
        (sym-Close t v (get_or sa r 0) (get_or sa j 0) (to r lr hr))
    where
      to : (q : ℕ) → j - 1 ≤ q → q < j + 1 → Close t v (get_or sa q 0) (get_or sa j 0)
      to q lq hq = elim (Bool-cases (q == j)) [
        | inl e ↦
            let is : q ≡ j = ground (arith, e) in
            subst (λ i. Close t v (get_or sa i 0) (get_or sa j 0)) (sym is)
              (trans-Close t v (get_or sa j 0) (get_or sa (j - 1) 0) (get_or sa j 0)
                (sym-Close t v (get_or sa (j - 1) 0) (get_or sa j 0) near) near)
        | inr e ↦
            let is : q ≡ j - 1 = ground (arith, e, lq, hq, pos) in
            subst (λ i. Close t v (get_or sa i 0) (get_or sa j 0)) (sym is) near
      ]

  -- A moved array has the same in common at `j`, if its part has more.
  Moved-near :
      (x : Item) (j v : ℕ) {sa sa' : List ℕ}
      → x.j < j
      → v ≤ x.n
      → Group t sa x.n x.j j
      → Moved t x.j j sa sa'
      → Close t v (get_or sa (j - 1) 0) (get_or sa j 0)
      → Close t v (get_or sa' (j - 1) 0) (get_or sa' j 0)
  Moved-near x j v {sa} {sa'} early le group moved near =
      let (r, at, where_from) = moved.from (j - 1) (omega (arith, early)) in
      subst (λ i. Close t v i (get_or sa' j 0)) (sym at)
        (subst (λ i. Close t v (get_or sa r 0) i) (sym (moved.later j (omega arith)))
          (elim where_from [
            | inl e ↦ subst (λ i. Close t v (get_or sa i 0) (get_or sa j 0)) (sym e) near
            | inr (lr, hr) ↦
                trans-Close t v (get_or sa r 0) (get_or sa (j - 1) 0) (get_or sa j 0)
                  (omega (
                    arith,
                    le,
                    group r (j - 1) lr hr (omega (arith, early)) (omega (arith, early)),
                  ))
                  near
          ]))

  pub round_lem :
      (stack : List Item) (j v a h : ℕ) (sa : List ℕ) (s : S)
      → 0 < j
      → j < length sa
      → v ≤ max_len
      → Close t v (get_or sa (j - 1) 0) (get_or sa j 0)
      → IsStack t max_len sa j a h stack
      → Q s
      → (stack' : List Item) × (sa' : List ℕ) × (s' : S) × (pop f min_len (some v) j stack sa s
          ≡ some (stack', sa', s'))
        × Popped j v sa stack' sa' s'
  unfolding pop
  round_lem [] j v a h sa s pos within top near bottom holds =
      ([], sa, s, refl, record { stands = bottom; holds = holds; size = refl; later = λ q g. refl })
  round_lem (x ∷ stack) j v a h sa s pos within top near (opened in_a in_h high early group below)
        holds =
      elim (Bool-cases (ltb x.n v)) [
        | inl e ↦
            let joined =
              join_lem t max_len v sa j (j - 1) v (x ∷ stack) (omega arith) near
                (opened (omega (arith, early)) (ground (arith, e)) high early group below) in
            (
              record { n = v; j = j - 1 } ∷ x ∷ stack,
              sa,
              s,
              rw e refl,
              record {
                stands =
                    opened (omega arith) (omega arith) top (omega (arith, pos))
                      (pair_lem j v sa pos near) joined;
                holds = holds;
                size = refl;
                later = λ q g. refl;
              },
            )
        | inr e ↦ elim (Bool-cases (v == x.n)) [
          | inl e' ↦ (
            x ∷ stack,
            sa,
            s,
            rw (e, e') refl,
            record {
              stands =
                  join_lem t max_len v sa j j v (x ∷ stack) (omega arith) near
                    (opened (omega (arith, early)) (ground (arith, e')) high early group below);
              holds = holds;
              size = refl;
              later = λ q g. refl;
            },
          )
          | inr e' ↦
              let (sa', s', run, moved, holds') =
                top_lem x j sa s high early (omega (arith, within)) group holds in
              let (stack', sa'', s'', rest, done) =
                round_lem stack j v x.j x.n sa' s' pos (omega (arith, within, moved.size)) top
                  (Moved-near x j v early (ground (arith, e)) group moved near)
                  (Moved-IsStack t stack (omega arith) moved below) holds' in
              (
                stack',
                sa'',
                s'',
                rw (e, e', run) rest,
                record {
                  stands = done.stands;
                  holds = done.holds;
                  size = done.size ∙ moved.size;
                  later = λ q g. done.later q g ∙ moved.later q g;
                },
              )
        ]
      ]
