-- ===== src/Suffix/Phi.antt =====
-- A suffix shares with its neighbour in the order at most one byte more than the next suffix with its own.
use lz.Prelude.{
  ℕ, suc, ◌≤◌, ◌<◌, ◌≡◌, refl, sym, ap, ◌∙◌, arith, inl, inr, List, ◌∷◌, length, drop, get_or, ltb,
  ◌==◌, Bool-cases, if◌then◌else◌, ap_at, drop-cons, length-drop,
}
use mathlib.Core.Path.{subst}
use lz.Lz.{Bytes}
use lz.Bytes.Prefix.{prefix, prefix-bound, prefix_comm}
use lz.Suffix.Inverse.{IsInverse}
use lz.Suffix.Order.{Lex, asym-Lex, tail-Lex, between, IsSuffixArray}

module _ (t : Bytes) (sa isa : List ℕ) (x : IsSuffixArray t sa) (inv : IsInverse sa isa) where
  abbrev n : ℕ
  n = length t

  abbrev suffix : ℕ → Bytes
  suffix i = drop i t

  abbrev rank : ℕ → ℕ
  rank i = get_or isa i 0

  abbrev place : ℕ → ℕ
  place q = get_or sa q 0

  size : length sa ≡ n
  size = x.lists.size

  -- What two suffixes of the text have in common, from the next positions on
  step_prefix :
      (i j : ℕ)
      → i < n
      → j < n
      → 0 < prefix (suffix i) (suffix j)
      → (get_or t i 0 ≡ get_or t j 0)
        × (prefix (suffix i) (suffix j) ≡ suc (prefix (suffix (suc i)) (suffix (suc j))))
  unfolding prefix
  step_prefix i j hi hj pos =
      let ci = drop-cons i t 0 hi in
      let cj = drop-cons j t 0 hj in
      let whole : prefix (suffix i) (suffix j) ≡ (
          if get_or t i 0 == get_or t j 0
          then suc (prefix (suffix (suc i)) (suffix (suc j)))
          else 0) =
        ap (λ p. prefix p (suffix j)) ci ∙ ap (prefix (get_or t i 0 ∷ suffix (suc i))) cj in
      elim (Bool-cases (get_or t i 0 == get_or t j 0)) [
        | inl e ↦ (ground (arith, e), whole ∙ rw e refl)
        | inr e ↦ absurd (ground (arith, pos, whole, e))
      ]

  longer : (a b : ℕ) → 0 < prefix (suffix a) (suffix b) → b < n
  longer a b pos = omega (arith, pos, prefix-bound (suffix a) (suffix b), length-drop b t)

  lex_at :
      (q r : ℕ) {a b : ℕ} → q < r → r < n → place q ≡ a → place r ≡ b → Lex (suffix a) (suffix b)
  lex_at q r {a} {b} lt hr ea eb =
      subst (λ m. Lex (suffix m) (suffix b)) ea
        (subst (λ m. Lex (suffix (place q)) (suffix m)) eb (x.ordered q r lt hr))

  -- Whatever suffix stands before that of `a` shares no more with it than its neighbour.
  most :
      (a b k : ℕ)
      → a < n
      → b < n
      → rank a ≡ suc k
      → Lex (suffix b) (suffix a)
      → prefix (suffix a) (suffix b) ≤ prefix (suffix a) (suffix (place k))
  most a b k ha hb e lex =
      let (in_a, at_a) = inv.rank a (omega (arith, ha, size)) in
      let (in_b, at_b) = inv.rank b (omega (arith, hb, size)) in
      let here : place (suc k) ≡ a = ap_at place (suc k) (rank a) (sym e) ∙ at_a in
      elim (Bool-cases (ltb (rank b) k)) [
        | inl before ↦
            let inner : prefix (suffix b) (suffix a) ≤ prefix (suffix (place k)) (suffix a) =
              between
                (lex_at (rank b) k (ground (arith, before)) (omega (arith, in_a, e, size)) at_b
                  refl)
                (lex_at k (suc k) (omega arith) (omega (arith, in_a, e, size)) refl here) in
            omega (
              arith,
              inner,
              prefix_comm (suffix b) (suffix a),
              prefix_comm (suffix (place k)) (suffix a),
            )
        | inr behind ↦ elim (Bool-cases (rank b == k)) [
          | inl there ↦
              let b_at : b ≡ place k = sym at_b ∙ ap_at place (rank b) k (ground (arith, there)) in
              omega (arith, ap_at (λ m. prefix (suffix a) (suffix m)) b (place k) b_at)
          | inr apart ↦ elim (Bool-cases (rank b == suc k)) [
            | inl same ↦
                let a_is : a ≡ b =
                  sym here ∙ ap_at place (suc k) (rank b) (ground (arith, same)) ∙ at_b in
                let self : Lex (suffix a) (suffix a) =
                  subst (λ m. Lex (suffix m) (suffix a)) (sym a_is) lex in
                absurd (asym-Lex self self)
            | inr after ↦ absurd (
                asym-Lex lex (
                  lex_at (suc k) (rank b) (ground (arith, behind, apart, after))
                    (omega (arith, in_b, size)) here at_b))
          ]
        ]
      ]

  -- The suffix at the place before that of the next position shares at least as much with it.
  pub carried :
      (i k k' : ℕ)
      → i < n
      → suc i < n
      → rank i ≡ suc k
      → rank (suc i) ≡ suc k'
      → prefix (suffix i) (suffix (place k)) ≤ suc (prefix (suffix (suc i)) (suffix (place k')))
  carried i k k' hi hi' e e' = elim (Bool-cases (ltb 1 (prefix (suffix i) (suffix (place k))))) [
    | inr few ↦ ground (arith, few)
    | inl many ↦
        let j = place k in
        let (in_sa, back_i) = inv.rank i (omega (arith, hi, size)) in
        let (in_sa', back_i') = inv.rank (suc i) (omega (arith, hi', size)) in
        let hj : j < n = x.lists.inside k (omega (arith, in_sa, e, size)) in
        let (same, split) = step_prefix i j hi hj (ground (arith, many)) in
        let hj' : suc j < n = longer (suc i) (suc j) (ground (arith, many, split)) in
        let order : Lex (suffix j) (suffix i) =
          subst (λ m. Lex (suffix j) (suffix m)) (ap_at place (suc k) (rank i) (sym e) ∙ back_i)
            (x.ordered k (suc k) (omega arith) (omega (arith, in_sa, e, size))) in
        let tails : Lex (suffix (suc j)) (suffix (suc i)) = tail-Lex (sym same) (
          subst (λ p. Lex p (get_or t i 0 ∷ suffix (suc i))) (drop-cons j t 0 hj)
            (subst (λ p. Lex (suffix j) p) (drop-cons i t 0 hi) order)) in
        omega (arith, split, most (suc i) (suc j) k' hi' hj' e' tails)
  ]
