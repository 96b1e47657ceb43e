-- ===== src/Segments/Calls.antt =====
-- What a call for a segment does to the suffix array.
use lz.Prelude.{
  ℕ, ◌+◌, ◌-◌, ◌≤◌, ◌<◌, ◌≡◌, refl, sym, ◌∙◌, ◌⊎◌, arith, inl, inr, List, [], ◌++◌, length, take,
  drop, get_or, ltb, Bool-cases, some, length-take, length-drop, length-append, get_or-append_lt,
  get_or-append_add, get_or-take, get_or-drop,
}
use mathlib.Core.Path.{subst}
use lz.Lz.{Bytes}
use lz.Slices.Laws.{slice_from_lem, slice_to_lem}
use lz.Segments.{Callback, call}
use lz.Segments.Stack.{Close, Group, Moved}

-- What the function that is called may rely on, and what it is to keep: it never panics, it leaves elements of the
-- segment in it, and its state keeps `Q`.
pub record IsCallback {ℓ} {S : Type ℓ} (t : Bytes) (Q : S → Type 0) (min_len max_len : ℕ)
    (f : Callback S) : Type ℓ where
  pub returns :
      (m : ℕ) (part : List ℕ) (s : S)
      → min_len ≤ m
      → m ≤ max_len
      → Group t part m 0 (length part)
      → Q s
      → (part' : List ℕ) × (s' : S) × (f m part s ≡ some (part', s'))
        × (length part' ≡ length part)
        × ((q : ℕ)
            → q < length part
            → (r : ℕ) × (r < length part) × (get_or part' q 0 ≡ get_or part r 0))
        × Q s'

-- The array with a part rewritten
module _ (t : Bytes) (a b : ℕ) (sa part' : List ℕ) (le : a ≤ b) (within : b ≤ length sa) where
  abbrev pub part : List ℕ
  part = drop a (take b sa)

  abbrev pub rewritten : List ℕ
  rewritten = take a sa ++ (part' ++ drop b sa)

  length-front : length (take a sa) ≡ a
  length-front = omega (arith, length-take a sa, le, within)

  pub length-part : length part ≡ b - a
  length-part = omega (arith, length-drop a (take b sa), length-take b sa, within)

  pub get_or-part : (q : ℕ) → a + q < b → get_or part q 0 ≡ get_or sa (a + q) 0
  get_or-part q h = get_or-drop a q (a + q) (take b sa) 0 refl ∙ get_or-take b (a + q) sa 0 h

  pub rewritten-Moved :
      length part' ≡ length part
      → ((q : ℕ)
          → q < length part
          → (r : ℕ) × (r < length part) × (get_or part' q 0 ≡ get_or part r 0))
      → Moved t a b sa rewritten
  rewritten-Moved size kept = record {
    from = from;
    later = λ q h.
        get_or-append_add (take a sa) (part' ++ drop b sa) q (q - a) 0
          (omega (arith, length-front, h, le))
        ∙ get_or-append_add part' (drop b sa) (q - a) (q - b) 0
            (omega (arith, size, length-part, h, le))
        ∙ get_or-drop b (q - b) q sa 0 (omega (arith, h));
    size = omega (
      arith,
      length-append (take a sa) (part' ++ drop b sa),
      length-append part' (drop b sa),
      length-front,
      size,
      length-part,
      length-drop b sa,
      le,
      within,
    );
  }
    where
      from :
          (q : ℕ)
          → q < b
          → (r : ℕ) × (get_or rewritten q 0 ≡ get_or sa r 0) × ((r ≡ q) ⊎ ((a ≤ r) × (r < b)))
      from q h = elim (Bool-cases (ltb q a)) [
        | inl e ↦ (
          q,
          get_or-append_lt (take a sa) (part' ++ drop b sa) q 0 (ground (arith, length-front, e))
              ∙ get_or-take a q sa 0 (ground (arith, e)),
          inl refl,
        )
        | inr e ↦
            let here : q - a < length part = ground (arith, e, h, length-part) in
            let (r, in_r, at) = kept (q - a) here in
            (
              a + r,
              get_or-append_add (take a sa) (part' ++ drop b sa) q (q - a) 0
                    (ground (arith, length-front, e))
                  ∙ get_or-append_lt part' (drop b sa) (q - a) 0 (omega (arith, size, here))
                  ∙ at
                  ∙ get_or-part r (omega (arith, in_r, length-part)),
              inr (omega arith, omega (arith, in_r, length-part)),
            )
      ]

module _ {ℓ} {S : Type ℓ} (t : Bytes) (Q : S → Type 0) (min_len max_len : ℕ) (f : Callback S)
    (c : IsCallback t Q min_len max_len f) where
  pub call_lem :
      (m a b : ℕ) (sa : List ℕ) (s : S)
      → min_len ≤ m
      → m ≤ max_len
      → a ≤ b
      → b ≤ length sa
      → Group t sa m a b
      → Q s
      → (sa' : List ℕ) × (s' : S) × (call f m a b sa s ≡ some (sa', s')) × Moved t a b sa sa' × Q s'
  unfolding call
  call_lem m a b sa s low high le within group holds =
      let size = length-part t a b sa [] le within in
      let get = get_or-part t a b sa [] le within in
      let near : Group t (part t a b sa [] le within) m 0 (length (part t a b sa [] le within)) =
        λ q r _ hq _ hr.
          subst (λ i. Close t m i (get_or (part t a b sa [] le within) r 0))
            (sym (get q (omega (arith, hq, size))))
            (subst (λ i. Close t m (get_or sa (a + q) 0) i) (sym (get r (omega (arith, hr, size))))
              (group (a + q) (a + r) (omega arith) (omega (arith, hq, size)) (omega arith)
                (omega (arith, hr, size)))) in
      let (part', s', run, long, kept, holds') =
        c.returns m (drop a (take b sa)) s low high near holds in
      (
        take a sa ++ (part' ++ drop b sa),
        s',
        rw
            (
              slice_to_lem b sa within,
              slice_from_lem a (take b sa) (omega (arith, length-take b sa, le, within)),
              run,
            )
            refl,
        rewritten-Moved t a b sa part' le within long kept,
        holds',
      )
