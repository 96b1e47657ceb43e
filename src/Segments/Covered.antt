-- ===== src/Segments/Covered.antt =====
-- suffix/segments.go: the calls that a whole scan makes, as a list.
use lz.Prelude.{
  ℕ, zero, suc, ◌+◌, ◌≤◌, ◌<◌, ◌≡◌, refl, sym, ◌⊎◌, arith, inl, inr, List, [], ◌∷◌, ◌++◌, length,
  drop, get_or, ltb, leb, ◌==◌, not, Bool-cases, none, some, some-inj, bind-some, get_or-drop,
  length-drop,
}
use mathlib.Core.Path.{subst}
use lz.Segments.{Callback, Item, pop, scan, scan_lcp, segments}
use lz.Segments.Trace.{
  Call, Covers, Covers-left, Covers-right, On, top, under, cut, Runs, no_call, Runs-append, Done,
  finish_trace, Round, Round-trace,
}
use lz.Suffix.{max_int32}

module _ {ℓ} {S : Type ℓ} (f : Callback S) (min_len max_len : ℕ) where
  -- The calls from `j` on, for the open segments and for the rest of the table
  record Traced (lcp : List ℕ) (j : ℕ) (stack : List Item) (sa : List ℕ) (s : S) (y : List ℕ × S)
      : Type ℓ where
    calls : List Call
    runs : Runs f calls sa s y.0 y.1
    opened : (n a : ℕ) → On n a stack → Done f min_len n a j calls
    listed :
        (k : ℕ)
        → k < length lcp
        → min_len ≤ cut max_len (get_or lcp k 0)
        → Covers (cut max_len (get_or lcp k 0)) (j + k) calls

  -- The scan goes on, since the lowest item stays.
  goes_on :
      (lcp : List ℕ) (j : ℕ) (stack' : List Item) (sa' : List ℕ) (s' : S) (y : List ℕ × S)
      → On 0 0 stack'
      → (let next = scan f min_len max_len lcp (j + 1) stack' sa' s' in
          elim stack' [ [] ↦ some (sa', s') | _ ∷ _ ↦ next ])
        ≡ some y
      → scan f min_len max_len lcp (j + 1) stack' sa' s' ≡ some y
  goes_on lcp j [] sa' s' y base run = elim base [ ]
  goes_on lcp j (x ∷ stack') sa' s' y base run = run

  scan_trace :
      (lcp : List ℕ) (j : ℕ) (stack : List Item) (sa : List ℕ) (s : S) (y : List ℕ × S)
      → 0 < j
      → On 0 0 stack
      → ((n a : ℕ) → On n a stack → a < j)
      → scan f min_len max_len lcp j stack sa s ≡ some y
      → Traced lcp j stack sa s y
  unfolding scan
  scan_trace [] j stack sa s y pos base starts run =
      let (z, e, last) =
        bind-some (pop f min_len none j stack sa s) (λ (_, sa', s'). some (sa', s')) y run in
      let (cs, runs, all) = finish_trace f min_len stack j sa s z e in
      record {
        calls = cs;
        runs = subst (λ v. Runs f cs sa s v.0 v.1) (some-inj (z.1, z.2) last) runs;
        opened = all;
        listed = λ k h low. absurd (omega (arith, h));
      }
  scan_trace (n ∷ lcp) j stack sa s y pos base starts run =
      let v = cut max_len n in
      let (z, e, last) =
        bind-some (pop f min_len (some v) j stack sa s)
          (λ (stack', sa', s').
            let next = scan f min_len max_len lcp (j + 1) stack' sa' s' in
            elim stack' [ [] ↦ some (sa', s') | _ ∷ _ ↦ next ])
          y run in
      let r = Round-trace f min_len stack v j sa s z pos base starts e in
      let base' = stays v z.0 (r.kept 0 0 base) in
      let rest =
        scan_trace lcp (j + 1) z.0 z.1 z.2 y (omega arith) base'
          (λ m a on. omega (arith, r.starts m a on)) (goes_on lcp j z.0 z.1 z.2 y base' last) in
      record {
        calls = r.calls ++ rest.calls;
        runs = Runs-append f r.calls rest.calls r.runs rest.runs;
        opened = λ m a on. either r.calls rest.calls (r.kept m a on) rest.opened;
        listed = λ k h low. each r rest k h low;
      }
    where
      stays :
          (v : ℕ) (out : List Item)
          → {cs : List Call} → (On 0 0 out) ⊎ ((v < 0) × Done f min_len 0 0 j cs)
          → On 0 0 out
      stays v out (inl on) = on
      stays v out (inr (high, _)) = absurd (omega (arith, high))

      either :
          {v m a : ℕ} {out : List Item} (cs ds : List Call)
          → (On m a out) ⊎ ((v < m) × Done f min_len m a j cs)
          → ((k b : ℕ) → On k b out → Done f min_len k b (j + 1) ds)
          → Done f min_len m a j (cs ++ ds)
      either {m} {a} cs ds (inl on) all low q lo hi =
          Covers-right cs ds (all m a on low q lo (omega (arith, hi)))
      either cs ds (inr (_, had)) all low q lo hi = Covers-left cs ds (had low q lo hi)

      each :
          {z : List Item × List ℕ × S} (r : Round f min_len (cut max_len n) j stack sa s z)
          (rest : Traced lcp (j + 1) z.0 z.1 z.2 y) (k : ℕ)
          → k < length (n ∷ lcp)
          → min_len ≤ cut max_len (get_or (n ∷ lcp) k 0)
          → Covers (cut max_len (get_or (n ∷ lcp) k 0)) (j + k) (r.calls ++ rest.calls)
      each r rest zero h low = Covers-right r.calls rest.calls (
          rest.opened (cut max_len n) r.begin r.open_now low (j + 0) (omega (arith, r.early))
            (omega arith))
      each r rest (suc k) h low =
          let here : j + 1 + k ≡ j + suc k = omega arith in
          subst (λ q. Covers (cut max_len (get_or lcp k 0)) q (r.calls ++ rest.calls)) here
            (Covers-right r.calls rest.calls (rest.listed k (omega (arith, h)) low))

  -- The calls of `Segments`: for each place whose height, cut at `maxLen`, is `minLen` at least, there is one for that
  -- length whose part holds the place and the one before.
  pub segments_trace :
      (sa lcp : List ℕ) (s : S) (y : List ℕ × S)
      → segments f sa lcp min_len max_len s ≡ some y
      → (calls : List Call) × Runs f calls sa s y.0 y.1
        × ((q : ℕ)
            → 0 < q
            → q < length lcp
            → min_len ≤ cut max_len (get_or lcp q 0)
            → Covers (cut max_len (get_or lcp q 0)) q calls)
  unfolding segments scan_lcp
  segments_trace sa lcp s y run = elim (Bool-cases (length sa == length lcp)) [
    | inr e ↦ absurd (impossible (rw (e, not) at run))
    | inl e ↦ elim (Bool-cases (leb min_len max_int32)) [
      | inr e' ↦ absurd (impossible (rw (e, e', not) at run))
      | inl e' ↦ elim (Bool-cases (leb max_len max_int32)) [
        | inr e'' ↦ absurd (impossible (rw (e, e', e'', not) at run))
        | inl e'' ↦ elim (Bool-cases (ltb max_len min_len)) [
          | inl o ↦ (
            [],
            subst (λ v. Runs f [] sa s v.0 v.1) (some-inj (sa, s) (rw (e, e', e'', o, not) at run))
                no_call,
            λ q pos h low. absurd (ground (arith, o, low)),
          )
          | inr o ↦
              let r =
                scan_trace (drop 1 lcp) 1 (record { n = 0; j = 0 } ∷ []) sa s y (omega arith)
                  (top refl refl) first (rw (e, e', e'', o, not) at run) in
              (r.calls, r.runs, λ q pos h low. place r q pos h low)
        ]
      ]
    ]
  ]
    where
      impossible : {v : List ℕ × S} → none ≡ some v → ⊥
      impossible h = cc

      first : (n a : ℕ) → On n a (record { n = 0; j = 0 } ∷ []) → a < 1
      first n a (top en ej) = omega (arith, ej)
      first n a (under on) = elim on [ ]

      place :
          (r : Traced (drop 1 lcp) 1 (record { n = 0; j = 0 } ∷ []) sa s y) (q : ℕ)
          → 0 < q
          → q < length lcp
          → min_len ≤ cut max_len (get_or lcp q 0)
          → Covers (cut max_len (get_or lcp q 0)) q r.calls
      place r zero pos h low = absurd (omega (arith, pos))
      place r (suc k) pos h low =
          let same : get_or (drop 1 lcp) k 0 ≡ get_or lcp (suc k) 0 =
            get_or-drop 1 k (suc k) lcp 0 (omega arith) in
          let next : 1 + k ≡ suc k = omega arith in
          subst (λ q. Covers (cut max_len (get_or lcp (suc k) 0)) q r.calls) next
            (subst (λ n. Covers (cut max_len n) (1 + k) r.calls) same
              (r.listed k (omega (arith, h, length-drop 1 lcp))
                (subst (λ n. min_len ≤ cut max_len n) (sym same) low)))
