-- ===== src/OptSuffixParser/Relax.antt =====
-- What `shortestPath` knows of the positions: an edge of the graph leads to each, or a literal.
use lz.Prelude.{
  ℕ, zero, suc, ◌+◌, ◌-◌, ◌%◌, ◌^◌, ◌≤◌, ◌<◌, ◌≡◌, refl, sym, arith, inl, inr, some, List, [], ◌∷◌,
  length, set, get_or, get_elem?, ltb, Bool-cases, length-set, get_elem?-eq-get_or,
}
use mathlib.Core.Path.{subst}
use lz.Lz.{Bytes}
use lz.OptSuffixParser.{Edge, Opt, literals_only, relax_lengths, relax_edges, relax}
use lz.OptSuffixParser.Edges.{IsEdge, literals, shorter-IsEdge, AreEdges, no_edge, edge, set-all}

abbrev pub no_opt : Opt
no_opt = record { m = 0; o = 0; c = 0 }

-- A round of the loop over the positions, from what its calls return
relax_round :
    (cost : ℕ → ℕ → ℕ) (min_len n : ℕ) (q : List Edge) (qs : List (List Edge)) (i : ℕ)
    (d d' d'' : List Opt) (x : Opt)
    → get_elem? d i ≡ some x
    → (n - i) % 2 ^ 32 ≡ n - i
    → relax_edges cost min_len (n - i) i x.c q d ≡ some d'
    → relax cost min_len n qs (i + 1) d' ≡ some d''
    → relax cost min_len n (q ∷ qs) i d ≡ some d''
unfolding relax
relax_round cost min_len n q qs i d d' d'' x seen wrap run rest = rw (seen, wrap, run) rest

module _ (p : Bytes) (window w n : ℕ) (cost : ℕ → ℕ → ℕ) where
  -- The edge to a position
  pub record Reaches (i : ℕ) (x : Opt) : Type 0 where
    pub pos : 0 < x.m
    pub within : x.m ≤ i
    pub real : IsEdge p window (w + (i - x.m)) x.m x.o

  abbrev pub Reached : ℕ → Opt → Type 0
  Reached i x = 0 < i → Reaches i x

  pub record AreOpts (d : List Opt) : Type 0 where
    pub size : length d ≡ n + 1
    pub reached : (q : ℕ) → q < length d → Reached q (get_or d q no_opt)

  pub literals_only-size : (i k : ℕ) → length (literals_only cost i k) ≡ k
  unfolding literals_only
  literals_only-size i zero = refl
  literals_only-size i (suc k) = omega (arith, literals_only-size (i + 1) k)

  literals_only-at :
      (i k q : ℕ)
      → q < k
      → (get_or (literals_only cost i k) q no_opt).m ≡ 1
        × (get_or (literals_only cost i k) q no_opt).o ≡ 0
  unfolding literals_only
  literals_only-at i zero q h = absurd (omega (arith, h))
  literals_only-at i (suc k) zero h = (refl, refl)
  literals_only-at i (suc k) (suc q) h = literals_only-at (i + 1) k q (omega (arith, h))

  pub start-AreOpts : AreOpts (no_opt ∷ literals_only cost 1 n)
  start-AreOpts = record { size = omega (arith, literals_only-size 1 n); reached = reached }
    where
      reached :
          (q : ℕ)
          → q < length (no_opt ∷ literals_only cost 1 n)
          → Reached q (get_or (no_opt ∷ literals_only cost 1 n) q no_opt)
      reached zero h pos = absurd (omega (arith, pos))
      reached (suc q) h pos =
          let (one, none_back) =
            literals_only-at 1 n q (omega (arith, h, literals_only-size 1 n)) in
          record {
            pos = omega (arith, one);
            within = omega (arith, one);
            real = literals none_back;
          }

  -- A better edge to a position
  lengths-AreOpts :
      (count m i o ci : ℕ) (d : List Opt)
      → 0 < m
      → ((k : ℕ) → m ≤ k → k < m + count → (i + k ≤ n) × IsEdge p window (w + i) k o)
      → AreOpts d
      → (d' : List Opt) × (relax_lengths cost count m i o ci d ≡ some d') × AreOpts d'
  unfolding relax_lengths
  lengths-AreOpts zero m i o ci d pos real ok = (d, refl, ok)
  lengths-AreOpts (suc count) m i o ci d pos real ok =
      let (room, here) = real m (omega arith) (omega arith) in
      let in_d : i + m < length d = omega (arith, room, ok.size) in
      let y = get_or d (i + m) no_opt in
      let c = (ci + cost m o) % 2 ^ 64 in
      let x : Opt = record { m = m; o = o; c = c } in
      let better : AreOpts (set d (i + m) x) = record {
        size = omega (arith, length-set d (i + m) x, ok.size);
        reached = set-all Reached d (i + m) x no_opt ok.reached (λ _. record {
          pos = pos;
          within = omega arith;
          real = subst (λ j. IsEdge p window j m o) (sym (back i m)) here;
        });
      } in
      let more : (k : ℕ)
          → m + 1 ≤ k
          → k < m + 1 + count
          → (i + k ≤ n) × IsEdge p window (w + i) k o =
        λ k low high. real k (omega (arith, low)) (omega (arith, high)) in
      let seen = get_elem?-eq-get_or d (i + m) no_opt in_d in
      elim (Bool-cases (ltb c y.c)) [
        | inl e ↦
            let (d', run, ok') =
              lengths-AreOpts count (m + 1) i o ci (set d (i + m) x) (omega arith) more better in
            (d', rw (seen, e) run, ok')
        | inr e ↦
            let (d', run, ok') = lengths-AreOpts count (m + 1) i o ci d (omega arith) more ok in
            (d', rw (seen, e) run, ok')
      ]
    where
      back : (i m : ℕ) → w + (i + m - m) ≡ w + i
      back i m = omega arith

  edges-AreOpts :
      (min_len i ci : ℕ) (q : List Edge) (d : List Opt)
      → 0 < min_len
      → i ≤ n
      → AreEdges p window (w + i) q
      → AreOpts d
      → (d' : List Opt) × (relax_edges cost min_len (n - i) i ci q d ≡ some d') × AreOpts d'
  unfolding relax_edges
  edges-AreOpts min_len i ci [] d pos le no_edge ok = (d, refl, ok)
  edges-AreOpts min_len i ci (e ∷ q) d pos le (edge real others) ok =
      let (d', run, ok') = edges-AreOpts min_len i ci q d pos le others ok in
      elim (Bool-cases (ltb (n - i) e.m)) [
        | inl cut ↦
            let (d'', rest, ok'') =
              lengths-AreOpts (n - i + 1 - min_len) min_len i e.o ci d' pos
                (λ k low high. (
                  omega (arith, low, high, le),
                  shorter-IsEdge k (ground (arith, low, high, cut)) real,
                ))
                ok' in
            (d'', rw (run, cut) rest, ok'')
        | inr whole ↦
            let (d'', rest, ok'') =
              lengths-AreOpts (e.m + 1 - min_len) min_len i e.o ci d' pos
                (λ k low high. (
                  ground (arith, low, high, whole, le),
                  shorter-IsEdge k (omega (arith, low, high)) real,
                ))
                ok' in
            (d'', rw (run, whole) rest, ok'')
      ]

  pub relax-AreOpts :
      (min_len : ℕ) (qs : List (List Edge)) (i : ℕ) (d : List Opt)
      → 0 < min_len
      → n < 2 ^ 32
      → length qs + i ≡ n
      → ((k : ℕ) → k < length qs → AreEdges p window (w + (i + k)) (get_or qs k []))
      → AreOpts d
      → (d' : List Opt) × (relax cost min_len n qs i d ≡ some d') × AreOpts d'
  unfolding relax
  relax-AreOpts min_len [] i d pos small size real ok = (d, refl, ok)
  relax-AreOpts min_len (q ∷ qs) i d pos small size real ok =
      let x = get_or d i no_opt in
      let seen = get_elem?-eq-get_or d i no_opt (omega (arith, size, ok.size)) in
      let here : AreEdges p window (w + i) q =
        subst (λ j. AreEdges p window (w + j) q) (zeroth i) (real 0 (omega arith)) in
      let wrap : (n - i) % 2 ^ 32 ≡ n - i = omega (arith, small) in
      let (d', run, ok') = edges-AreOpts min_len i x.c q d pos (omega (arith, size)) here ok in
      let (d'', rest, ok'') =
        relax-AreOpts min_len qs (i + 1) d' pos small (omega (arith, size))
          (λ k h.
            subst (λ j. AreEdges p window (w + j) (get_or qs k [])) (next i k)
              (real (suc k) (omega (arith, h))))
          ok' in
      (d'', relax_round cost min_len n q qs i d d' d'' x seen wrap run rest, ok'')
    where
      zeroth : (i : ℕ) → i + 0 ≡ i
      zeroth i = omega arith

      next : (i k : ℕ) → i + suc k ≡ i + 1 + k
      next i k = omega arith
