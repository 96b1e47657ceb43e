-- ===== src/OptSuffixParser/Link.antt =====
-- The function that `computeEdges` has called for the segments adds edges for repetitions of the data only.
use lz.Prelude.{
  ℕ, zero, suc, ◌+◌, ◌-◌, ◌%◌, ◌^◌, ◌≤◌, ◌<◌, ◌≡◌, refl, sym, ◌∙◌, ◌⊎◌, arith, inl, inr, true,
  false, some, List, [], ◌∷◌, ◌++◌, length, set, drop, get_or, get_elem?, ltb, ◌==◌, Bool-cases,
  ap_at, length-set, length-drop, get_elem?-eq-get_or, get_or-drop,
}
use mathlib.Core.Path.{subst}
use lz.Lz.{Bytes}
use lz.Bytes.Prefix.{prefix-bytes, prefix-bound}
use lz.Suffix.{max_int32}
use lz.Segments.Stack.{Close, Group}
use lz.Segments.Calls.{IsCallback}
use lz.OptSuffixParser.{Edge, Graph, nearer, add_edge, link, link_segment}
use lz.OptSuffixParser.Edges.{IsEdge, literals, repeats, AreEdges, snoc-AreEdges, AreGraph, set-all}

-- What `slices.Sort` does with a slice of numbers
pub record IsSorting (sort_ints : List ℕ → List ℕ) : Type 0 where
  pub size : (xs : List ℕ) → length (sort_ints xs) ≡ length xs
  pub ascending :
      (xs : List ℕ) (q r : ℕ)
      → q ≤ r
      → r < length xs
      → get_or (sort_ints xs) q 0 ≤ get_or (sort_ints xs) r 0
  pub from :
      (xs : List ℕ) (q : ℕ)
      → q < length xs
      → (r : ℕ) × (r < length xs) × (get_or (sort_ints xs) q 0 ≡ get_or xs r 0)

-- A graph over the data from `w` on
pub record IsGraph (p : Bytes) (window w : ℕ) (g : Graph) : Type 0 where
  pub begins : g.start ≡ w
  pub size : length g.edges ≡ length p - w
  pub real : AreGraph p window g

module _ (p : Bytes) (window w : ℕ) (head_in : w ≤ length p) (short : length p ≤ max_int32) where
  add_edge_lem :
      (k m o : ℕ) (g : Graph)
      → k < length p - w
      → IsEdge p window (w + k) m o
      → IsGraph p window w g
      → (g' : Graph) × (add_edge k m o g ≡ some g') × IsGraph p window w g'
  unfolding add_edge
  add_edge_lem k m o g h real ok =
      let q = get_or g.edges k [] in
      let e : Edge = record { m = m; o = o } in
      let in_edges : k < length g.edges = omega (arith, h, ok.size) in
      let seen = get_elem?-eq-get_or g.edges k [] in_edges in
      elim (Bool-cases (nearer q o)) [
        | inl near ↦ (g, rw (seen, near) refl, ok)
        | inr far ↦ (
          record { edges = set g.edges k (q ++ e ∷ []); start = g.start; n_edges = g.n_edges + 1 },
          rw (seen, far) refl,
          record {
            begins = ok.begins;
            size = omega (arith, length-set g.edges k (q ++ e ∷ []), ok.size);
            real =
                set-all (λ j. AreEdges p window (g.start + j)) g.edges k (q ++ e ∷ []) [] ok.real
                  (snoc-AreEdges q e (ok.real k in_edges)
                    (subst (λ i. IsEdge p window (i + k) m o) (sym ok.begins) real));
          },
        )
      ]

  abbrev win_start : ℕ
  win_start = w - window

  abbrev t : Bytes
  t = drop win_start p

  long : length t ≡ length p - win_start
  long = length-drop win_start p

  -- The edge for two neighbours in a sorted segment
  edge_lem :
      (m i j : ℕ)
      → 0 < m
      → j ≤ i
      → Close t m i j
      → Close t m i i
      → w - win_start ≤ i
      → i - j ≤ window
      → IsEdge p window (w + (i - (w - win_start))) m (i - j)
  edge_lem m i j pos le near self late in_window = elim (Bool-cases (i - j == 0)) [
    | inl e ↦ literals (ground (arith, e))
    | inr e ↦ repeats (ground (arith, e)) in_window (omega (arith, here)) (record {
      inside = omega (arith, here, room, long);
      same = λ q h.
          ap_at (λ k. get_or p k 0) (w + (i - (w - win_start)) - (i - j) + q) (win_start + (j + q))
            (omega (arith, here, le))
          ∙ sym (at j q)
          ∙ sym (prefix-bytes (drop i t) (drop j t) q (omega (arith, near, h)))
          ∙ at i q
          ∙ ap_at (λ k. get_or p k 0) (win_start + (i + q)) (w + (i - (w - win_start)) + q)
              (omega (arith, here));
    })
  ]
    where
      here : w + (i - (w - win_start)) ≡ win_start + i
      here = omega (arith, late)

      room : i + m ≤ length t
      room = omega (arith, self, pos, prefix-bound (drop i t) (drop i t), length-drop i t)

      at : (k q : ℕ) → get_or (drop k t) q 0 ≡ get_or p (win_start + (k + q)) 0
      at k q =
          get_or-drop k q (k + q) t 0 refl
          ∙ get_or-drop win_start (k + q) (win_start + (k + q)) p 0 refl

  -- A round of the loop, where the neighbour is too far and where it is not
  link_far :
      (m j i before o : ℕ) (seg : List ℕ) (g out : Graph)
      → get_elem? seg (suc j) ≡ some i
      → get_elem? seg j ≡ some before
      → ltb i (w - win_start) ≡ false
      → (i + 2 ^ 32 - before) % 2 ^ 32 ≡ o
      → ltb (window % 2 ^ 32) o ≡ true
      → link window (w - win_start) m seg j g ≡ some out
      → link window (w - win_start) m seg (suc j) g ≡ some out
  unfolding link
  link_far m j i before o seg g out at_i at_j late offset far rest =
      rw (at_i, at_j, late, offset, far) rest

  link_near :
      (m j i before o : ℕ) (seg : List ℕ) (g g' out : Graph)
      → get_elem? seg (suc j) ≡ some i
      → get_elem? seg j ≡ some before
      → ltb i (w - win_start) ≡ false
      → (i + 2 ^ 32 - before) % 2 ^ 32 ≡ o
      → ltb (window % 2 ^ 32) o ≡ false
      → add_edge (i - (w - win_start)) (m % 2 ^ 32) o g ≡ some g'
      → link window (w - win_start) m seg j g' ≡ some out
      → link window (w - win_start) m seg (suc j) g ≡ some out
  unfolding link
  link_near m j i before o seg g g' out at_i at_j late offset near run rest =
      rw (at_i, at_j, late, offset, near, run) rest

  link_lem :
      (m : ℕ) (seg : List ℕ) (j : ℕ) (g : Graph)
      → 0 < m
      → Group t seg m 0 (length seg)
      → ((q r : ℕ) → q ≤ r → r < length seg → get_or seg q 0 ≤ get_or seg r 0)
      → (j ≡ 0) ⊎ (j < length seg)
      → IsGraph p window w g
      → (g' : Graph) × (link window (w - win_start) m seg j g ≡ some g') × IsGraph p window w g'
  unfolding link
  link_lem m seg zero g pos group up within ok = (g, refl, ok)
  link_lem m seg (suc j) g pos group up (inl e) ok = absurd (omega (arith, e))
  link_lem m seg (suc j) g pos group up (inr within) ok =
      let i = get_or seg (suc j) 0 in
      let before = get_or seg j 0 in
      let le : before ≤ i = up j (suc j) (omega arith) within in
      let self = group (suc j) (suc j) (omega arith) within (omega arith) within in
      let room : i + m ≤ length t =
        omega (arith, self, pos, prefix-bound (drop i t) (drop i t), length-drop i t) in
      let offset : (i + 2 ^ 32 - before) % 2 ^ 32 ≡ i - before =
        omega (arith, le, room, long, short, pos) in
      let fits : m % 2 ^ 32 ≡ m = omega (arith, room, long, short) in
      let at_i = get_elem?-eq-get_or seg (suc j) 0 within in
      let at_j = get_elem?-eq-get_or seg j 0 (omega (arith, within)) in
      elim (Bool-cases (ltb i (w - win_start))) [
        | inl early ↦ (g, rw (at_i, at_j, early) refl, ok)
        | inr late ↦
            let after : w - win_start ≤ i = ground (arith, late) in
            elim (Bool-cases (ltb (window % 2 ^ 32) (i - before))) [
              | inl far ↦
                  let (g', rest, ok') =
                    link_lem m seg j g pos group up (inr (omega (arith, within))) ok in
                  (
                    g',
                    link_far m j i before (i - before) seg g g' at_i at_j late offset far rest,
                    ok',
                  )
              | inr near ↦
                  let real =
                    edge_lem m i before pos le
                      (group (suc j) j (omega arith) within (omega arith) (omega (arith, within)))
                      self after (in_window (i - before) near) in
                  let (g', run, ok') =
                    add_edge_lem (i - (w - win_start)) m (i - before) g
                      (omega (arith, room, long, after, pos, head_in)) real ok in
                  let (g'', rest, ok'') =
                    link_lem m seg j g' pos group up (inr (omega (arith, within))) ok' in
                  (
                    g'',
                    link_near m j i before (i - before) seg g g' g'' at_i at_j late offset near
                        (ap_at (λ v. add_edge (i - (w - win_start)) v (i - before) g) (m % 2 ^ 32) m
                            fits
                          ∙ run)
                        rest,
                    ok'',
                  )
            ]
      ]
    where
      in_window : (o : ℕ) → ltb (window % 2 ^ 32) o ≡ false → o ≤ window
      in_window o near = ground (arith, near)

  -- The function as one that is called for segments
  pub segment-IsCallback :
      (sort_ints : List ℕ → List ℕ) (min_len max_len : ℕ)
      → IsSorting sort_ints
      → 0 < min_len
      → IsCallback t
          (IsGraph p window w)
          min_len
          max_len
          (link_segment sort_ints window (w - win_start))
  unfolding link_segment
  segment-IsCallback sort_ints min_len max_len law pos = record { returns = returns }
    where
      last : (k : ℕ) → (k - 1 ≡ 0) ⊎ (k - 1 < k)
      last zero = inl (omega arith)
      last (suc k) = inr (omega arith)

      returns :
          (m : ℕ) (part : List ℕ) (g : Graph)
          → min_len ≤ m
          → m ≤ max_len
          → Group t part m 0 (length part)
          → IsGraph p window w g
          → (part' : List ℕ) × (g' : Graph) × (link_segment sort_ints window
                (w - win_start)
                m
                part
                g
              ≡ some (part', g'))
            × (length part' ≡ length part)
            × ((q : ℕ)
                → q < length part
                → (r : ℕ) × (r < length part) × (get_or part' q 0 ≡ get_or part r 0))
            × IsGraph p window w g'
      returns m part g low high group ok =
          let seg = sort_ints part in
          let same = law.size part in
          let sorted : Group t seg m 0 (length seg) = λ q r _ hq _ hr.
            let (q', in_q, at_q) = law.from part q (omega (arith, hq, same)) in
            let (r', in_r, at_r) = law.from part r (omega (arith, hr, same)) in
            subst (λ i. Close t m i (get_or seg r 0)) (sym at_q)
              (subst (λ i. Close t m (get_or part q' 0) i) (sym at_r)
                (group q' r' (omega arith) in_q (omega arith) in_r)) in
          let (g', run, ok') =
            link_lem m seg (length seg - 1) g (omega (arith, pos, low)) sorted
              (λ q r le h. law.ascending part q r le (omega (arith, h, same))) (last (length seg))
              ok in
          (seg, g', rw run refl, same, law.from part, ok')
