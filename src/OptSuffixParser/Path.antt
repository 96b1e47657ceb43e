-- ===== src/OptSuffixParser/Path.antt =====
-- The path of `shortestPath`: it goes from the start of the block to its end, by edges of the graph, which may be
-- shortened, and by literals.
use lz.Prelude.{
  ℕ, zero, suc, ◌+◌, ◌-◌, ◌%◌, ◌^◌, ◌≤◌, ◌<◌, ◌≡◌, refl, sym, ◌∙◌, arith, inl, inr, false, some,
  List, [], ◌∷◌, length, take, drop, get_or, get_elem?, ltb, ◌==◌, Bool-cases, ap_at, length-take,
  length-drop, get_elem?-eq-get_or, get_or-drop, get_or-take,
}
use mathlib.Core.Path.{subst}
use lz.Lz.{Bytes}
use lz.Slices.{slice_from, slice_to}
use lz.Slices.Laws.{slice_from_lem, slice_to_lem}
use lz.OptSuffixParser.{Edge, Graph, Opt, Parser, literals_only, relax, trace, shortest_path}
use lz.OptSuffixParser.Edges.{IsEdge, AreEdges, AreGraph}
use lz.OptSuffixParser.Relax.{no_opt, AreOpts, start-AreOpts, relax-AreOpts}

-- The steps from `i` to `n`, both counted from `w` on
pub data IsPath (p : Bytes) (window w n : ℕ) : ℕ → List Edge → Type 0 where
  arrived : {i : ℕ} → i ≡ n → IsPath p window w n i []
  step :
      {i : ℕ} {e : Edge} {path : List Edge}
      → 0 < e.m
      → IsEdge p window (w + i) e.m e.o
      → IsPath p window w n (i + e.m) path
      → IsPath p window w n i (e ∷ path)

-- A round of the last loop
trace_round :
    (fuel : ℕ) (d : List Opt) (i : ℕ) (path : List Edge) (x : Opt) {out : List Edge}
    → (i == 0) ≡ false
    → get_elem? d i ≡ some x
    → (i + 2 ^ 32 - x.m) % 2 ^ 32 ≡ i - x.m
    → trace fuel d (i - x.m) (record { m = x.m; o = x.o } ∷ path) ≡ some out
    → trace (suc fuel) d i path ≡ some out
unfolding trace
trace_round fuel d i path x e seen wrap run = rw (e, seen, wrap) run

module _ (p : Bytes) (window w n : ℕ) (cost : ℕ → ℕ → ℕ) where
  trace_lem :
      (fuel i : ℕ) (d : List Opt) (path : List Edge)
      → i < fuel
      → i ≤ n
      → n < 2 ^ 32
      → AreOpts p window w n cost d
      → IsPath p window w n i path
      → (out : List Edge) × (trace fuel d i path ≡ some out) × IsPath p window w n 0 out
  unfolding trace
  trace_lem zero i d path enough le small ok goes = absurd (omega (arith, enough))
  trace_lem (suc fuel) i d path enough le small ok goes = elim (Bool-cases (i == 0)) [
    | inl e ↦
        let is : i ≡ 0 = ground (arith, e) in
        (path, rw e refl, subst (λ j. IsPath p window w n j path) is goes)
    | inr e ↦
        let in_d : i < length d = omega (arith, le, ok.size) in
        let x = get_or d i no_opt in
        let r = ok.reached i in_d (ground (arith, e)) in
        let seen = get_elem?-eq-get_or d i no_opt in_d in
        let wrap : (i + 2 ^ 32 - x.m) % 2 ^ 32 ≡ i - x.m =
          omega (arith, r.within, r.pos, small, le) in
        let whole : i ≡ i - x.m + x.m = omega (arith, r.within) in
        let (out, run, goes') =
          trace_lem fuel (i - x.m) d (record { m = x.m; o = x.o } ∷ path)
            (omega (arith, r.pos, enough, r.within)) (omega (arith, le)) small ok
            (step r.pos r.real (subst (λ j. IsPath p window w n j path) whole goes)) in
        (out, trace_round fuel d i path x e seen wrap run, goes')
  ]

-- `shortestPath`, from what its calls return
path_run :
    (s : Parser) (g : Graph) (n : ℕ) (front edges : List (List Edge)) (d : List Opt)
    (path : List Edge)
    → ltb s.buffer.w g.start ≡ false
    → slice_to (s.buffer.w - g.start + n) g.edges ≡ some front
    → slice_from (s.buffer.w - g.start) front ≡ some edges
    → relax s.cost (s.min_match_len % 2 ^ 32) n edges 0 (no_opt ∷ literals_only s.cost 1 n) ≡ some d
    → trace (suc n) d (n % 2 ^ 32) [] ≡ some path
    → shortest_path s g n ≡ some path
unfolding shortest_path
path_run s g n front edges d path order to_end from_k run ran = rw (order, to_end, from_k, run) ran

-- `shortestPath` over a graph that reaches to the end of the block
pub path_lem :
    (s : Parser) (g : Graph) (n : ℕ) (p : Bytes)
    → AreGraph p s.buffer.window_size g
    → g.start ≤ s.buffer.w
    → s.buffer.w + n ≤ g.start + length g.edges
    → 0 < s.min_match_len
    → s.min_match_len < 2 ^ 32
    → n < 2 ^ 32
    → (path : List Edge) × (shortest_path s g n ≡ some path)
      × IsPath p s.buffer.window_size s.buffer.w n 0 path
path_lem s g n p real early reach pos fits small =
    let w = s.buffer.w in
    let k = w - g.start in
    let edges = drop k (take (k + n) g.edges) in
    let count : length edges ≡ n =
      omega
        (arith, length-drop k (take (k + n) g.edges), length-take (k + n) g.edges, reach, early) in
    let least : s.min_match_len % 2 ^ 32 ≡ s.min_match_len = omega (arith, fits) in
    let size : n % 2 ^ 32 ≡ n = omega (arith, small) in
    let order : ltb w g.start ≡ false = ground (arith, early) in
    let (d, run, ok) =
      relax-AreOpts p s.buffer.window_size w n s.cost s.min_match_len edges 0
        (no_opt ∷ literals_only s.cost 1 n) pos small (omega (arith, count))
        (λ j h. at j (omega (arith, h, count))) (start-AreOpts p s.buffer.window_size w n s.cost) in
    let (path, ran, goes) =
      trace_lem p s.buffer.window_size w n s.cost (suc n) n d [] (omega arith) (omega arith) small
        ok (arrived refl) in
    (
      path,
      path_run s g n (take (k + n) g.edges) edges d path order
          (slice_to_lem (k + n) g.edges (omega (arith, reach, early)))
          (slice_from_lem k (take (k + n) g.edges)
            (omega (arith, length-take (k + n) g.edges, reach, early)))
          (ap_at (λ m. relax s.cost m n edges 0 (no_opt ∷ literals_only s.cost 1 n))
              (s.min_match_len % 2 ^ 32) s.min_match_len least
            ∙ run)
          (ap_at (λ m. trace (suc n) d m []) (n % 2 ^ 32) n size ∙ ran),
      goes,
    )
  where
    at :
        (j : ℕ)
        → j < n
        → AreEdges p s.buffer.window_size
            (s.buffer.w + (0 + j))
            (get_or (drop (s.buffer.w - g.start) (take (s.buffer.w - g.start + n) g.edges)) j [])
    at j h =
        let k = s.buffer.w - g.start in
        let there : g.start + (k + j) ≡ s.buffer.w + (0 + j) = omega (arith, early) in
        let same : get_or (drop k (take (k + n) g.edges)) j [] ≡ get_or g.edges (k + j) [] =
          get_or-drop k j (k + j) (take (k + n) g.edges) [] refl
          ∙ get_or-take (k + n) (k + j) g.edges [] (omega (arith, h)) in
        subst (AreEdges p s.buffer.window_size (s.buffer.w + (0 + j))) (sym same) (
          subst (λ i. AreEdges p s.buffer.window_size i (get_or g.edges (k + j) [])) there
            (real (k + j) (omega (arith, h, reach, early))))
