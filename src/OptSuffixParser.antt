-- ===== src/OptSuffixParser.antt =====
-- `optSuffixArrayParser` of osap.go: the parser that takes its matches from the segments of the suffix array, and
-- chooses among them by their costs. A panic is `none`. Parameters are the suffix array that `suffix.Sort` makes, and
-- `slices.Sort`.
pub mod Config
pub mod Edges
pub mod Relax
pub mod Path
pub mod Follow
pub mod Link
pub mod Compute
pub mod RoundTrip
pub mod Setup
use lz.Prelude.{
  ℕ, zero, suc, ◌+◌, ◌-◌, ◌*◌, ◌%◌, ◌^◌, ◌≤◌, ◌<◌, ◌≡◌, Bool, false, not, Option, none, some, ◌>>=◌,
  List, [], ◌∷◌, ◌++◌, length, drop, replicate, set, get_elem?, ltb, leb, ◌==◌, if◌then◌else◌,
}
use lz.Lz.{Bytes, Block, Error}
use lz.Slices.{slice_from, slice_to}
use lz.Bytes.{leading_zeros}
use lz.ParserBuffer
use lz.ParserBuffer.{ParserBuffer}
use lz.Suffix.{Sort, max_int32, lcp_table}
use lz.Segments.{segments}
use lz.Greedy
use lz.Greedy.{Match, Searcher, State, start, emit, block_size}

-- `XZCost`, on numbers of 32 bits
unfoldable pub xz_cost : (m o : ℕ) → ℕ
xz_cost m o =
    let m' = (m + 2 ^ 32 - 2) % 2 ^ 32 in
    let d = (o + 2 ^ 32 - 1) % 2 ^ 32 in
    let by_length = if ltb m' 8 then 4 else if ltb m' 16 then 5 else 10 in
    let by_offset = if ltb d 4 then 4 else 2 + (32 - leading_zeros 32 d) in
    if o == 0 then 9 * m else by_length + by_offset

-- A match of `m` bytes, or `m` literals with `o` 0
pub record Edge : Type 0 where
  pub m : ℕ
  pub o : ℕ

-- The edges of the positions from `start` on, and their number
pub record Graph : Type 0 where
  pub edges : List (List Edge)
  pub start : ℕ
  pub n_edges : ℕ

-- `optSuffixArrayParser`. Its `OSAPConfig` has the sizes that its buffer has, and the lengths of matches. `edgeBuf` and
-- `tmp` only keep memory.
pub record Parser : Type 0 where
  pub buffer : ParserBuffer
  pub graph : Graph
  pub cost : ℕ → ℕ → ℕ
  pub min_match_len : ℕ
  pub max_match_len : ℕ

-- `resetEdges`
abbrev pub no_graph : Graph
no_graph = record { edges = []; start = 0; n_edges = 0 }

unfoldable pub reset : Parser → Bytes → Bytes → Parser × Option Error
reset s p q =
    let (b, e) = ParserBuffer.reset s.buffer p q in
    elim e [
      | some err ↦ (record s { buffer = b }, some err)
      | none ↦ (record s { buffer = b; graph = no_graph }, none)
    ]

unfoldable pub shrink : Parser → Option (Parser × ℕ)
shrink s = ParserBuffer.shrink s.buffer >>= (λ (b, delta).
    some (record s { buffer = b; graph = if ltb 0 delta then no_graph else s.graph }, delta))

-- Whether the last edge has an offset of at most `o`
unfoldable pub nearer : List Edge → ℕ → Bool
nearer [] o = false
nearer (e ∷ []) o = leb e.o o
nearer (_ ∷ e ∷ es) o = nearer (e ∷ es) o

-- The edge is added to those of `k`, unless the last one is as near.
unfoldable pub add_edge : (k m o : ℕ) → Graph → Option Graph
add_edge k m o g = get_elem? g.edges k >>= (λ p. some (
    if nearer p o then g else record {
      edges = set g.edges k (p ++ record { m = m; o = o } ∷ []);
      start = g.start;
      n_edges = g.n_edges + 1;
    }))

-- The loop of `f` in `computeEdges`, from the index `j` of the segment down; `back` is `-w`.
unfoldable pub link : (window back m : ℕ) → List ℕ → (j : ℕ) → Graph → Option Graph
link window back m seg zero g = some g
link window back m seg (suc j) g = get_elem? seg (suc j) >>= (λ i. get_elem? seg j >>= (λ before.
    let k = i - back in
    let o = (i + 2 ^ 32 - before) % 2 ^ 32 in
    let next = if ltb (window % 2 ^ 32) o then some g else add_edge k (m % 2 ^ 32) o g in
    let rest = next >>= (λ g'. link window back m seg j g') in if ltb i back then some g else rest))

-- `f` in `computeEdges`
unfoldable pub link_segment :
    (List ℕ → List ℕ) → (window back : ℕ) → (m : ℕ) → List ℕ → Graph → Option (List ℕ × Graph)
link_segment sort_ints window back m seg g =
    let seg' = sort_ints seg in
    link window back m seg' (length seg' - 1) g >>= (λ g'. some (seg', g'))

-- The greatest number in a table, and at least `n`
unfoldable pub greatest : ℕ → List ℕ → ℕ
greatest n [] = n
greatest n (m ∷ ms) = greatest (if ltb n m then m else n) ms

-- `computeEdges`
unfoldable pub compute_edges : Sort → (List ℕ → List ℕ) → Parser → Option Graph
compute_edges sorted sort_ints s =
    let b = s.buffer in
    let n = length b.data_bytes in
    let fresh : Graph = record { edges = replicate (n - b.w) []; start = b.w; n_edges = 0 } in
    let win_start = b.w - b.window_size in
    let run = slice_from win_start b.data_bytes >>= (λ t.
      let sa = sorted t in
      lcp_table sorted t sa [] (replicate (length sa) 0) >>= (λ lcp.
        let max_len = greatest 0 lcp in
        let max_len' = if ltb s.max_match_len max_len then s.max_match_len else max_len in
        segments (link_segment sort_ints b.window_size (b.w - win_start)) sa lcp s.min_match_len
          max_len' fresh
        >>= (λ (sa', g). some g))) in
    if ltb max_int32 n then none else if n == 0 then some fresh else run

-- What `shortestPath` knows of a position: the edge to it, and its cost
pub record Opt : Type 0 where
  pub m : ℕ
  pub o : ℕ
  pub c : ℕ

-- The first loop, for `n` positions from `i` on
unfoldable pub literals_only : (ℕ → ℕ → ℕ) → (i n : ℕ) → List Opt
literals_only cost i zero = []
literals_only cost i (suc n) =
    record { m = 1; o = 0; c = cost (i % 2 ^ 32) 0 } ∷ literals_only cost (i + 1) n

-- The loop over `n` lengths from `m` on, for the edge at `i` with the offset `o`
unfoldable pub relax_lengths : (ℕ → ℕ → ℕ) → (n m : ℕ) → (i o ci : ℕ) → List Opt → Option (List Opt)
relax_lengths cost zero m i o ci d = some d
relax_lengths cost (suc n) m i o ci d = get_elem? d (i + m) >>= (λ y.
    let c = (ci + cost m o) % 2 ^ 64 in
    let d' = if ltb c y.c then set d (i + m) (record { m = m; o = o; c = c }) else d in
    relax_lengths cost n (m + 1) i o ci d')

-- The loop over the edges at `i`, the last one first
unfoldable pub relax_edges :
    (ℕ → ℕ → ℕ) → (min_len max_len : ℕ) → (i ci : ℕ) → List Edge → List Opt → Option (List Opt)
relax_edges cost min_len max_len i ci [] d = some d
relax_edges cost min_len max_len i ci (e ∷ q) d =
    relax_edges cost min_len max_len i ci q d >>= (λ d'.
      let top = if ltb max_len e.m then max_len else e.m in
      relax_lengths cost (top + 1 - min_len) min_len i e.o ci d')

-- The loop over the positions from `i` to before `n`
unfoldable pub relax :
    (ℕ → ℕ → ℕ) → (min_len n : ℕ) → List (List Edge) → (i : ℕ) → List Opt → Option (List Opt)
relax cost min_len n [] i d = some d
relax cost min_len n (q ∷ qs) i d = get_elem? d i >>= (λ x.
    relax_edges cost min_len ((n - i) % 2 ^ 32) i x.c q d
    >>= (λ d'. relax cost min_len n qs (i + 1) d'))

-- The last loop, from `i` back to 0. It puts the edges in the order of the text, which the source does where it reads
-- the path backwards.
unfoldable pub trace : ℕ → List Opt → (i : ℕ) → List Edge → Option (List Edge)
trace zero d i path = none
trace (suc fuel) d i path =
    let round =
      get_elem? d i
      >>= (λ x. trace fuel d ((i + 2 ^ 32 - x.m) % 2 ^ 32) (record { m = x.m; o = x.o } ∷ path)) in
    if i == 0 then some path else round

-- `shortestPath`
unfoldable pub shortest_path : Parser → Graph → (n : ℕ) → Option (List Edge)
shortest_path s g n =
    let k = s.buffer.w - g.start in
    let run = slice_to (k + n) g.edges >>= (λ front. slice_from k front >>= (λ edges.
      relax s.cost (s.min_match_len % 2 ^ 32) n edges 0
        (record { m = 0; o = 0; c = 0 } ∷ literals_only s.cost 1 n)
      >>= (λ d. trace (suc n) d (n % 2 ^ 32) []))) in
    if ltb s.buffer.w g.start then none else run

-- There is nothing to be found, nor to be added behind a match.
unfoldable pub idle : Searcher Graph
idle = record { find = λ t lit_index i. some (t, none); fill = λ t i m. some t }

-- The loop of `Parse` over the path, at `i`
unfoldable pub follow : Bytes → List Edge → State Graph → (i : ℕ) → Option (State Graph)
follow p [] s i = some s
follow p (e ∷ path) s i =
    let i' = (i + e.m) % 2 ^ 32 in
    let literal = follow p path s i' in
    let matched =
      emit idle p s i (record { begin = i; len = e.m; offset = e.o })
      >>= (λ s'. follow p path s' i') in
    if e.o == 0 then literal else matched

abbrev pub make : (ℕ → ℕ → ℕ) → (min_len max_len : ℕ) → ParserBuffer → Graph → Parser
make cost min_len max_len b g = record {
  buffer = b;
  graph = g;
  cost = cost;
  min_match_len = min_len;
  max_match_len = max_len;
}

-- The edges are computed anew, if they do not reach to the end of the block.
unfoldable pub prepare : Sort → (List ℕ → List ℕ) → Parser → Option Graph
prepare sorted sort_ints s =
    let anew = compute_edges sorted sort_ints s in
    if ltb (s.graph.start + length s.graph.edges) (s.buffer.w + block_size s.buffer)
    then anew
    else some s.graph

-- Without any edge the block is all literals, also under the flag `NoTrailingLiterals`.
unfoldable pub search : Parser → Graph → Bytes → Option (State Graph)
search s g p =
    let w = s.buffer.w in
    let run =
      shortest_path s g (length p - w) >>= (λ path. follow p path (start g w) (w % 2 ^ 32)) in
    if g.n_edges == 0 then some (start g w) else run

-- `Parse` with a block
unfoldable pub parse :
    Sort → (List ℕ → List ℕ) → Parser → Bool → Option (Parser × Block × ℕ × Option Error)
parse sorted sort_ints s no_literals =
    Greedy.parse (make s.cost s.min_match_len s.max_match_len) s s.buffer
      (prepare sorted sort_ints s) (search s) no_literals

-- `Parse` without a block, which does not move the head
unfoldable pub skip : Parser → ℕ × Option Error
skip s =
    let n = block_size s.buffer in if n == 0 then (0, some Error.err_empty_buffer) else (n, none)
