-- ===== src/OptSuffixParser/Compute.antt =====
-- `computeEdges` makes a graph of repetitions.
use lz.Prelude.{
  ℕ, zero, suc, ◌+◌, ◌-◌, ◌≤◌, ◌<◌, ◌≡◌, refl, sym, ◌∙◌, arith, inl, inr, false, some, List, [],
  ◌∷◌, length, drop, replicate, get_or, ltb, ◌==◌, Bool-cases, if◌then◌else◌, length-drop,
  length-replicate,
}
use mathlib.Core.Path.{subst}
use lz.Lz.{Bytes}
use lz.Slices.{slice_from}
use lz.Slices.Laws.{slice_from_lem}
use lz.Bytes.Prefix.{AreBytes, drop-AreBytes, prefix-bound}
use lz.Suffix.{Sort, max_int32, lcp_table}
use lz.Suffix.Order.{IsSuffixArray}
use lz.Suffix.Table.{common, lcp_table_lem}
use lz.Segments.{segments}
use lz.Segments.Groups.{common-Tabled, tabled_lem}
use lz.OptSuffixParser.{Edge, Graph, Parser, greatest, link_segment, compute_edges}
use lz.OptSuffixParser.Edges.{AreEdges, no_edge}
use lz.OptSuffixParser.Link.{IsSorting, IsGraph, segment-IsCallback}

-- The data that are sorted
abbrev pub sorted_data : Parser → Bytes
sorted_data s = drop (s.buffer.w - s.buffer.window_size) s.buffer.data_bytes

greatest-bound :
    (most n : ℕ) (ms : List ℕ)
    → n ≤ most
    → ((q : ℕ) → q < length ms → get_or ms q 0 ≤ most)
    → greatest n ms ≤ most
unfolding greatest
greatest-bound most n [] le all = le
greatest-bound most n (m ∷ ms) le all = elim (Bool-cases (ltb n m)) [
  | inl e ↦
      rw e (greatest-bound most m ms (all 0 (omega arith)) (λ q h. all (suc q) (omega (arith, h))))
  | inr e ↦ rw e (greatest-bound most n ms le (λ q h. all (suc q) (omega (arith, h))))
]

common-bound : (t : Bytes) (sa : List ℕ) (q : ℕ) → common t sa q ≤ length t
unfolding common
common-bound t sa zero = omega arith
common-bound t sa (suc q) =
    let b = get_or sa q 0 in
    omega (arith, prefix-bound (drop (get_or sa (suc q) 0) t) (drop b t), length-drop b t)

get_or-replicate : (n k : ℕ) → get_or {A = List Edge} (replicate n []) k [] ≡ []
get_or-replicate zero k = refl
get_or-replicate (suc n) zero = refl
get_or-replicate (suc n) (suc k) = get_or-replicate n k

-- `computeEdges`, from what its calls return
compute_run :
    (sorted : Sort) (sort_ints : List ℕ → List ℕ) (s : Parser) (t : Bytes) (lcp sa' : List ℕ)
    (most : ℕ) (g : Graph)
    → ltb max_int32 (length s.buffer.data_bytes) ≡ false
    → (length s.buffer.data_bytes == 0) ≡ false
    → slice_from (s.buffer.w - s.buffer.window_size) s.buffer.data_bytes ≡ some t
    → lcp_table sorted t (sorted t) [] (replicate (length (sorted t)) 0) ≡ some lcp
    → (if ltb s.max_match_len (greatest 0 lcp) then s.max_match_len else greatest 0 lcp) ≡ most
    → segments
        (link_segment sort_ints s.buffer.window_size
          (s.buffer.w - (s.buffer.w - s.buffer.window_size)))
        (sorted t)
        lcp
        s.min_match_len
        most
        (record {
          edges = replicate (length s.buffer.data_bytes - s.buffer.w) [];
          start = s.buffer.w;
          n_edges = 0;
        })
      ≡ some (sa', g)
    → compute_edges sorted sort_ints s ≡ some g
unfolding compute_edges
compute_run sorted sort_ints s t lcp sa' most g short some_left slice table cut run =
    rw (short, some_left, slice, table, cut, run) refl

pub compute_lem :
    (sorted : Sort) (sort_ints : List ℕ → List ℕ) (s : Parser)
    → IsSuffixArray (sorted_data s) (sorted (sorted_data s))
    → IsSorting sort_ints
    → AreBytes s.buffer.data_bytes
    → s.buffer.w < length s.buffer.data_bytes
    → length s.buffer.data_bytes ≤ max_int32
    → 0 < s.min_match_len
    → s.min_match_len ≤ max_int32
    → (g : Graph) × (compute_edges sorted sort_ints s ≡ some g)
      × IsGraph s.buffer.data_bytes s.buffer.window_size s.buffer.w g
compute_lem sorted sort_ints s x law bytes head_in short pos low =
    let p = s.buffer.data_bytes in
    let w = s.buffer.w in
    let window = s.buffer.window_size in
    let t = drop (w - window) p in
    let long : length t ≡ length p - (w - window) = length-drop (w - window) p in
    let sa = sorted t in
    let (lcp, run, size, right) =
      lcp_table_lem sorted t sa (replicate (length sa) 0) (drop-AreBytes (w - window) p bytes)
        (omega (arith, long, short)) x (length-replicate {A = ℕ} (length sa) 0 ∙ x.lists.size) in
    let all : greatest 0 lcp ≤ length t =
      greatest-bound (length t) 0 lcp (omega arith)
        (λ q h. omega (arith, right q (omega (arith, h, size)), common-bound t sa q)) in
    let most = if ltb s.max_match_len (greatest 0 lcp) then s.max_match_len else greatest 0 lcp in
    let high : most ≤ max_int32 = ground (arith, all, long, short) in
    let fresh : Graph = record { edges = replicate (length p - w) []; start = w; n_edges = 0 } in
    let r =
      tabled_lem t (IsGraph p window w) s.min_match_len most
        (link_segment sort_ints window (w - (w - window)))
        (segment-IsCallback p window w (omega (arith, head_in)) short sort_ints s.min_match_len most
          law pos)
        sa lcp fresh (omega (arith, size, x.lists.size))
        (omega (arith, x.lists.size, long, head_in)) low high (common-Tabled t sa lcp x right)
        (fresh_ok p w window) in
    (
      r.state,
      compute_run sorted sort_ints s t lcp r.array most r.state (ground (arith, short))
          (ground (arith, head_in)) (slice_from_lem (w - window) p (omega (arith, head_in))) run
          refl r.ends,
      r.holds,
    )
  where
    fresh_ok :
        (p : Bytes) (w window : ℕ)
        → IsGraph p window w
            (record { edges = replicate (length p - w) []; start = w; n_edges = 0 })
    fresh_ok p w window = record {
      begins = refl;
      size = length-replicate {A = List Edge} (length p - w) [];
      real = λ k h.
          subst (AreEdges p window (w + k)) (sym (get_or-replicate (length p - w) k)) no_edge;
    }
