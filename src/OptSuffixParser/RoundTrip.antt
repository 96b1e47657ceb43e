-- ===== src/OptSuffixParser/RoundTrip.antt =====
-- `Parse` of the optimizing suffix array parser: the block means the data that it consumed.
use lz.Prelude.{
  ℕ, ◌+◌, ◌-◌, ◌%◌, ◌^◌, ◌≤◌, ◌≡◌, ◌≢◌, refl, ◌∙◌, arith, inl, inr, Bool, false, Option, some, List,
  length, ltb, ◌==◌, Bool-cases, ap_at, take-all, take-append_le,
}
use mathlib.Core.Path.{subst}
use lz.Lz.{Bytes, Block, Error}
use lz.Bytes.Prefix.{AreBytes, take-AreBytes}
use lz.ParserBuffer.{ParserBuffer, memory}
use lz.Suffix.{Sort, max_int32}
use lz.Suffix.Order.{IsSuffixArray}
use lz.Greedy.{State, start, block_size}
use lz.Greedy.Scan.{Scanned, start-Scanned}
use lz.Greedy.RoundTrip.{
  IsReady, moved-IsReady, Parsed, parse_frame, n-bounds, block_data, length-block_data,
}
use lz.OptSuffixParser.{Edge, Graph, Parser, make, prepare, search, shortest_path, follow, parse}
use lz.OptSuffixParser.Edges.{AreGraph}
use lz.OptSuffixParser.Path.{path_lem}
use lz.OptSuffixParser.Follow.{follow_lem}
use lz.OptSuffixParser.Link.{IsSorting}
use lz.OptSuffixParser.Compute.{sorted_data, compute_lem}

-- A parser that has been set up, for data and matches that 31 bits can index
pub record Ready (s : Parser) : Type 0 where
  pub buffer : IsReady s.buffer
  pub indexes : s.buffer.buffer_size ≤ max_int32
  pub least : 2 ≤ s.min_match_len
  pub lengths : s.min_match_len ≤ max_int32
  pub early : s.graph.start ≤ s.buffer.w
  pub graph : AreGraph s.buffer.data_bytes s.buffer.window_size s.graph

abbrev pub buffer_of : Parser → ParserBuffer
buffer_of s = s.buffer

-- A graph for the next block of a buffer
record Spans (b : ParserBuffer) (g : Graph) : Type 0 where
  early : g.start ≤ b.w
  reach : b.w + block_size b ≤ g.start + length g.edges
  real : AreGraph b.data_bytes b.window_size g

-- The search, from what its calls return
search_run :
    (s : Parser) (g : Graph) (p : Bytes) (n : ℕ) (path : List Edge) (s' : State Graph)
    → (g.n_edges == 0) ≡ false
    → length p - s.buffer.w ≡ n
    → s.buffer.w % 2 ^ 32 ≡ s.buffer.w
    → shortest_path s g n ≡ some path
    → follow p path (start g s.buffer.w) s.buffer.w ≡ some s'
    → search s g p ≡ some s'
unfolding search
search_run s g p n path s' some_edge size wrap run ran = rw (some_edge, size, wrap, run) ran

module _ (s : Parser) (r : Ready s) where
  abbrev b : ParserBuffer
  b = s.buffer

  abbrev n : ℕ
  n = block_size b

  data-AreBytes : AreBytes b.data_bytes
  data-AreBytes =
      subst AreBytes
        (take-append_le (length b.data_bytes) b.data_bytes b.spare (omega arith)
          ∙ take-all (length b.data_bytes) b.data_bytes (omega arith))
        (take-AreBytes (length b.data_bytes) (memory b) r.buffer.bytes)

  data-short : length b.data_bytes ≤ max_int32
  data-short = omega (arith, r.buffer.valid.in_size, r.indexes)

  prepare_lem :
      (sorted : Sort) (sort_ints : List ℕ → List ℕ)
      → IsSuffixArray (sorted_data s) (sorted (sorted_data s))
      → IsSorting sort_ints
      → n ≢ 0
      → (g : Graph) × (prepare sorted sort_ints s ≡ some g) × Spans b g
  unfolding prepare
  prepare_lem sorted sort_ints order law ne =
      let bounds = n-bounds b r.buffer in
      elim (Bool-cases (ltb (s.graph.start + length s.graph.edges) (b.w + n))) [
        | inr e ↦ (
          s.graph,
          rw e refl,
          record { early = r.early; reach = ground (arith, e); real = r.graph },
        )
        | inl e ↦
            let (g, run, ok) =
              compute_lem sorted sort_ints s order law data-AreBytes (omega (arith, bounds, ne))
                data-short (omega (arith, r.least)) r.lengths in
            (
              g,
              rw e run,
              record {
                early = omega (arith, ok.begins);
                reach = omega (arith, ok.begins, ok.size, bounds);
                real = ok.real;
              },
            )
      ]

  search_lem :
      (g : Graph)
      → Spans b g
      → (s' : State Graph) × (search s g (block_data b r.buffer) ≡ some s')
        × Scanned (Spans b) (block_data b r.buffer) b.window_size b.w s'
  unfolding search
  search_lem g ok =
      let p = block_data b r.buffer in
      let size = length-block_data b r.buffer in
      let bounds = n-bounds b r.buffer in
      let begun = start-Scanned p b.window_size b.w g ok (omega (arith, size)) in
      elim (Bool-cases (g.n_edges == 0)) [
        | inl e ↦ (start g b.w, rw e refl, begun)
        | inr e ↦
            let (path, run, goes) =
              path_lem s g n b.data_bytes ok.real ok.early ok.reach (omega (arith, r.least))
                (omega (arith, r.lengths)) (omega (arith, bounds, data-short)) in
            let (s', ran, inv) =
              follow_lem (Spans b) b.data_bytes b.window_size b.w n bounds.0
                (omega (arith, data-short)) path 0 (start g b.w) goes begun (omega arith) in
            (
              s',
              search_run s g p n path s' e (omega (arith, size)) (omega (arith, bounds, data-short))
                  run (ap_at (follow p path (start g b.w)) b.w (b.w + 0) (omega arith) ∙ ran),
              inv,
            )
      ]

  keeps :
      (k : ℕ) (g : Graph)
      → b.w ≤ k
      → k ≤ length b.data_bytes
      → Spans b g
      → Ready (make s.cost s.min_match_len s.max_match_len (record b { w = k }) g)
  keeps k g from le ok = record {
    buffer = moved-IsReady b k r.buffer le;
    indexes = r.indexes;
    least = r.least;
    lengths = r.lengths;
    early = omega (arith, ok.early, from);
    graph = ok.real;
  }

  -- With a block `Parse` of an optimizing suffix array parser that is ready ends without a panic, whatever the costs are,
  -- if `suffix.Sort` makes a suffix array of the data from the start of the window on, and `slices.Sort` sorts. At the end of the data it returns `ErrEmptyBuffer` and
  -- changes nothing. Else it moves the head by `n` bytes, from one to `BlockSize`. Decoded behind the data before the head
  -- and any text before them, the block gives these `n` bytes; its offsets are not 0 and lie within the window; and the
  -- parser is ready for the next call.
  pub optimal-parse_lem :
      (sorted : Sort) (sort_ints : List ℕ → List ℕ)
      → IsSuffixArray (sorted_data s) (sorted (sorted_data s))
      → IsSorting sort_ints
      → (no_literals : Bool)
      → (out : Parser × Block × ℕ × Option Error) × (parse sorted sort_ints s no_literals
          ≡ some out)
        × Parsed buffer_of Ready s out
  unfolding parse
  optimal-parse_lem sorted sort_ints order law no_literals =
      parse_frame buffer_of (make s.cost s.min_match_len s.max_match_len) (λ b t. refl) Ready
        (Spans b) s r.buffer keeps (prepare sorted sort_ints s) (search s) no_literals
        (λ ne. prepare_lem sorted sort_ints order law ne) (λ ne t ok. search_lem t ok)
