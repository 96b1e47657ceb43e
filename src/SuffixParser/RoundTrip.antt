-- ===== src/SuffixParser/RoundTrip.antt =====
-- `Parse` of the suffix array parser: the block means the data that it consumed.
use Prim.Native.Nat.{max}
use lz.Prelude.{
  ℕ, zero, suc, ◌+◌, ◌-◌, ◌^◌, ◌≤◌, ◌<◌, ◌≡◌, refl, arith, inl, inr, Bool, Option, none, some,
  length, ltb, ◌>>=◌, Bool-cases, take-append_le,
}
use lz.Lz.{Bytes, Block, Error}
use lz.Bytes.Prefix.{AreBytes, take-AreBytes}
use mathlib.Core.Path.{subst}
use lz.ParserBuffer.{ParserBuffer, memory}
use lz.Greedy.{Match, Searcher, State, start, emit, block_size}
use lz.Greedy.Found.{Found}
use lz.Greedy.Scan.{IsSearcher, Scanned, start-Scanned, retabled, emit_lem}
use lz.Greedy.RoundTrip.{
  IsReady, moved-IsReady, Parsed, Skipped, parse_frame, skip_frame, n-bounds, block_data,
  length-block_data,
}
use lz.Suffix.{Sort, IsSort, max_int32}
use lz.SuffixParser.{Arrays, Parser, scan, searcher, make, prepare, search, parse, skip}
use lz.SuffixParser.Index.{IsIndexed, wider-IsIndexed, sort_lem}
use lz.SuffixParser.Search.{Covers, searcher-IsSearcher}

module _ (g : Searcher Arrays) (Ok : Arrays → Type 0) (p : Bytes) (small : length p < 2 ^ 32)
    (w window : ℕ) (law : IsSearcher g Ok p window (length p)) where
  unfoldable Ends : Option (State Arrays) → Type 0
  Ends run = (s' : State Arrays) × (run ≡ some s') × Scanned Ok p window w s'

  -- What the loop does with a look-up, if the rest of the loop is right.
  next :
      (fuel : ℕ)
      → ((s : State Arrays) (i : ℕ)
          → Scanned Ok p window w s
          → s.lit_index ≤ i
          → length p - i < fuel
          → Ends (scan fuel g p s i))
      → (s : State Arrays) (i : ℕ) (r : Option Match) → Scanned Ok p window w s
      → s.lit_index ≤ i
      → i < length p
      → length p - i ≤ fuel
      → Found p window s.lit_index i r
      → Ends (elim r [
        | none ↦ scan fuel g p s (i + 2)
        | some m ↦ emit g p s i m >>= (λ s''. scan fuel g p s'' (max (i + 1) s''.lit_index + 1))
      ])
  next fuel rest s i none inv li lt b found =
      rest s (i + 2) inv (omega arith) (omega (arith, lt, b))
  next fuel rest s i (some m) inv li lt b found =
      let (s', run, at, inv') =
        emit_lem g Ok p small w window (length p) (omega arith) law s i m inv lt found in
      rw run (rest s' (max (i + 1) s'.lit_index + 1) inv' (omega arith) (omega (arith, lt, b)))

  scan_lem :
      (fuel : ℕ) (s : State Arrays) (i : ℕ)
      → Scanned Ok p window w s
      → s.lit_index ≤ i
      → length p - i < fuel
      → Ends (scan fuel g p s i)
  unfolding scan Ends
  scan_lem zero s i inv li b = absurd (omega (arith, b))
  scan_lem (suc fuel) s i inv li b = elim (Bool-cases (ltb i (length p))) [
    | inr e ↦ (s, rw e refl, inv)
    | inl e ↦
        let lt : i < length p = ground (arith, e) in
        let (t, r, run, ok', found) = law.finds s.tables s.lit_index i inv.tables li lt in
        rw (e, run)
          (next fuel (λ s' i'. scan_lem fuel s' i') (record s { tables = t }) i r
            (retabled s t inv ok') li lt (omega (arith, b)) found)
  ]

-- A parser that has been set up, for data that 31 bits can index: the marks are those of positions before the
-- end of the next block.
pub record Ready (s : Parser) : Type 0 where
  pub buffer : IsReady s.buffer
  pub indexes : s.buffer.buffer_size ≤ max_int32
  pub least : 2 ≤ s.min_match_len
  pub arrays : IsIndexed (s.buffer.w + block_size s.buffer) s.arrays

abbrev pub buffer_of : Parser → ParserBuffer
buffer_of s = s.buffer

module _ (s : Parser) (r : Ready s) where
  abbrev b : ParserBuffer
  b = s.buffer

  abbrev end : ℕ
  end = b.w + block_size b

  -- The end of the next block does not fall back.
  keeps :
      (k : ℕ) (t : Arrays)
      → b.w ≤ k
      → k ≤ length b.data_bytes
      → IsIndexed end t
      → Ready (make s.min_match_len (record b { w = k }) t)
  unfolding block_size
  keeps k t from le x = record {
    buffer = moved-IsReady b k r.buffer le;
    indexes = r.indexes;
    least = r.least;
    arrays = wider-IsIndexed (ground (arith, from, le)) x;
  }

  size : length (block_data b r.buffer) ≡ end
  size = length-block_data b r.buffer

  block-AreBytes : AreBytes (block_data b r.buffer)
  block-AreBytes =
      subst AreBytes (take-append_le end b.data_bytes b.spare ((n-bounds b r.buffer).0))
        (take-AreBytes end (memory b) r.buffer.bytes)

  reached : (t : Arrays) → IsIndexed end t → end ≤ length t.sa → Covers (block_data b r.buffer) t
  reached t x le = record {
    indexed = wider-IsIndexed (omega (arith, size)) x;
    reach = omega (arith, le, size);
  }

  prepare_lem :
      (sorted : Sort)
      → IsSort sorted
      → (t : Arrays) × (prepare sorted s ≡ some t) × Covers (block_data b r.buffer) t
  unfolding prepare
  prepare_lem sorted law = elim (Bool-cases (ltb (length s.arrays.sa) end)) [
    | inr e ↦ (s.arrays, rw e refl, reached s.arrays r.arrays (ground (arith, e)))
    | inl e ↦
        let bounds = n-bounds b r.buffer in
        let (t, run, x, long) =
          sort_lem sorted s law r.buffer.valid.head_in
            (omega (arith, r.buffer.valid.in_size, r.indexes)) in
        (t, rw e run, reached t (wider-IsIndexed (omega arith) x) (omega (arith, long, bounds)))
  ]

  search_lem :
      (t : Arrays)
      → Covers (block_data b r.buffer) t
      → (s' : State Arrays) × (search s t (block_data b r.buffer) ≡ some s')
        × Scanned (Covers (block_data b r.buffer)) (block_data b r.buffer) b.window_size b.w s'
  unfolding search Ends
  search_lem t ok =
      let p = block_data b r.buffer in
      let bounds = n-bounds b r.buffer in
      let small : length p < 2 ^ 32 =
        omega (arith, size, bounds, r.buffer.valid.in_size, r.indexes) in
      let pos : 0 < s.min_match_len = omega (arith, r.least) in
      let g = searcher p b.window_size s.min_match_len in
      scan_lem g (Covers p) p small b.w b.window_size
        (searcher-IsSearcher p block-AreBytes b.window_size s.min_match_len pos) (suc (length p))
        (start t b.w) b.w (start-Scanned p b.window_size b.w t ok (omega (arith, size)))
        (omega arith) (omega arith)

  -- With a block `Parse` of a suffix array parser that is ready ends without a panic, whatever array `Sort` returns, if
  -- that lists the positions of the data, each once. At the end of the data it returns
  -- `ErrEmptyBuffer` and changes nothing. Else it moves the head by `n` bytes, from one to
  -- `BlockSize`. Decoded behind the data before the head and any text before them, the block gives these `n` bytes;
  -- its offsets are not 0 and lie within the window; and the parser is ready for the next call.
  pub suffix-parse_lem :
      (sorted : Sort)
      → IsSort sorted
      → (no_literals : Bool)
      → (out : Parser × Block × ℕ × Option Error) × (parse sorted s no_literals ≡ some out)
        × Parsed buffer_of Ready s out
  unfolding parse
  suffix-parse_lem sorted law no_literals =
      parse_frame buffer_of (make s.min_match_len) (λ b t. refl) Ready
        (Covers (block_data b r.buffer)) s r.buffer
        (λ k t from le ok. keeps k t from le (wider-IsIndexed (omega (arith, size)) ok.indexed))
        (prepare sorted s) (search s) no_literals (λ e. prepare_lem sorted law)
        (λ e t ok. search_lem t ok)

  -- Without a block `Parse` moves the head by as much, and the parser is ready for the next call.
  suffix-skip_lem :
      (out : Parser × ℕ × Option Error) × (skip s ≡ some out) × Skipped buffer_of Ready s out
  unfolding skip
  suffix-skip_lem =
      skip_frame buffer_of (make s.min_match_len) (λ b t. refl) Ready (IsIndexed end) s r.buffer
        keeps (some s.arrays) (λ e. (s.arrays, refl, r.arrays))
