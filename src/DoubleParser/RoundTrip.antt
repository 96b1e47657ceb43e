-- ===== src/DoubleParser/RoundTrip.antt =====
-- `Parse` of the double hash parser: the block means the data that it consumed.
use lz.Prelude.{
  ℕ, suc, ◌+◌, ◌-◌, ◌^◌, ◌≤◌, ◌<◌, ◌≡◌, ◌≢◌, ◌⊎◌, refl, arith, Bool, Option, some, length, ◌++◌,
}
use lz.Lz.{Bytes, Block, Error}
use lz.Bytes.Prefix.{AreBytes}
use lz.ParserBuffer.{ParserBuffer}
use lz.DoubleHash.{Tables, Dictionary}
use lz.DoubleHash.Segment.{AreTables, double-process_segment_lem}
use lz.Greedy.{State, start, block_size, min_match_len}
use lz.Greedy.Scan.{IsSearcher, Scanned, Scans, start-Scanned, scan_lem}
use lz.Greedy.RoundTrip.{
  IsReady, moved-IsReady, Parsed, n-bounds, block_data, length-block_data, parse_frame,
}
use lz.Greedy.Reads.{reads, reads-length, block-AreBytes, reads-AreBytes, extra}
use lz.Greedy.Single.{min_match_len-pos}
use lz.DoubleParser.{
  Search, first_searcher, second_searcher, make, prepare, search, parse_with, parse,
}
use lz.DoubleParser.Search.{first_searcher-IsSearcher, second_searcher-IsSearcher}

-- A parser that has been set up.
pub record Ready (f : Dictionary) : Type 0 where
  pub buffer : IsReady f.buffer
  pub tables : AreTables f.tables

abbrev pub buffer_of : Dictionary → ParserBuffer
buffer_of f = f.buffer

pub prepare_lem :
    (f : Dictionary) (b : ℕ)
    → Ready f
    → block_size f.buffer ≢ 0
    → (t : Tables) × (prepare f b ≡ some t) × AreTables t
unfolding block_size
prepare_lem f b r e =
    double-process_segment_lem f (f.buffer.w + 1 - f.tables.h2.input_len) b r.tables r.buffer.bytes
      (ground (arith, e, r.buffer.valid.margin))

pub keeps :
    (f : Dictionary)
    → Ready f
    → (k : ℕ) (t : Tables) → k ≤ length f.buffer.data_bytes
    → AreTables t
    → Ready (make (record f.buffer { w = k }) t)
keeps f r k t le ok = record { buffer = moved-IsReady f.buffer k r.buffer le; tables = ok }

-- What the searches of the two loops have to be; `select` picks the end of the loop.
abbrev pub Law : (g : Search) (select : ℕ → ℕ → ℕ) → Type 0
Law g select =
    (p extra : Bytes)
    → AreBytes p
    → AreBytes (p ++ extra)
    → (window min_len e1 e2 : ℕ) → 0 < min_len
    → e2 ≤ e1
    → e1 ≤ length p
    → (e1 ≡ 0) ⊎ (e1 + 7 ≤ length (p ++ extra))
    → IsSearcher (g (p ++ extra) p window min_len e1 e2) AreTables p window (select e1 e2)

module _ (g g' : Search) (law : Law g (λ e1 e2. e2)) (law' : Law g' (λ e1 e2. e1)) (f : Dictionary)
    (r : Ready f) where
  abbrev w : ℕ
  w = f.buffer.w

  abbrev n : ℕ
  n = block_size f.buffer

  abbrev l1 : ℕ
  l1 = f.tables.h1.input_len

  abbrev l2 : ℕ
  l2 = f.tables.h2.input_len

  search_lem :
      n ≢ 0
      → (t : Tables) → AreTables t
      → (s : State Tables) × (search g g' f t (block_data f.buffer r.buffer) ≡ some s)
        × Scanned AreTables (block_data f.buffer r.buffer) f.buffer.window_size w s
  unfolding search Scans
  search_lem e t ok =
      let least = r.tables.first.input_least in
      let most = r.tables.first.input_most in
      let p = block_data f.buffer r.buffer in
      let size = length-block_data f.buffer r.buffer in
      let behind = extra f.buffer r.buffer l1 least most in
      let room = reads-length f.buffer r.buffer l1 least most e in
      let e1 = w + n + 1 - l1 in
      let e2 = w + n + 1 - l2 in
      let window = f.buffer.window_size in
      let in_p : e1 ≤ length p = omega (arith, size, least) in
      let order : e2 ≤ e1 = omega (arith, r.tables.shorter) in
      let fits : (e1 ≡ 0) ⊎ (e1 + 7 ≤ length (p ++ behind)) = omega (arith, room, least, most) in
      let small : length p < 2 ^ 32 =
        omega (arith, size, n-bounds f.buffer r.buffer, r.buffer.valid.in_size, r.buffer.small) in
      let block = block-AreBytes f.buffer r.buffer l1 least most in
      let bytes = reads-AreBytes f.buffer r.buffer l1 least most in
      let pos = min_match_len-pos l1 least in
      let first = law p behind block bytes window (min_match_len l1) e1 e2 pos order in_p fits in
      let second = law' p behind block bytes window (min_match_len l1) e1 e2 pos order in_p fits in
      let (s, i, run, inv, li, from, _) =
        scan_lem _ AreTables p small w window e2 (omega (arith, order, in_p)) first (suc n)
          (start t w) w (start-Scanned p window w t ok (omega (arith, size))) (omega arith)
          (omega (arith, order, least)) in
      let (s', i', run', inv', _, _, _) =
        scan_lem _ AreTables p small w window e1 in_p second (suc n) s i inv li
          (omega (arith, from, least)) in
      (s', rw (reads f.buffer r.buffer l1 least most e, run, run') refl, inv')

  pub parse_with_lem :
      (no_literals : Bool)
      → (out : Dictionary × Block × ℕ × Option Error) × (parse_with g g' f no_literals ≡ some out)
        × Parsed buffer_of Ready f out
  unfolding parse_with
  parse_with_lem no_literals =
      parse_frame buffer_of make (λ b t. refl) Ready AreTables f r.buffer
        (λ k t from. keeps f r k t) (prepare f w) (search g g' f) no_literals (prepare_lem f w r)
        search_lem

-- With a block `Parse` of a double hash parser that is ready ends without a panic. At the end of the
-- data it returns `ErrEmptyBuffer` and changes nothing. Else it moves the head by `n` bytes, from one to
-- `BlockSize`. Decoded behind the data before the head and any text before them, the block gives these `n` bytes; its offsets
-- are not 0 and lie within the window; and the parser is ready for the next call.
pub double-parse_lem :
    (f : Dictionary)
    → Ready f
    → (no_literals : Bool)
    → (out : Dictionary × Block × ℕ × Option Error) × (parse f no_literals ≡ some out)
      × Parsed buffer_of Ready f out
unfolding parse
double-parse_lem =
    parse_with_lem first_searcher second_searcher first_searcher-IsSearcher
      second_searcher-IsSearcher
