-- ===== src/DoubleParser.antt =====
-- `doubleHashParser` of dhp.go: its greedy `Parse` over two tables. A panic is `none`.
pub mod Search
pub mod RoundTrip
pub mod Skip
pub mod Setup
use lz.Prelude.{ℕ, zero, suc, ◌+◌, ◌-◌, Bool, Option, none, some, ◌>>=◌, ltb, ◌==◌, if◌then◌else◌}
use lz.Lz.{Bytes, Block, Error}
use lz.Slices.{slice_to}
use lz.ParserBuffer.{ParserBuffer, memory}
use lz.Hash
use lz.Hash.{Hash, Entry}
use lz.Greedy
use lz.Greedy.{Match, Searcher, State, start, scan, block_size, min_match_len}
use lz.Matching.{word_at, look_up, candidate, add_up_to}
use lz.HashParser
use lz.DoubleHash.{Tables, Dictionary, process_segment}

-- The body of the first loop up to the match: the entry of the longer input goes first.
unfoldable pub find_both : Bytes → Bytes → ℕ → ℕ → Tables → ℕ → Option (Tables × Option Match)
find_both full p window min_len t i = word_at full i >>= (λ y.
    look_up t.h2 i y >>= (λ (h2, entry2, v2). look_up t.h1 i y >>= (λ (h1, entry1, v1).
      let t' : Tables = record { h1 = h1; h2 = h2 } in
      let from2 = candidate full p window min_len i entry2.position y >>= (λ r. some (t', r)) in
      let from1 = candidate full p window min_len i entry1.position y >>= (λ r. some (t', r)) in
      if v2 == entry2.value then from2 else if v1 == entry1.value then from1 else some (t', none))))

-- The body of the second loop up to the match, where only the shorter input fits
unfoldable pub find_one : Bytes → Bytes → ℕ → ℕ → Tables → ℕ → Option (Tables × Option Match)
find_one full p window min_len t i =
    HashParser.find full p window min_len t.h1 i >>= (λ (h1, r). some (record t { h1 = h1 }, r))

-- The loop that adds `n` entries from `i` on to both tables
unfoldable pub add_both : Tables → Bytes → (i n : ℕ) → Option Tables
add_both t p i zero = some t
add_both t p i (suc n) =
    Hash.add t.h2 p i
    >>= (λ h2. Hash.add t.h1 p i >>= (λ h1. add_both (record { h1 = h1; h2 = h2 }) p (i + 1) n))

-- `litIndex`, or `e` if that is less
unfoldable pub limit : (e lit_index : ℕ) → ℕ
limit e lit_index = if ltb e lit_index then e else lit_index

-- The last loop behind a match: from where the first one stopped, the first table goes on alone.
unfoldable pub fill_rest : Bytes → (e1 b : ℕ) → Tables → Match → Option Tables
fill_rest full e1 b t m =
    let lit_index = m.begin + m.len in
    let j = if ltb b (m.begin + 1) then m.begin + 1 else b in
    let rest = add_up_to t.h1 full j (limit e1 lit_index) >>= (λ h1. some (record t { h1 = h1 })) in
    if ltb j lit_index then rest else some t

-- The loops behind a match of the first loop
unfoldable pub fill_both : Bytes → (e1 e2 : ℕ) → Tables → Match → Option Tables
fill_both full e1 e2 t m =
    let b = limit e2 (m.begin + m.len) in
    add_both t full (m.begin + 1) (b - (m.begin + 1)) >>= (λ t'. fill_rest full e1 b t' m)

-- The loop behind a match of the second loop, which was found at `i`. It starts at the position of the
-- entry, `j`.
unfoldable pub fill_one : Bytes → (e1 : ℕ) → Tables → (i : ℕ) → Match → Option Tables
fill_one full e1 t i m =
    add_up_to t.h1 full (i - m.offset) (limit e1 (m.begin + m.len))
    >>= (λ h1. some (record t { h1 = h1 }))

-- The searches of the first and the second loop, from `_p`, `p`, the window, `minMatchLen`, `e1` and `e2`
abbrev pub Search : Type 0
Search = Bytes → Bytes → (window min_len e1 e2 : ℕ) → Searcher Tables

unfoldable pub first_searcher : Search
first_searcher full p window min_len e1 e2 = record {
  find = λ t lit_index i. find_both full p window min_len t i;
  fill = λ t i m. fill_both full e1 e2 t m;
}

unfoldable pub second_searcher : Search
second_searcher full p window min_len e1 e2 = record {
  find = λ t lit_index i. find_one full p window min_len t i;
  fill = λ t i m. fill_one full e1 t i m;
}

-- A parser of a buffer and two tables
abbrev pub make : ParserBuffer → Tables → Dictionary
make b t = record { buffer = b; tables = t }

-- `processSegment`, and the tables that it makes
abbrev pub prepare : Dictionary → ℕ → Option Tables
prepare f b = process_segment f (f.buffer.w + 1 - f.tables.h2.input_len) b

-- The two loops, over `p`, with the searches `g` and `g'`
unfoldable pub search : (g g' : Search) → Dictionary → Tables → Bytes → Option (State Tables)
search g g' f t p =
    let b = f.buffer in
    let n = block_size b in
    let l1 = f.tables.h1.input_len in
    let e1 = b.w + n + 1 - l1 in
    let e2 = b.w + n + 1 - f.tables.h2.input_len in
    let m = min_match_len l1 in
    slice_to (b.w + n + 8 - l1) (memory b) >>= (λ full.
      scan (suc n) (g full p b.window_size m e1 e2) p e2 (start t b.w) b.w >>= (λ (s, i).
        scan (suc n) (g' full p b.window_size m e1 e2) p e1 s i >>= (λ (s', i'). some s')))

-- `Parse` with a block, of a parser with two tables; `no_literals` is the flag `NoTrailingLiterals`.
unfoldable pub parse_with :
    (g g' : Search) → Dictionary → Bool → Option (Dictionary × Block × ℕ × Option Error)
parse_with g g' f no_literals =
    Greedy.parse make f f.buffer (prepare f f.buffer.w) (search g g' f) no_literals

unfoldable pub parse : Dictionary → Bool → Option (Dictionary × Block × ℕ × Option Error)
unfolding first_searcher second_searcher
parse = parse_with first_searcher second_searcher

-- `Parse` without a block. The head stays where it is.
unfoldable pub skip : Dictionary → Option (Dictionary × ℕ × Option Error)
skip f =
    let n = block_size f.buffer in
    let run = prepare f (f.buffer.w + n) >>= (λ t. some (record f { tables = t }, n, none)) in
    if n == 0 then some (f, 0, some Error.err_empty_buffer) else run
