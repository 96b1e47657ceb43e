-- ===== src/BackwardDoubleParser.antt =====
-- `bdhp` of bdhp.go: the double hash parser that makes matches longer at the front. Its frame, its reading of
-- words and its second filling loop are those of `doubleHashParser`. A panic is `none`.
pub mod RoundTrip
use lz.Prelude.{ℕ, ◌+◌, Bool, Option, some, ◌>>=◌}
use lz.Lz.{Bytes, Block, Error}
use lz.Greedy
use lz.Greedy.{Match, block_size}
use lz.Matching.{add_up_to, go_back}
use lz.DoubleHash.{Tables, Dictionary}
use lz.DoubleParser.{
  Search, find_both, find_one, fill_rest, fill_one, limit, make, prepare, parse_with,
}

-- What is found by a loop, made longer at the front
unfoldable pub backward :
    Bytes → (lit_index : ℕ) → Option (Tables × Option Match) → Option (Tables × Option Match)
backward p lit_index found = found >>= (λ (t, r). go_back p lit_index r >>= (λ r'. some (t, r')))

-- The loops behind a match of the first loop: both add entries to the first table only.
unfoldable pub fill_first : Bytes → (e1 e2 : ℕ) → Tables → Match → Option Tables
fill_first full e1 e2 t m =
    let b = limit e2 (m.begin + m.len) in
    add_up_to t.h1 full (m.begin + 1) b >>= (λ h1. fill_rest full e1 b (record t { h1 = h1 }) m)

unfoldable pub first_searcher : Search
first_searcher full p window min_len e1 e2 = record {
  find = λ t lit_index i. backward p lit_index (find_both full p window min_len t i);
  fill = λ t i m. fill_first full e1 e2 t m;
}

unfoldable pub second_searcher : Search
second_searcher full p window min_len e1 e2 = record {
  find = λ t lit_index i. backward p lit_index (find_one full p window min_len t i);
  fill = λ t i m. fill_one full e1 t i m;
}

-- `Parse` with a block; `no_literals` is the flag `NoTrailingLiterals`.
unfoldable pub parse : Dictionary → Bool → Option (Dictionary × Block × ℕ × Option Error)
unfolding first_searcher second_searcher
parse = parse_with first_searcher second_searcher

-- `Parse` without a block
unfoldable pub skip : Dictionary → Option (Dictionary × ℕ × Option Error)
skip f = Greedy.skip make f f.buffer (prepare f (f.buffer.w + block_size f.buffer))
