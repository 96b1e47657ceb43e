-- ===== src/HashParser.antt =====
-- `hashParser` of hp.go: its greedy `Parse`. A panic is `none`.
pub mod Search
pub mod RoundTrip
pub mod Kept
pub mod Setup
pub mod Config
use lz.Prelude.{ℕ, suc, ◌+◌, ◌-◌, Bool, not, Option, none, some, ◌>>=◌, ltb, ◌==◌, if◌then◌else◌}
use lz.Lz.{Bytes, Block, Error}
use lz.Slices.{slice_to}
use lz.ParserBuffer.{ParserBuffer, memory}
use lz.Hash
use lz.Hash.{Hash, Dictionary}
use lz.Greedy
use lz.Greedy.{Match, Searcher, State, single, block_size}
use lz.Matching.{word_at, look_up, candidate, add_up_to}

-- The body of the main loop up to the match
unfoldable pub find : Bytes → Bytes → ℕ → ℕ → Hash → ℕ → Option (Hash × Option Match)
find full p window min_len h i = word_at full i >>= (λ y. look_up h i y >>= (λ (h', entry, v).
    let found = candidate full p window min_len i entry.position y >>= (λ r. some (h', r)) in
    if not (v == entry.value) then some (h', none) else found))

-- The loop behind the match, up to the end of the inputs
unfoldable pub fill : Bytes → ℕ → Hash → Match → Option Hash
fill full input_end h m =
    let lit_index = m.begin + m.len in
    add_up_to h full (m.begin + 1) (if ltb input_end lit_index then input_end else lit_index)

unfoldable pub searcher : Bytes → Bytes → ℕ → ℕ → ℕ → Searcher Hash
searcher full p window min_len input_end = record {
  find = λ h lit_index i. find full p window min_len h i;
  fill = λ h i m. fill full input_end h m;
}

-- A parser of a buffer and a table
abbrev pub make : ParserBuffer → Hash → Dictionary
make b h = record { buffer = b; hash = h }

-- `processSegment`, and the table that it makes
abbrev pub prepare : Dictionary → ℕ → Option Hash
prepare f b = Hash.process_segment f (f.buffer.w + 1 - f.hash.input_len) b >>= (λ g. some g.hash)

-- The main loop of a parser with one table, for the search `g`
unfoldable pub search :
    (g : Bytes → Bytes → ℕ → ℕ → ℕ → Searcher Hash)
    → Dictionary
    → Hash
    → Bytes
    → Option (State Hash)
search g f h p = single f.buffer f.hash.input_len g h p

-- `Parse` with a block, of a parser with one table; `no_literals` is the flag `NoTrailingLiterals`.
unfoldable pub parse_with :
    (g : Bytes → Bytes → ℕ → ℕ → ℕ → Searcher Hash)
    → Dictionary
    → Bool
    → Option (Dictionary × Block × ℕ × Option Error)
parse_with g f no_literals =
    Greedy.parse make f f.buffer (prepare f f.buffer.w) (search g f) no_literals

unfoldable pub parse : Dictionary → Bool → Option (Dictionary × Block × ℕ × Option Error)
unfolding searcher
parse = parse_with searcher

-- `Parse` without a block
unfoldable pub skip : Dictionary → Option (Dictionary × ℕ × Option Error)
skip f = Greedy.skip make f f.buffer (prepare f (f.buffer.w + block_size f.buffer))
