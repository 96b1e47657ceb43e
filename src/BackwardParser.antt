-- ===== src/BackwardParser.antt =====
-- `backwardHashParser` of bhp.go: the hash parser that makes matches longer at the front. Its frame and its
-- reading of words are those of `hashParser`. A panic is `none`.
pub mod RoundTrip
use lz.Prelude.{ℕ, Bool, Option, some, ◌>>=◌}
use lz.Lz.{Bytes, Block, Error}
use lz.Hash.{Hash, Dictionary}
use lz.Greedy.{Match, Searcher}
use lz.Matching.{go_back}
use lz.HashParser
use lz.HashParser.{fill, parse_with}

-- The body of the main loop up to the match: that of `hashParser`, then the part that goes back
unfoldable pub find :
    Bytes → Bytes → ℕ → ℕ → Hash → (lit_index i : ℕ) → Option (Hash × Option Match)
find full p window min_len h lit_index i =
    HashParser.find full p window min_len h i
    >>= (λ (h', r). go_back p lit_index r >>= (λ r'. some (h', r')))

unfoldable pub searcher : Bytes → Bytes → ℕ → ℕ → ℕ → Searcher Hash
searcher full p window min_len input_end = record {
  find = λ h lit_index i. find full p window min_len h lit_index i;
  fill = λ h i m. fill full input_end h m;
}

-- `Parse` with a block; `no_literals` is the flag `NoTrailingLiterals`.
unfoldable pub parse : Dictionary → Bool → Option (Dictionary × Block × ℕ × Option Error)
unfolding searcher
parse = parse_with searcher

-- `Parse` without a block
unfoldable pub skip : Dictionary → Option (Dictionary × ℕ × Option Error)
skip f = HashParser.skip f
