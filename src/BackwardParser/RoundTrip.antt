-- ===== src/BackwardParser/RoundTrip.antt =====
-- `Parse` of the backward hash parser: the block means the data that it consumed.
use lz.Prelude.{ℕ, ◌+◌, ◌≤◌, ◌<◌, ◌≡◌, ◌⊎◌, refl, arith, Bool, Option, some, ◌++◌, length}
use lz.Lz.{Bytes, Block, Error}
use lz.Bytes.Prefix.{AreBytes}
use lz.Hash.{Hash, Dictionary}
use lz.Hash.Table.{IsTable}
use lz.Greedy.{Match}
use lz.Greedy.Found.{Found}
use lz.Greedy.Scan.{IsSearcher}
use lz.Greedy.RoundTrip.{Parsed}
use lz.Matching.Backward.{go_back_lem}
use lz.HashParser.Search.{find-Candidate, fill_lem}
use lz.HashParser.RoundTrip.{Ready, buffer_of, parse_with_lem}
use lz.BackwardParser.{find, searcher, parse}

module _ (p extra : Bytes) (hp : AreBytes p) (hf : AreBytes (p ++ extra))
    (window min_len input_end : ℕ) (pos : 0 < min_len) (in_p : input_end ≤ length p)
    (room : (input_end ≡ 0) ⊎ (input_end + 7 ≤ length (p ++ extra))) where
  find_lem :
      (h : Hash) (lit_index i : ℕ)
      → IsTable h
      → lit_index ≤ i
      → i < input_end
      → (h' : Hash) × (r : Option Match) × (find (p ++ extra) p window min_len h lit_index i
          ≡ some (h', r))
        × IsTable h'
        × Found p window lit_index i r
  unfolding find
  find_lem h lit_index i ok li lt =
      let (h', r, j, run, ok', _, good) =
        find-Candidate p extra hp hf window min_len input_end pos in_p room h i ok lt in
      let (r', back, found) =
        go_back_lem p window min_len lit_index i j r hp li (omega (arith, in_p, lt)) pos good in
      (h', r', rw (run, back) refl, ok', found)

  searcher-IsSearcher :
      IsSearcher (searcher (p ++ extra) p window min_len input_end) IsTable p window input_end
  unfolding searcher
  searcher-IsSearcher = record {
    finds = λ h lit_index i ok li lt. find_lem h lit_index i ok li lt;
    fills = λ h lit_index i m ok lt found.
        fill_lem p extra hp hf window min_len input_end pos in_p room h m ok;
  }

-- With a block `Parse` of a backward hash parser that is ready ends without a panic. At the end of the
-- data it returns `ErrEmptyBuffer` and changes nothing. Else it moves the head by `n` bytes, from one to
-- `BlockSize`. Decoded behind the data before the head and any text before them, the block gives these `n` bytes, although
-- matches are made longer at the front; its offsets are not 0 and lie within the window; and the
-- parser is ready for the next call.
pub backward-parse_lem :
    (f : Dictionary)
    → Ready f
    → (no_literals : Bool)
    → (out : Dictionary × Block × ℕ × Option Error) × (parse f no_literals ≡ some out)
      × Parsed buffer_of Ready f out
unfolding parse
backward-parse_lem = parse_with_lem searcher searcher-IsSearcher
