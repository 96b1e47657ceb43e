-- ===== src/BackwardDoubleParser/RoundTrip.antt =====
-- `Parse` of the backward double hash parser: the block means the data that it consumed.
use lz.Prelude.{ℕ, ◌+◌, ◌≤◌, ◌<◌, ◌≡◌, ◌⊎◌, refl, arith, Bool, Option, some, ◌++◌, length}
use lz.Lz.{Bytes, Block, Error}
use lz.Bytes.Prefix.{AreBytes}
use lz.Greedy.{Match, block_size}
use lz.Greedy.Found.{Found}
use lz.Greedy.Scan.{IsSearcher}
use lz.Greedy.RoundTrip.{Parsed, Skipped, skip_frame}
use lz.Matching.Candidate.{Candidate, add_up_to_lem}
use lz.Matching.Backward.{go_back_lem}
use lz.DoubleHash.{Tables, Dictionary}
use lz.DoubleHash.Segment.{AreTables}
use lz.DoubleParser.{limit, make, prepare}
use lz.DoubleParser.Search.{
  replaced, find_both-Candidate, find_one-Candidate, fill_rest_lem, fill_one_lem,
}
use lz.DoubleParser.RoundTrip.{Ready, buffer_of, prepare_lem, keeps, parse_with_lem}
use lz.BackwardDoubleParser.{backward, fill_first, first_searcher, second_searcher, parse, skip}

module _ (p extra : Bytes) (hp : AreBytes p) (hf : AreBytes (p ++ extra)) (window min_len e1 e2 : ℕ)
    (pos : 0 < min_len) (order : e2 ≤ e1) (in_p : e1 ≤ length p)
    (room : (e1 ≡ 0) ⊎ (e1 + 7 ≤ length (p ++ extra))) where
  abbrev full : Bytes
  full = p ++ extra

  -- Going back after a search
  backward_lem :
      (run : Option (Tables × Option Match)) (lit_index i : ℕ)
      → lit_index ≤ i
      → i < e1
      → ((t' : Tables) × (r : Option Match) × (j : ℕ) × (run ≡ some (t', r))
          × AreTables t'
          × Candidate p window min_len i j r)
      → (t' : Tables) × (r : Option Match) × (backward p lit_index run ≡ some (t', r))
        × AreTables t'
        × Found p window lit_index i r
  unfolding backward
  backward_lem run lit_index i li lt (t', r, j, found, ok, good) =
      let (r', back, found') =
        go_back_lem p window min_len lit_index i j r hp li (omega (arith, in_p, lt)) pos good in
      (t', r', rw (found, back) refl, ok, found')

  fill_first_lem :
      (t : Tables) (m : Match)
      → AreTables t
      → (t' : Tables) × (fill_first full e1 e2 t m ≡ some t') × AreTables t'
  unfolding fill_first limit
  fill_first_lem t m ok =
      let b = limit e2 (m.begin + m.len) in
      let (h1, run, ok1, same) =
        add_up_to_lem t.h1 full (m.begin + 1) b ok.first hf (ground (arith, room, order)) in
      let (t', run', ok') =
        fill_rest_lem p extra hp hf window min_len e1 e2 pos order in_p room (record t { h1 = h1 })
          b m (replaced t h1 ok (ok1, same)) in
      (t', rw run run', ok')

  first_searcher-IsSearcher :
      IsSearcher (first_searcher full p window min_len e1 e2) AreTables p window e2
  unfolding first_searcher
  first_searcher-IsSearcher = record {
    finds = λ t lit_index i ok li lt.
        backward_lem _ lit_index i li (omega (arith, lt, order))
          (find_both-Candidate p extra hp hf window min_len e1 e2 pos order in_p room t i ok lt);
    fills = λ t lit_index i m ok lt found. fill_first_lem t m ok;
  }

  second_searcher-IsSearcher :
      IsSearcher (second_searcher full p window min_len e1 e2) AreTables p window e1
  unfolding second_searcher
  second_searcher-IsSearcher = record {
    finds = λ t lit_index i ok li lt.
        backward_lem _ lit_index i li lt
          (find_one-Candidate p extra hp hf window min_len e1 e2 pos order in_p room t i ok lt);
    fills = λ t lit_index i m ok lt found.
        fill_one_lem p extra hp hf window min_len e1 e2 pos order in_p room t i m ok;
  }

-- With a block `Parse` of a backward double hash parser that is ready ends without a panic. At the end
-- of the data it returns `ErrEmptyBuffer` and changes nothing. Else it moves the head by `n` bytes,
-- from one to `BlockSize`. Decoded behind the data before the head and any text before them, the block gives these `n` bytes; its
-- offsets are not 0 and lie within the window; and the parser is ready for the next call.
pub backward_double-parse_lem :
    (f : Dictionary)
    → Ready f
    → (no_literals : Bool)
    → (out : Dictionary × Block × ℕ × Option Error) × (parse f no_literals ≡ some out)
      × Parsed buffer_of Ready f out
unfolding parse
backward_double-parse_lem =
    parse_with_lem first_searcher second_searcher first_searcher-IsSearcher
      second_searcher-IsSearcher

-- Without a block `Parse` of a backward double hash parser that is ready ends without a panic. At the end
-- of the data it returns `ErrEmptyBuffer` and changes nothing. Else it moves the head by `n` bytes, from
-- one to `BlockSize`, and the parser is ready for the next call.
pub backward_double-skip_lem :
    (f : Dictionary)
    → Ready f
    → (out : Dictionary × ℕ × Option Error) × (skip f ≡ some out) × Skipped buffer_of Ready f out
unfolding skip
backward_double-skip_lem f r =
    let b = f.buffer.w + block_size f.buffer in
    skip_frame buffer_of make (λ b t. refl) Ready AreTables f r.buffer (λ k t from. keeps f r k t)
      (prepare f b) (prepare_lem f b r)
