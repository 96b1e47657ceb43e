-- ===== src/Greedy.antt =====
-- What the `Parse` methods of the hash parsers (hp.go, bhp.go, dhp.go, bdhp.go, bup.go) share: the frame
-- around the main loop, the loop itself, and the sequence that is appended for a match. They differ in
-- the search for a match and in the entries that are added behind one: the two functions of a
-- `Searcher`. A panic is `none`.
pub mod Found
pub mod Scan
pub mod RoundTrip
pub mod Reads
pub mod Single
pub mod SetUp
pub mod Resets
use lz.Prelude.{
  ℕ, zero, suc, ◌+◌, ◌-◌, ◌%◌, ◌^◌, Bool, ◌&&◌, Option, none, some, ◌>>=◌, List, [], ◌∷◌, ◌++◌,
  length, drop, ltb, ◌==◌, if◌then◌else◌,
}
use lz.Lz.{Bytes, Seq, Block, Error}
use lz.Slices.{slice_from, slice_to}
use lz.ParserBuffer.{ParserBuffer, memory}

-- A match: where it begins, its length `k`, and its offset `o`.
pub record Match : Type 0 where
  pub begin : ℕ
  pub len : ℕ
  pub offset : ℕ

-- `find` is the body of the loop up to the match: the tables are updated at `i`, and give a match, if
-- any. It may begin before `i`, but not before the literals that are not yet written. `fill` adds
-- the entries of the positions in a match that was found at `i`.
pub record Searcher (T : Type 0) : Type 0 where
  pub find : T → (lit_index i : ℕ) → Option (T × Option Match)
  pub fill : T → (i : ℕ) → Match → Option T

-- What the main loop carries: the tables, the start of the literals not yet written, and the block.
pub record State (T : Type 0) : Type 0 where
  pub tables : T
  pub lit_index : ℕ
  pub block : Block

module _ {T : Type 0} where
  -- the state at the start of a block
  abbrev pub start : T → ℕ → State T
  start t w = record { tables = t; lit_index = w; block = record { sequences = []; literals = [] } }

  -- The sequence and the literals of a match, which was found at `i`.
  unfoldable pub emit : Searcher T → Bytes → State T → ℕ → Match → Option (State T)
  emit f p s i m = slice_to m.begin p >>= (λ front. slice_from s.lit_index front >>= (λ q.
      f.fill s.tables i m >>= (λ t. some (record {
        tables = t;
        lit_index = m.begin + m.len;
        block = record {
          sequences =
              s.block.sequences
              ++ record {
                lit_len = length q % 2 ^ 32;
                match_len = m.len % 2 ^ 32;
                offset = m.offset % 2 ^ 32;
                aux = 0;
              }
                ∷ [];
          literals = s.block.literals ++ q;
        };
      }))))

  -- The main loop from `i` to `end`, and where it stops. Each round raises `i`.
  unfoldable pub scan : ℕ → Searcher T → Bytes → (end : ℕ) → State T → ℕ → Option (State T × ℕ)
  scan zero f p end s i = none
  scan (suc fuel) f p end s i =
      let round = f.find s.tables s.lit_index i >>= (λ (t, r).
        let s' = record s { tables = t } in
        elim r [
          | none ↦ scan fuel f p end s' (i + 1)
          | some m ↦ emit f p s' i m >>= (λ s''. scan fuel f p end s'' s''.lit_index)
        ]) in
      if ltb i end then round else some (s, i)

  -- The last part: the block, and the index up to which it goes. `no_literals` is the flag
  -- `NoTrailingLiterals`.
  unfoldable pub trailing : Bool → State T → Bytes → Option (Block × ℕ)
  trailing no_literals s p =
      let rest =
        slice_from s.lit_index p
        >>= (λ q. some (record s.block { literals = s.block.literals ++ q }, length p)) in
      if no_literals && ltb 0 (length s.block.sequences) then some (s.block, s.lit_index) else rest

-- `n` of `Parse`
unfoldable pub block_size : ParserBuffer → ℕ
block_size b = let n = length b.data_bytes - b.w in if ltb b.block_size n then b.block_size else n

module _ {F T : Type 0} (make : ParserBuffer → T → F) (f : F) (b : ParserBuffer) where
  -- `Parse` with a block, of the parser `f` with the buffer `b`. `prepare` adds the entries that end at
  -- the head, and `search` is the main loop, or the loops, over `p` from the head on.
  unfoldable pub parse :
      Option T → (T → Bytes → Option (State T)) → Bool → Option (F × Block × ℕ × Option Error)
  parse prepare search no_literals =
      let n = block_size b in
      let run = prepare >>= (λ t. slice_to (b.w + n) b.data_bytes >>= (λ p. search t p >>= (λ s.
        trailing no_literals s p
        >>= (λ (blk, i). some (make (record b { w = i }) s.tables, blk, i - b.w, none))))) in
      if n == 0
      then some (f, record { sequences = []; literals = [] }, 0, some Error.err_empty_buffer)
      else run

  -- `Parse` without a block: `prepare` adds the entries of the block's positions.
  unfoldable pub skip : Option T → Option (F × ℕ × Option Error)
  skip prepare =
      let n = block_size b in
      let run = prepare >>= (λ t. some (make (record b { w = b.w + n }) t, n, none)) in
      if n == 0 then some (f, 0, some Error.err_empty_buffer) else run

-- `minMatchLen`, for an input length
unfoldable pub min_match_len : ℕ → ℕ
min_match_len l = if ltb l 3 then l else 3

-- The main loop of a parser that hashes inputs of one length `l`, over `p`: the words are read from the
-- slice `_p`, up to seven bytes longer. `g` makes the search from `_p`, `p`, the window, `minMatchLen`
-- and `inputEnd`.
unfoldable pub single :
    {T : Type 0}
    → ParserBuffer
    → (l : ℕ) → (g : Bytes → Bytes → ℕ → ℕ → ℕ → Searcher T) → T
    → Bytes
    → Option (State T)
single b l g t p =
    let n = block_size b in
    let input_end = b.w + n + 1 - l in
    slice_to (b.w + n + 8 - l) (memory b) >>= (λ full.
      scan (suc n) (g full p b.window_size (min_match_len l) input_end) p input_end (start t b.w)
        b.w
      >>= (λ (s, i). some s))
