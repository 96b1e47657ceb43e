-- ===== src/HashParser/RoundTrip.antt =====
-- `Parse` of the hash parser: the block means the data that it consumed.
use lz.Prelude.{ℕ, ◌+◌, ◌-◌, ◌≤◌, ◌≡◌, refl, Bool, Option, some, length}
use lz.Lz.{Bytes, Block, Error}
use lz.ParserBuffer.{ParserBuffer}
use lz.Hash.{Hash, Dictionary}
use lz.Hash.Table.{IsTable, process_segment_lem}
use lz.Greedy.{Searcher}
use lz.Greedy.RoundTrip.{IsReady, moved-IsReady, Parsed, parse_frame}
use lz.Greedy.Single.{Law, single_lem}
use lz.HashParser.{searcher, make, prepare, search, parse_with, parse}
use lz.HashParser.Search.{searcher-IsSearcher}

-- A parser that has been set up.
pub record Ready (f : Dictionary) : Type 0 where
  pub buffer : IsReady f.buffer
  pub table : IsTable f.hash

abbrev pub buffer_of : Dictionary → ParserBuffer
buffer_of f = f.buffer

pub prepare_lem :
    (f : Dictionary) (b : ℕ) → Ready f → (h : Hash) × (prepare f b ≡ some h) × IsTable h
prepare_lem f b r =
    let (h, run, ok) =
      process_segment_lem f (f.buffer.w + 1 - f.hash.input_len) b r.table r.buffer.bytes
        r.buffer.valid.margin in
    (h, rw run refl, ok)

pub keeps :
    (f : Dictionary)
    → Ready f
    → (k : ℕ) (h : Hash) → k ≤ length f.buffer.data_bytes
    → IsTable h
    → Ready (make (record f.buffer { w = k }) h)
keeps f r k h le ok = record { buffer = moved-IsReady f.buffer k r.buffer le; table = ok }

module _ (g : Bytes → Bytes → ℕ → ℕ → ℕ → Searcher Hash) (law : Law g IsTable) (f : Dictionary)
    (r : Ready f) where
  pub parse_with_lem :
      (no_literals : Bool)
      → (out : Dictionary × Block × ℕ × Option Error) × (parse_with g f no_literals ≡ some out)
        × Parsed buffer_of Ready f out
  unfolding parse_with search
  parse_with_lem no_literals =
      parse_frame buffer_of make (λ b h. refl) Ready IsTable f r.buffer (λ k t from. keeps f r k t)
        (prepare f f.buffer.w) (search g f) no_literals (λ e. prepare_lem f f.buffer.w r)
        (single_lem g IsTable law f.buffer r.buffer f.hash.input_len r.table.input_least
          r.table.input_most)

-- With a block `Parse` of a parser that is ready ends without a panic. At the end of the data it
-- returns `ErrEmptyBuffer` and changes nothing. Else it moves the head by `n` bytes, from one to
-- `BlockSize`. Decoded behind the data before the head and any text before them, the block gives these `n` bytes; its
-- offsets are not 0 and lie within the window; and the parser is ready for the next call.
pub parse_lem :
    (f : Dictionary)
    → Ready f
    → (no_literals : Bool)
    → (out : Dictionary × Block × ℕ × Option Error) × (parse f no_literals ≡ some out)
      × Parsed buffer_of Ready f out
unfolding parse
parse_lem = parse_with_lem searcher searcher-IsSearcher
