-- ===== src/BucketParser/RoundTrip.antt =====
-- `Parse` of the bucket parser: the block means the data that it consumed.
use lz.Prelude.{ℕ, ◌+◌, ◌-◌, ◌≤◌, ◌≡◌, refl, Bool, Option, some, length}
use lz.Lz.{Block, Error}
use lz.ParserBuffer.{ParserBuffer}
use lz.BucketHash.{BucketHash, Dictionary}
use lz.BucketHash.Ring.{AreBuckets, bucket-process_segment_lem}
use lz.Greedy.{block_size}
use lz.Greedy.RoundTrip.{IsReady, moved-IsReady, Parsed, Skipped, parse_frame, skip_frame}
use lz.Greedy.Single.{single_lem}
use lz.BucketParser.{searcher, make, prepare, search, parse, skip}
use lz.BucketParser.Search.{searcher-IsSearcher}

-- A parser that has been set up.
pub record Ready (f : Dictionary) : Type 0 where
  pub buffer : IsReady f.buffer
  pub table : AreBuckets f.hash

abbrev pub buffer_of : Dictionary → ParserBuffer
buffer_of f = f.buffer

module _ (f : Dictionary) (r : Ready f) where
  keeps :
      (k : ℕ) (t : BucketHash)
      → k ≤ length f.buffer.data_bytes
      → AreBuckets t
      → Ready (make (record f.buffer { w = k }) t)
  keeps k t le ok = record { buffer = moved-IsReady f.buffer k r.buffer le; table = ok }

  prepare_lem : (b : ℕ) → (t : BucketHash) × (prepare f b ≡ some t) × AreBuckets t
  prepare_lem b =
      bucket-process_segment_lem f (f.buffer.w + 1 - f.hash.input_len) b r.table r.buffer.bytes
        r.buffer.valid.margin

  -- With a block `Parse` of a bucket parser that is ready ends without a panic. At the end of the data
  -- it returns `ErrEmptyBuffer` and changes nothing. Else it moves the head by `n` bytes, from one to
  -- `BlockSize`. Decoded behind the data before the head and any text before them, the block gives these `n` bytes; its offsets
  -- are not 0 and lie within the window; and the parser is ready for the next call.
  pub bucket-parse_lem :
      (no_literals : Bool)
      → (out : Dictionary × Block × ℕ × Option Error) × (parse f no_literals ≡ some out)
        × Parsed buffer_of Ready f out
  unfolding parse search
  bucket-parse_lem no_literals =
      parse_frame buffer_of make (λ b t. refl) Ready AreBuckets f r.buffer (λ k t from. keeps k t)
        (prepare f f.buffer.w) (search f) no_literals (λ e. prepare_lem f.buffer.w)
        (single_lem searcher AreBuckets searcher-IsSearcher f.buffer r.buffer f.hash.input_len
          r.table.input_least r.table.input_most)

  -- Without a block `Parse` of a bucket parser that is ready ends without a panic. At the end of the
  -- data it returns `ErrEmptyBuffer` and changes nothing. Else it moves the head by `n` bytes, from one
  -- to `BlockSize`, and the parser is ready for the next call.
  pub bucket-skip_lem :
      (out : Dictionary × ℕ × Option Error) × (skip f ≡ some out) × Skipped buffer_of Ready f out
  unfolding skip
  bucket-skip_lem =
      let b = f.buffer.w + block_size f.buffer in
      skip_frame buffer_of make (λ b t. refl) Ready AreBuckets f r.buffer (λ k t from. keeps k t)
        (prepare f b) (λ e. prepare_lem b)
