-- ===== src/BucketParser.antt =====
-- `bucketParser` of bup.go: its greedy `Parse` over a table with buckets. A panic is `none`.
pub mod Search
pub mod RoundTrip
pub mod Setup
use Prim.Native.Nat.{bit_and}
use lz.Prelude.{
  ℕ, ◌+◌, ◌-◌, ◌%◌, ◌^◌, Bool, true, false, not, ◌&&◌, ◌||◌, Option, none, some, ◌>>=◌, List, [],
  ◌∷◌, get_elem?, ltb, leb, ◌==◌, if◌then◌else◌,
}
use lz.Lz.{Bytes, Block, Error}
use lz.Slices.{slice_from}
use lz.Bytes.{lcp}
use lz.ParserBuffer.{ParserBuffer}
use lz.Hash.{Entry, hash_value}
use lz.Greedy
use lz.Greedy.{Match, Searcher, State, single, block_size}
use lz.Matching.{word_at}
use lz.BucketHash.{BucketHash, Dictionary, bucket, add, add_range, process_segment}

-- What the loop over a bucket carries: whether it has stopped, and the best offset and length so far.
pub record Best : Type 0 where
  pub stop : Bool
  pub offset : ℕ
  pub len : ℕ

-- the test of the byte behind the best match, which is made if there is one
unfoldable pub same_byte : Bytes → (i j k : ℕ) → Option Bool
same_byte p i j k =
    let test =
      get_elem? p (j + k - 1) >>= (λ a. get_elem? p (i + k - 1) >>= (λ b. some (a == b))) in
    if ltb 0 k then test else some true

-- The part of the round behind the test: the match with `j` replaces the best one, if it is longer, or as
-- long and nearer.
unfoldable pub longer : Bytes → (i j : ℕ) → Best → Option Best
longer p i j best = slice_from j p >>= (λ r. slice_from i p >>= (λ q. lcp r q >>= (λ k. some (
    if ltb k best.len || (k == best.len && leb best.offset (i - j))
    then best
    else record { stop = false; offset = i - j; len = k }))))

-- A round of the loop: an entry of another value is left out, and an empty one ends the loop.
unfoldable pub round : Bytes → (window i v : ℕ) → Entry → Best → Option Best
round p window i v e best =
    let o = i - e.position in
    let test =
      same_byte p i e.position best.len
      >>= (λ same. if same then longer p i e.position best else some best) in
    if not (v == e.value)
    then some (record best { stop = e.value == 0 && e.position == 0 })
    else if not (ltb 0 o && leb o window)
    then some best
    else test

-- the loop over a bucket
unfoldable pub search_bucket : Bytes → (window i v : ℕ) → List Entry → Best → Option Best
search_bucket p window i v [] best = some best
search_bucket p window i v (e ∷ es) best = round p window i v e best >>= (λ best'.
    let rest = search_bucket p window i v es best' in if best'.stop then some best' else rest)

-- The body of the main loop up to the match
unfoldable pub find : Bytes → Bytes → ℕ → ℕ → BucketHash → ℕ → Option (BucketHash × Option Match)
find full p window min_len t i = word_at full i >>= (λ y.
    let x = bit_and y t.mask in
    let h = hash_value x t.shift in
    let v = x % 2 ^ 32 in
    bucket t h >>= (λ es.
      search_bucket p window i v es (record { stop = false; offset = 0; len = 0 }) >>= (λ best.
        add t h (i % 2 ^ 32) v >>= (λ t'. some (
          t',
          if ltb best.len min_len
              then none
              else some (record { begin = i; len = best.len; offset = best.offset }),
        )))))

-- The loop behind the match, up to the end of the inputs
unfoldable pub fill : Bytes → ℕ → BucketHash → Match → Option BucketHash
fill full input_end t m =
    let lit_index = m.begin + m.len in
    let b = if ltb input_end lit_index then input_end else lit_index in
    add_range t full (m.begin + 1) (b - (m.begin + 1))

unfoldable pub searcher : Bytes → Bytes → ℕ → ℕ → ℕ → Searcher BucketHash
searcher full p window min_len input_end = record {
  find = λ t lit_index i. find full p window min_len t i;
  fill = λ t i m. fill full input_end t m;
}

-- A parser of a buffer and a table
abbrev pub make : ParserBuffer → BucketHash → Dictionary
make b t = record { buffer = b; hash = t }

abbrev pub prepare : Dictionary → ℕ → Option BucketHash
prepare f b = process_segment f (f.buffer.w + 1 - f.hash.input_len) b

-- the main loop
unfoldable pub search : Dictionary → BucketHash → Bytes → Option (State BucketHash)
unfolding searcher
search f t p = single f.buffer f.hash.input_len searcher t p

-- `Parse` with a block; `no_literals` is the flag `NoTrailingLiterals`.
unfoldable pub parse : Dictionary → Bool → Option (Dictionary × Block × ℕ × Option Error)
parse f no_literals = Greedy.parse make f f.buffer (prepare f f.buffer.w) (search f) no_literals

-- `Parse` without a block
unfoldable pub skip : Dictionary → Option (Dictionary × ℕ × Option Error)
skip f = Greedy.skip make f f.buffer (prepare f (f.buffer.w + block_size f.buffer))
