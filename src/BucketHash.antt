-- ===== src/BucketHash.antt =====
-- bucket_hash.go: a hash table with a ring of entries, a bucket, for each value, and a `ParserBuffer` with such a
-- table. An index out of range is a panic, `none`.
pub mod Ring
pub mod Shift
use Prim.Native.Nat.{bit_and}
use lz.Prelude.{
  ℕ, zero, suc, ◌+◌, ◌-◌, ◌*◌, ◌%◌, ◌^◌, Bool, not, ◌&&◌, Option, none, some, ◌>>=◌, List, [], ◌∷◌,
  ◌++◌, length, take, drop, replicate, get_elem?, ltb, leb, ◌==◌, if◌then◌else◌,
}
use lz.Prelude.Int.{ℤ, pos, pos_part}
use lz.Lz.{Bytes, Error, Setting}
use lz.Slices.{slice_from, slice_to}
use lz.Config.{is_zero, in_range}
use lz.Config.Buffer.{BufConfig}
use lz.ParserBuffer
use lz.ParserBuffer.{ParserBuffer, memory}
use lz.Hash.{Entry, empty, hash_value, store}
use lz.Matching.{word_at}

-- `bucketHash`
pub record BucketHash : Type 0 where
  pub buckets : List Entry
  pub indexes : List ℕ
  pub mask : ℕ
  pub shift : ℕ
  pub input_len : ℕ
  pub bucket_size : ℕ

-- The bucket of a value
unfoldable pub bucket : BucketHash → ℕ → Option (List Entry)
bucket t h =
    slice_to (h * t.bucket_size + t.bucket_size) t.buckets >>= slice_from (h * t.bucket_size)

-- The entry takes the place of the oldest one of its bucket.
unfoldable pub add : BucketHash → (h position value : ℕ) → Option BucketHash
add t h position value = get_elem? t.indexes h >>= (λ i.
    store t.buckets (h * t.bucket_size + i) (record { position = position; value = value })
    >>= (λ buckets.
        store t.indexes h ((if leb t.bucket_size (i + 1) then 0 else i + 1) % 2 ^ 8)
        >>= (λ indexes. some (record t { buckets = buckets; indexes = indexes }))))

-- `bucketConfig`
pub record BucketConfig : Type 0 where
  pub input_len : ℤ
  pub hash_bits : ℤ
  pub bucket_size : ℤ

unfoldable pub set_defaults : BucketConfig → BucketConfig
set_defaults cfg = record {
  input_len = if is_zero cfg.input_len then pos 3 else cfg.input_len;
  hash_bits = if is_zero cfg.hash_bits then pos 12 else cfg.hash_bits;
  bucket_size = if is_zero cfg.bucket_size then pos 10 else cfg.bucket_size;
}

-- `maxHashBits` of `Verify`
unfoldable pub max_hash_bits : ℕ → ℕ
max_hash_bits n = if ltb (8 * n) 23 then 8 * n else 23

unfoldable pub verify : BucketConfig → Option Error
unfolding max_hash_bits
verify cfg =
    if not (in_range (pos 2) cfg.input_len (pos 8))
    then some (Error.err_range Setting.input_len)
    else if not (in_range (pos 0) cfg.hash_bits (pos (max_hash_bits (pos_part cfg.input_len))))
    then some (Error.err_range Setting.hash_bits)
    else if not (in_range (pos 1) cfg.bucket_size (pos 128))
    then some (Error.err_range Setting.bucket_size)
    else none

-- `1<<(cfg.InputLen*8) - 1` on 64 bits
unfoldable pub init : BucketHash → BucketConfig → BucketHash × Option Error
init t cfg =
    let c = set_defaults cfg in
    let n = 2 ^ pos_part c.hash_bits in
    elim (verify c) [
      | some e ↦ (t, some e)
      | none ↦ (
        record {
          buckets = replicate (n * pos_part c.bucket_size) empty;
          indexes = replicate n 0;
          mask = (2 ^ (8 * pos_part c.input_len) % 2 ^ 64 + 2 ^ 64 - 1) % 2 ^ 64;
          shift = 64 - pos_part c.hash_bits;
          input_len = pos_part c.input_len;
          bucket_size = pos_part c.bucket_size;
        },
        none,
      )
    ]

unfoldable pub reset : BucketHash → BucketHash
reset t = record t {
  buckets = replicate (length t.buckets) empty;
  indexes = replicate (length t.indexes) 0;
}

-- The entries that stay in the window, moved
unfoldable pub moved : (delta : ℕ) → List Entry → List Entry
moved delta [] = []
moved delta (e ∷ es) =
    let rest = moved delta es in
    if ltb e.position delta then rest else record e { position = e.position - delta } ∷ rest

-- One bucket of `shiftOffsets`: its entries from the index on, then those before it, and empty ones behind.
unfoldable pub shift_bucket : (delta size j : ℕ) → List Entry → Option (List Entry × ℕ)
shift_bucket delta size j b = slice_from j b >>= (λ older. slice_to j b >>= (λ newer.
    let kept = moved delta older ++ moved delta newer in
    let i = length kept in
    some (kept ++ replicate (size - i) empty, (if leb size i then 0 else i) % 2 ^ 8)))

-- the loop of `shiftOffsets` over the buckets and their indexes
unfoldable pub shift_buckets : (delta size : ℕ) → List Entry → List ℕ → Option (List Entry × List ℕ)
shift_buckets delta size buckets [] = some (buckets, [])
shift_buckets delta size buckets (j ∷ js) = slice_to size buckets >>= (λ b.
    shift_bucket delta size j b >>= (λ (b', i).
      shift_buckets delta size (drop size buckets) js
      >>= (λ (rest, is). some (b' ++ rest, i ∷ is))))

unfoldable pub shift_offsets : BucketHash → ℕ → Option BucketHash
shift_offsets t delta =
    let run =
      shift_buckets delta t.bucket_size t.buckets t.indexes
      >>= (λ (buckets, indexes). some (record t { buckets = buckets; indexes = indexes })) in
    if delta == 0 then some t else run

-- `bucketDictionary`
pub record Dictionary : Type 0 where
  pub buffer : ParserBuffer
  pub hash : BucketHash

unfoldable pub init_dictionary : Dictionary → BucketConfig → BufConfig → Dictionary × Option Error
init_dictionary f cfg bcfg =
    let (b, e) = ParserBuffer.init f.buffer bcfg in
    let (t, e') = init f.hash cfg in
    elim e [
      | some err ↦ (record f { buffer = b }, some err)
      | none ↦ (record { buffer = b; hash = t }, e')
    ]

-- The slice has the bytes `q` behind it up to its capacity.
unfoldable pub reset_dictionary : Dictionary → Bytes → Bytes → Dictionary × Option Error
reset_dictionary f p q =
    let (b, e) = ParserBuffer.reset f.buffer p q in
    elim e [
      | some err ↦ (record f { buffer = b }, some err)
      | none ↦ (record { buffer = b; hash = reset f.hash }, none)
    ]

-- `Shrink` behind that of the buffer, where `delta` bytes were dropped
unfoldable pub after_shrink : Dictionary → ParserBuffer → (delta : ℕ) → Option (Dictionary × ℕ)
after_shrink f b delta =
    let shifted = shift_offsets f.hash (delta % 2 ^ 32) in
    (if ltb 0 delta then shifted else some f.hash)
    >>= (λ t. some (record { buffer = b; hash = t }, delta))

unfoldable pub shrink_dictionary : Dictionary → Option (Dictionary × ℕ)
shrink_dictionary f = ParserBuffer.shrink f.buffer >>= (λ (b, delta). after_shrink f b delta)

-- The entry of the word at `i`
unfoldable pub add_word : BucketHash → Bytes → ℕ → Option BucketHash
add_word t p i =
    word_at p i
    >>= (λ y. let x = bit_and y t.mask in add t (hash_value x t.shift) (i % 2 ^ 32) (x % 2 ^ 32))

-- The loops that add `n` entries from `i` on
unfoldable pub add_range : BucketHash → Bytes → (i n : ℕ) → Option BucketHash
add_range t p i zero = some t
add_range t p i (suc n) = add_word t p i >>= (λ t'. add_range t' p (i + 1) n)

-- `processSegment`, from `a` (0 where the source's is negative) to `b`, and the table that it makes
unfoldable pub process_segment : Dictionary → (a b : ℕ) → Option BucketHash
process_segment f a b =
    let c = length f.buffer.data_bytes + 1 - f.hash.input_len in
    let b' = if ltb c b then c else b in
    let run = add_range f.hash (take (b' + 7) (memory f.buffer)) a (b' - a) in
    if b' == 0 then some f.hash else if ltb (length (memory f.buffer)) (b' + 7) then none else run
