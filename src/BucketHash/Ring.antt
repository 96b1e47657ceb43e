-- ===== src/BucketHash/Ring.antt =====
-- The buckets: look-ups and updates stay in range.
use Prim.Native.Nat.{bit_and}
use native.Mathlib.Nat.{mul-le-mul_right}
use lz.Prelude.{
  ℕ, zero, suc, ◌+◌, ◌-◌, ◌*◌, ◌%◌, ◌^◌, ◌≤◌, ◌<◌, ◌≡◌, ◌⊎◌, refl, ◌∙◌, arith, inl, inr, some, List,
  [], ◌∷◌, length, take, drop, length-take, length-drop, length-append, get_elem?, Bool-cases, ltb,
  leb, ◌==◌, false, if◌then◌else◌,
}
use lz.Lz.{Bytes}
use lz.Slices.Laws.{slice_from_lem, slice_to_lem}
use lz.Bytes.Prefix.{AreBytes, little_endian, take-AreBytes}
use lz.ParserBuffer.{memory}
use lz.Hash.{Entry, hash_value, store}
use lz.Hash.Table.{hash_value-small, store_lem}
use lz.Matching.First.{word_at_lem}
use lz.BucketHash.{BucketHash, Dictionary, bucket, add, add_word, add_range, process_segment}

-- all numbers of the list are below `n`
pub data AllBelow (n : ℕ) : List ℕ → Type 0 where
  none_there : AllBelow n []
  below : {a : ℕ} {xs : List ℕ} → a < n → AllBelow n xs → AllBelow n (a ∷ xs)

-- There is an index, and a bucket with the bucket's size, for each value that is left after the
-- shift; the indexes lie in the buckets; and the inputs that are hashed have from two to eight bytes.
pub record AreBuckets (t : BucketHash) : Type 0 where
  pub size : length t.indexes ≡ 2 ^ (64 - t.shift)
  pub room : length t.buckets ≡ length t.indexes * t.bucket_size
  pub inside : AllBelow t.bucket_size t.indexes
  pub shift_in : t.shift ≤ 64
  pub input_least : 2 ≤ t.input_len
  pub input_most : t.input_len ≤ 8
  pub bucket_least : 1 ≤ t.bucket_size
  pub bucket_most : t.bucket_size ≤ 128

get_below :
    (n i : ℕ) (xs : List ℕ)
    → AllBelow n xs
    → i < length xs
    → (v : ℕ) × (get_elem? xs i ≡ some v) × (v < n)
get_below n i [] h lt = absurd (omega arith)
get_below n zero (a ∷ xs) (below l h) lt = (a, refl, l)
get_below n (suc i) (a ∷ xs) (below l h) lt = get_below n i xs h (omega arith)

store_below :
    (n i v : ℕ) (xs : List ℕ)
    → AllBelow n xs
    → i < length xs
    → v < n
    → (ys : List ℕ) × (store xs i v ≡ some ys) × AllBelow n ys × (length ys ≡ length xs)
unfolding store
store_below n i v [] h lt g = absurd (omega arith)
store_below n zero v (a ∷ xs) (below l h) lt g = (v ∷ xs, refl, below g h, refl)
store_below n (suc i) v (a ∷ xs) (below l h) lt g =
    let (ys, run, ok, size) = store_below n i v xs h (omega arith) g in
    (a ∷ ys, rw run refl, below l ok, omega (arith, size))

bucket_end :
    (t : BucketHash) (h : ℕ)
    → AreBuckets t
    → h < length t.indexes
    → h * t.bucket_size + t.bucket_size ≤ length t.buckets
bucket_end t h ok lt =
    let most : (h + 1) * t.bucket_size ≤ length t.indexes * t.bucket_size =
      mul-le-mul_right t.bucket_size (omega (arith, lt)) in
    omega (arith, most, ok.room)

-- The bucket of a value that is left after the shift
pub bucket_lem :
    (t : BucketHash) (h : ℕ)
    → AreBuckets t
    → h < length t.indexes
    → (es : List Entry) × (bucket t h ≡ some es) × (length es ≡ t.bucket_size)
unfolding bucket
bucket_lem t h ok lt =
    let room = bucket_end t h ok lt in
    let k = h * t.bucket_size in
    let front = take (k + t.bucket_size) t.buckets in
    let size : length front ≡ k + t.bucket_size =
      omega (arith, length-take (k + t.bucket_size) t.buckets, room) in
    (
      drop k front,
      rw (slice_to_lem (k + t.bucket_size) t.buckets room)
          (slice_from_lem k front (omega (arith, size))),
      omega (arith, length-drop k front, size),
    )

-- An entry is added to the bucket of a value that is left after the shift.
pub add_lem :
    (t : BucketHash) (h position value : ℕ)
    → AreBuckets t
    → h < length t.indexes
    → (t' : BucketHash) × (add t h position value ≡ some t') × AreBuckets t'
unfolding add
add_lem t h position value ok lt =
    let (i, found, lower) = get_below t.bucket_size h t.indexes ok.inside lt in
    let room = bucket_end t h ok lt in
    let (buckets, run, size) =
      store_lem t.buckets (h * t.bucket_size + i) (record { position = position; value = value })
        (omega (arith, room, lower)) in
    let next = (if leb t.bucket_size (i + 1) then 0 else i + 1) % 2 ^ 8 in
    let (indexes, run', ok', size') =
      store_below t.bucket_size h next t.indexes ok.inside lt
        (ground (arith, ok.bucket_least, ok.bucket_most)) in
    (
      record t { buckets = buckets; indexes = indexes },
      rw (found, run, run') refl,
      record {
        size = size' ∙ ok.size;
        room = rw size' (size ∙ ok.room);
        inside = ok';
        shift_in = ok.shift_in;
        input_least = ok.input_least;
        input_most = ok.input_most;
        bucket_least = ok.bucket_least;
        bucket_most = ok.bucket_most;
      },
    )

pub value_inside : (t : BucketHash) (x : ℕ) → AreBuckets t → hash_value x t.shift < length t.indexes
value_inside t x ok = omega (arith, hash_value-small x t.shift ok.shift_in, ok.size)

-- Adding the entries of words that lie in the slice never panics.
pub add_range_lem :
    (n : ℕ) (t : BucketHash) (p : Bytes) (i : ℕ)
    → AreBuckets t
    → AreBytes p
    → (n ≡ 0) ⊎ (i + n + 7 ≤ length p)
    → (t' : BucketHash) × (add_range t p i n ≡ some t') × AreBuckets t'
unfolding add_range add_word
add_range_lem zero t p i ok bytes l = (t, refl, ok)
add_range_lem (suc n) t p i ok bytes l =
    let x = bit_and (little_endian (take 8 (drop i p))) t.mask in
    let (t', run, ok') =
      add_lem t (hash_value x t.shift) (i % 2 ^ 32) (x % 2 ^ 32) ok (value_inside t x ok) in
    let (t'', run', ok'') = add_range_lem n t' p (i + 1) ok' bytes (omega (arith, l)) in
    (t'', rw (word_at_lem p i bytes (omega (arith, l)), run) run', ok'')

-- For buckets that are well-formed and a memory of bytes, `processSegment` of the bucket dictionary never
-- panics where seven bytes lie behind the data, or the data are empty, and the buckets stay
-- well-formed.
pub bucket-process_segment_lem :
    (f : Dictionary) (a b : ℕ)
    → AreBuckets f.hash
    → AreBytes (memory f.buffer)
    → (length f.buffer.data_bytes ≡ 0) ⊎ (7 ≤ length f.buffer.spare)
    → (t : BucketHash) × (process_segment f a b ≡ some t) × AreBuckets t
unfolding process_segment
bucket-process_segment_lem f a b ok bytes margin =
    let c = length f.buffer.data_bytes + 1 - f.hash.input_len in
    let b' = if ltb c b then c else b in
    elim (Bool-cases (b' == 0)) [
      | inl e ↦ (f.hash, rw e refl, ok)
      | inr e ↦
          let some_bytes : 0 < b' = ground (arith, e) in
          let within : b' ≤ c = ground arith in
          let room : b' + 7 ≤ length (memory f.buffer) = omega (
            arith,
            some_bytes,
            within,
            margin,
            ok.input_least,
            length-append f.buffer.data_bytes f.buffer.spare,
          ) in
          let fits : ltb (length (memory f.buffer)) (b' + 7) ≡ false = ground (arith, room) in
          let (t, run, ok') =
            add_range_lem (b' - a) f.hash (take (b' + 7) (memory f.buffer)) a ok
              (take-AreBytes (b' + 7) (memory f.buffer) bytes)
              (omega (arith, room, length-take (b' + 7) (memory f.buffer))) in
          (t, rw (e, fits) run, ok')
    ]
