-- ===== src/BucketHash/Shift.antt =====
-- Shifting the positions of a bucket keeps the order of its entries, and the buckets stay well-formed.
use lz.Prelude.{
  ℕ, ◌+◌, ◌-◌, ◌*◌, ◌%◌, ◌^◌, ◌≤◌, ◌<◌, ◌≡◌, refl, sym, ap, ◌∙◌, arith, inl, inr, some, List, [],
  ◌∷◌, ◌++◌, length, take, drop, replicate, length-take, length-drop, length-append,
  length-replicate, append-nil, Bool-cases, ltb, leb, ◌==◌, if◌then◌else◌, ap_at, take-append_add,
  drop-append_add,
}
use lz.Slices.Laws.{slice_from_lem, slice_to_lem}
use lz.Hash.{Entry, empty}
use lz.BucketHash.{BucketHash, moved, shift_bucket, shift_buckets, shift_offsets}
use lz.BucketHash.Ring.{AllBelow, none_there, below, AreBuckets}

-- the entries of a bucket with the index `j`, from the oldest
unfoldable pub by_age : (j : ℕ) → List Entry → List Entry
by_age j b = drop j b ++ take j b

moved-append :
    (delta : ℕ) (xs ys : List Entry) → moved delta (xs ++ ys) ≡ moved delta xs ++ moved delta ys
unfolding moved
moved-append delta [] ys = refl
moved-append delta (e ∷ xs) ys = elim (Bool-cases (ltb e.position delta)) [
  | inl old ↦ rw old (moved-append delta xs ys)
  | inr young ↦
      rw young (ap (λ t. record e { position = e.position - delta } ∷ t) (moved-append delta xs ys))
]

length-moved : (delta : ℕ) (xs : List Entry) → length (moved delta xs) ≤ length xs
unfolding moved
length-moved delta [] = omega arith
length-moved delta (e ∷ xs) = elim (Bool-cases (ltb e.position delta)) [
  | inl old ↦ rw old (omega (arith, length-moved delta xs))
  | inr young ↦ rw young (omega (arith, length-moved delta xs))
]

module _ (delta size j : ℕ) (b : List Entry) (full : length b ≡ size) (le : j ≤ size)
    (pos : 1 ≤ size) (few : size ≤ 128) where
  abbrev kept : List Entry
  kept = moved delta (by_age j b)

  abbrev free : List Entry
  free = replicate (size - length kept) empty

  kept-bound : length kept ≤ size
  unfolding by_age
  kept-bound = omega (
    arith,
    length-moved delta (by_age j b),
    length-append (drop j b) (take j b),
    length-drop j b,
    length-take j b,
    full,
    le,
  )

  rotated :
      (k : ℕ)
      → k ≡ length kept
      → by_age ((if leb size k then 0 else k) % 2 ^ 8) (kept ++ free) ≡ free ++ kept
  unfolding by_age
  rotated k e = elim (Bool-cases (leb size k)) [
    | inl all ↦
        let none_free : size - length kept ≡ 0 = ground (arith, all, e) in
        rw all (
          append-nil (kept ++ free)
          ∙ ap_at (λ n. kept ++ replicate n empty) (size - length kept) 0 none_free
          ∙ append-nil kept
          ∙ ap_at (λ n. replicate n empty ++ kept) 0 (size - length kept) (sym none_free))
    | inr part ↦
        let low : k % 2 ^ 8 ≡ k = ground (arith, part, few) in
        rw (part, low)
          (ap (λ t. t ++ take k (kept ++ free)) (drop-append_add k 0 kept free (omega (arith, e)))
            ∙ ap (λ t. free ++ t)
                (take-append_add k 0 kept free (omega (arith, e)) ∙ append-nil kept))
  ]

  pub shift_bucket_lem :
      (b' : List Entry) × (i : ℕ) × (shift_bucket delta size j b ≡ some (b', i))
      × (by_age i b'
          ≡ replicate (size - length (moved delta (by_age j b))) empty ++ moved delta (by_age j b))
      × (length b' ≡ size)
      × (i < size)
  unfolding shift_bucket by_age
  shift_bucket_lem =
      let i = (if leb size (length kept) then 0 else length kept) % 2 ^ 8 in
      (
        kept ++ free,
        i,
        rw
            (
              slice_from_lem j b (omega (arith, full, le)),
              slice_to_lem j b (omega (arith, full, le)),
              moved-append delta (drop j b) (take j b),
            )
            refl,
        rotated (length kept) refl,
        omega (
          arith,
          length-append kept free,
          length-replicate (size - length kept) empty,
          kept-bound,
        ),
        ground (arith, pos, few),
      )

shift_buckets_lem :
    (delta size : ℕ) (js : List ℕ) (bs : List Entry)
    → 1 ≤ size
    → size ≤ 128
    → length bs ≡ length js * size
    → AllBelow size js
    → (bs' : List Entry) × (js' : List ℕ) × (shift_buckets delta size bs js ≡ some (bs', js'))
      × (length bs' ≡ length bs)
      × (length js' ≡ length js)
      × AllBelow size js'
unfolding shift_buckets
shift_buckets_lem delta size [] bs pos few l ok = (bs, [], refl, refl, refl, none_there)
shift_buckets_lem delta size (j ∷ js) bs pos few l (below lt ok) =
    let more : length bs ≡ size + length js * size = omega (arith, l) in
    let front : length (take size bs) ≡ size = omega (arith, length-take size bs, more) in
    let (b', i, run, _, long, inside) =
      shift_bucket_lem delta size j (take size bs) front (omega (arith, lt)) pos few in
    let (rest, is, run', same, same', ok') =
      shift_buckets_lem delta size js (drop size bs) pos few
        (omega (arith, length-drop size bs, more)) ok in
    (
      b' ++ rest,
      i ∷ is,
      rw (slice_to_lem size bs (omega (arith, more)), run, run') refl,
      omega (arith, length-append b' rest, long, same, length-drop size bs, more),
      omega (arith, same'),
      below inside ok',
    )

-- For buckets that are well-formed, `shiftOffsets` never panics, and they stay well-formed.
pub shift_offsets-AreBuckets :
    (t : BucketHash) (delta : ℕ)
    → AreBuckets t
    → (t' : BucketHash) × (shift_offsets t delta ≡ some t') × AreBuckets t'
unfolding shift_offsets
shift_offsets-AreBuckets t delta ok = elim (Bool-cases (delta == 0)) [
  | inl e ↦ (t, rw e refl, ok)
  | inr e ↦
      let (buckets, indexes, run, same, same', inside) =
        shift_buckets_lem delta t.bucket_size t.indexes t.buckets ok.bucket_least ok.bucket_most
          ok.room ok.inside in
      (
        record t { buckets = buckets; indexes = indexes },
        rw (e, run) refl,
        record {
          size = same' ∙ ok.size;
          room = rw same' (same ∙ ok.room);
          inside = inside;
          shift_in = ok.shift_in;
          input_least = ok.input_least;
          input_most = ok.input_most;
          bucket_least = ok.bucket_least;
          bucket_most = ok.bucket_most;
        },
      )
]
