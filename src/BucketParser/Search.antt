-- ===== src/BucketParser/Search.antt =====
-- The search in a bucket finds only what can be copied, and is what the main loop relies on.
use Prim.Native.Nat.{bit_and}
use lz.Prelude.{
  ℕ, ◌+◌, ◌-◌, ◌%◌, ◌^◌, ◌≤◌, ◌<◌, ◌≡◌, ◌⊎◌, refl, sym, ◌∙◌, arith, inl, inr, Bool, true, false,
  ◌&&◌, ◌||◌, Option, none, some, List, [], ◌∷◌, ◌++◌, length, take, drop, get_or, length-drop,
  Bool-cases, ltb, leb, ◌==◌, if◌then◌else◌, get_or-drop, get_elem?-eq-get_or,
}
use lz.Lz.{Bytes}
use lz.Slices.Laws.{slice_from_lem}
use lz.Bytes.Prefix.{AreBytes, prefix, prefix-bytes, prefix-bound, drop-AreBytes, little_endian}
use lz.Bytes.Lcp.{lcp_lem}
use lz.Hash.{Entry, hash_value}
use lz.Greedy.{Match}
use lz.Greedy.Found.{Repeated, Found, nothing, Found-Repeated}
use lz.Greedy.Scan.{IsSearcher}
use lz.Matching.First.{word_at_lem}
use lz.BucketHash.{BucketHash}
use lz.BucketHash.Ring.{AreBuckets, bucket_lem, add_lem, value_inside, add_range_lem}
use lz.BucketParser.{Best, same_byte, longer, round, search_bucket, find, fill, searcher}

-- What the loop over a bucket keeps: no length yet, or a repetition at an offset in the window.
pub data IsBest (p : Bytes) (window i : ℕ) (best : Best) : Type 0 where
  not_yet : best.len ≡ 0 → IsBest p window i best
  repeats :
      (j : ℕ)
      → j + best.offset ≡ i
      → 0 < best.offset
      → best.offset ≤ window
      → Repeated p i j best.len
      → IsBest p window i best

Rounds : (p : Bytes) (window i : ℕ) → Option Best → Type 0
Rounds p window i run = (best : Best) × (run ≡ some best) × IsBest p window i best

module _ (p : Bytes) (hp : AreBytes p) (window i : ℕ) (below : i < length p) where
  best-inside : (best : Best) → IsBest p window i best → i + best.len ≤ length p
  best-inside best (not_yet e) = omega (arith, e, below)
  best-inside best (repeats j jo po ow r) = r.inside

  prefix-Repeated : (j : ℕ) → j < i → Repeated p i j (prefix (drop j p) (drop i p))
  prefix-Repeated j ji = record {
    inside = omega (arith, prefix-bound (drop j p) (drop i p), length-drop i p, below);
    same = λ m mk.
        sym (get_or-drop j m (j + m) p 0 refl)
        ∙ prefix-bytes (drop j p) (drop i p) m mk
        ∙ get_or-drop i m (i + m) p 0 refl;
  }

  longer_lem :
      (j : ℕ) (best : Best)
      → j < i
      → i - j ≤ window
      → IsBest p window i best
      → Rounds p window i (longer p i j best)
  unfolding longer Rounds
  longer_lem j best ji near ok =
      let k = prefix (drop j p) (drop i p) in
      let run = lcp_lem (drop j p) (drop i p) (drop-AreBytes j p hp) (drop-AreBytes i p hp) in
      elim (Bool-cases (ltb k best.len || (k == best.len && leb best.offset (i - j)))) [
        | inl e ↦ (
          best,
          rw
              (
                slice_from_lem j p (omega (arith, ji, below)),
                slice_from_lem i p (omega (arith, below)),
                run,
                e,
              )
              refl,
          ok,
        )
        | inr e ↦ (
          record { stop = false; offset = i - j; len = k },
          rw
              (
                slice_from_lem j p (omega (arith, ji, below)),
                slice_from_lem i p (omega (arith, below)),
                run,
                e,
              )
              refl,
          repeats j (omega (arith, ji)) (omega (arith, ji)) near (prefix-Repeated j ji),
        )
      ]

  same_byte_lem : (j k : ℕ) → j < i → i + k ≤ length p → (b : Bool) × (same_byte p i j k ≡ some b)
  unfolding same_byte
  same_byte_lem j k ji inside = elim (Bool-cases (ltb 0 k)) [
    | inr e ↦ (true, rw e refl)
    | inl e ↦
        let some_bytes : 0 < k = ground (arith, e) in
        (
          get_or p (j + k - 1) 0 == get_or p (i + k - 1) 0,
          rw
              (
                e,
                get_elem?-eq-get_or p (j + k - 1) 0 (omega (arith, some_bytes, inside, ji)),
                get_elem?-eq-get_or p (i + k - 1) 0 (omega (arith, some_bytes, inside)),
              )
              refl,
        )
  ]

  stopped :
      (best : Best) (b : Bool)
      → IsBest p window i best
      → IsBest p window i (record best { stop = b })
  stopped best b (not_yet e) = not_yet e
  stopped best b (repeats j jo po ow r) = repeats j jo po ow r

  round_lem :
      (v : ℕ) (e : Entry) (best : Best)
      → IsBest p window i best
      → Rounds p window i (round p window i v e best)
  unfolding round Rounds
  round_lem v e best ok = elim (Bool-cases (v == e.value)) [
    | inr other ↦ (
      record best { stop = e.value == 0 && e.position == 0 },
      rw other refl,
      stopped best (e.value == 0 && e.position == 0) ok,
    )
    | inl same ↦ elim (Bool-cases (ltb 0 (i - e.position) && leb (i - e.position) window)) [
      | inr far ↦ (best, rw (same, far) refl, ok)
      | inl near ↦
          let ji : e.position < i = ground (arith, near) in
          let (b, run) = same_byte_lem e.position best.len ji (best-inside best ok) in
          let (best', run', ok') = longer_lem e.position best ji (ground (arith, near)) ok in
          elim (Bool-cases b) [
            | inl agree ↦ (best', rw (same, near, run, agree) run', ok')
            | inr differ ↦ (best, rw (same, near, run, differ) refl, ok)
          ]
    ]
  ]

  search_bucket_lem :
      (v : ℕ) (es : List Entry) (best : Best)
      → IsBest p window i best
      → Rounds p window i (search_bucket p window i v es best)
  unfolding search_bucket Rounds
  search_bucket_lem v [] best ok = (best, refl, ok)
  search_bucket_lem v (e ∷ es) best ok =
      let (best', run, ok') = round_lem v e best ok in
      let (best'', run', ok'') = search_bucket_lem v es best' ok' in
      elim (Bool-cases best'.stop) [
        | inl ended ↦ (best', rw (run, ended) refl, ok')
        | inr on ↦ (best'', rw (run, on) run', ok'')
      ]

module _ (p extra : Bytes) (hp : AreBytes p) (hf : AreBytes (p ++ extra))
    (window min_len input_end : ℕ) (pos : 0 < min_len) (in_p : input_end ≤ length p)
    (room : (input_end ≡ 0) ⊎ (input_end + 7 ≤ length (p ++ extra))) where
  -- The best match of a bucket, if it is long enough
  chosen :
      (lit_index i : ℕ) (best : Best)
      → lit_index ≤ i
      → IsBest p window i best
      → Found p window lit_index i (
          if ltb best.len min_len
          then none
          else some (record { begin = i; len = best.len; offset = best.offset }))
  chosen lit_index i best li ok = elim (Bool-cases (ltb best.len min_len)) [
    | inl short ↦ rw short nothing
    | inr enough ↦ rw enough (long (ground (arith, enough)) ok)
  ]
    where
      long :
          min_len ≤ best.len
          → IsBest p window i best
          → Found p window lit_index i
              (some (record { begin = i; len = best.len; offset = best.offset }))
      long enough (not_yet e) = absurd (omega (arith, pos, e, enough))
      long enough (repeats j jo po ow r) =
          Found-Repeated i j best.len best.offset li (omega arith) (omega (arith, enough, pos)) jo
            po ow r

  find_lem :
      (t : BucketHash) (lit_index i : ℕ)
      → AreBuckets t
      → lit_index ≤ i
      → i < input_end
      → (t' : BucketHash) × (r : Option Match) × (find (p ++ extra) p window min_len t i
          ≡ some (t', r))
        × AreBuckets t'
        × Found p window lit_index i r
  unfolding find Rounds
  find_lem t lit_index i ok li lt =
      let y = little_endian (take 8 (drop i (p ++ extra))) in
      let x = bit_and y t.mask in
      let h = hash_value x t.shift in
      let word = word_at_lem (p ++ extra) i hf (omega (arith, room, lt)) in
      let (es, run, _) = bucket_lem t h ok (value_inside t x ok) in
      let (best, run', good) =
        search_bucket_lem p hp window i (omega (arith, in_p, lt)) (x % 2 ^ 32) es
          (record { stop = false; offset = 0; len = 0 }) (not_yet refl) in
      let (t', run'', ok') = add_lem t h (i % 2 ^ 32) (x % 2 ^ 32) ok (value_inside t x ok) in
      (_, _, rw (word, run, run', run'') refl, ok', chosen lit_index i best li good)

  fill_lem :
      (t : BucketHash) (m : Match)
      → AreBuckets t
      → (t' : BucketHash) × (fill (p ++ extra) input_end t m ≡ some t') × AreBuckets t'
  unfolding fill
  fill_lem t m ok =
      let b = if ltb input_end (m.begin + m.len) then input_end else m.begin + m.len in
      add_range_lem (b - (m.begin + 1)) t (p ++ extra) (m.begin + 1) ok hf (ground (arith, room))

  pub searcher-IsSearcher :
      IsSearcher (searcher (p ++ extra) p window min_len input_end) AreBuckets p window input_end
  unfolding searcher
  searcher-IsSearcher = record {
    finds = λ t lit_index i ok li lt. find_lem t lit_index i ok li lt;
    fills = λ t lit_index i m ok lt found. fill_lem t m ok;
  }
