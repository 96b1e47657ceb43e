-- ===== src/Matching/Candidate.antt =====
-- A look-up stays in the table, and what the test of a candidate returns can be copied.
use Prim.Native.Nat.{bit_and}
use lz.Prelude.{
  ℕ, ◌+◌, ◌-◌, ◌%◌, ◌^◌, ◌≤◌, ◌<◌, ◌≡◌, ◌⊎◌, refl, arith, inl, inr, Option, none, some, ◌++◌,
  length, take, drop, get_or, Bool-cases, ltb, leb, ◌&&◌, get_elem?-eq-get_or,
}
use lz.Lz.{Bytes}
use lz.Bytes.Prefix.{AreBytes, little_endian}
use lz.Hash.{Hash, Entry, empty, hash_value}
use lz.Hash.Table.{IsTable, hash_value-bound, replace_lem, add_range_lem}
use lz.Greedy.{Match}
use lz.Greedy.Found.{Repeated, Found, nothing, Found-Repeated}
use lz.Matching.{candidate, match_with, look_up, add_up_to}
use lz.Matching.First.{Good, a_match, match_len_lem}

pub look_up_lem :
    (h : Hash) (i y : ℕ)
    → IsTable h
    → (h' : Hash) × (e : Entry) × (v : ℕ) × (look_up h i y ≡ some (h', e, v))
      × IsTable h'
      × (h'.input_len ≡ h.input_len)
unfolding look_up
look_up_lem h i y ok =
    let x = bit_and y h.mask in
    let slot = hash_value x h.shift in
    let (t, run, ok') = replace_lem h x (record { position = i % 2 ^ 32; value = x % 2 ^ 32 }) ok in
    (
      record h { table = t },
      get_or h.table slot empty,
      x % 2 ^ 32,
      rw (get_elem?-eq-get_or h.table slot empty (hash_value-bound h x ok), run) refl,
      ok',
      refl,
    )

-- What the test of a candidate at `i` gives: nothing, or a long enough repetition of the bytes from `j`.
pub data Candidate (p : Bytes) (window min_len i j : ℕ) : Option Match → Type 0 where
  no_candidate : Candidate p window min_len i j none
  repeats :
      {k o : ℕ}
      → min_len ≤ k
      → j + o ≡ i
      → 0 < o
      → o ≤ window
      → Repeated p i j k
      → Candidate p window min_len i j (some (record { begin = i; len = k; offset = o }))

Good-Candidate :
    {p : Bytes} {window min_len i j : ℕ} (r : Option ℕ)
    → j < i
    → i - j ≤ window
    → Good p min_len i j r
    → Candidate p window min_len i j (match_with i j r)
unfolding match_with
Good-Candidate none lt w g = no_candidate
Good-Candidate (some k) lt w (a_match enough r) =
    repeats enough (omega (arith, lt)) (omega (arith, lt)) w r

pub candidate_lem :
    (p extra : Bytes) (window min_len i j : ℕ)
    → AreBytes p
    → AreBytes (p ++ extra)
    → i + 8 ≤ length (p ++ extra)
    → i ≤ length p
    → (r : Option Match) × (candidate
          (p ++ extra)
          p
          window
          min_len
          i
          j
          (little_endian (take 8 (drop i (p ++ extra))))
        ≡ some r)
      × Candidate p window min_len i j r
unfolding candidate
candidate_lem p extra window min_len i j hp hf li lp =
    elim (Bool-cases (ltb 0 (i - j) && leb (i - j) window)) [
      | inr g ↦ (none, rw g refl, no_candidate)
      | inl g ↦
          let behind : j < i = ground (arith, g) in
          let near : i - j ≤ window = ground (arith, g) in
          let (r, found, good) = match_len_lem p extra hf i j behind li lp min_len hp in
          (_, rw (g, found) refl, Good-Candidate r behind near good)
    ]

-- Without extension backward, a candidate is what the loop may find.
pub Candidate-Found :
    {p : Bytes} {window min_len lit_index i j : ℕ} {r : Option Match}
    → lit_index ≤ i
    → 0 < min_len
    → Candidate p window min_len i j r
    → Found p window lit_index i r
Candidate-Found li pos no_candidate = nothing
Candidate-Found {i = i} {j = j} li pos (repeats {k} {o} enough jo po ow r) =
    Found-Repeated i j k o li (omega arith) (omega (arith, enough, pos)) jo po ow r

-- Adding entries up to the end of the inputs never panics.
pub add_up_to_lem :
    (h : Hash) (full : Bytes) (i b : ℕ)
    → IsTable h
    → AreBytes full
    → (b ≡ 0) ⊎ (b + 7 ≤ length full)
    → (h' : Hash) × (add_up_to h full i b ≡ some h') × IsTable h' × (h'.input_len ≡ h.input_len)
unfolding add_up_to
add_up_to_lem h full i b ok bytes room =
    add_range_lem (b - i) h full i ok bytes (omega (arith, room))
