-- ===== src/DoubleParser/Search.antt =====
-- The searches of the double hash parser are what the main loop relies on.
use lz.Prelude.{
  ℕ, zero, suc, ◌+◌, ◌-◌, ◌≤◌, ◌<◌, ◌≡◌, ◌⊎◌, refl, arith, inl, inr, Option, none, some, ◌++◌,
  length, take, drop, Bool-cases, ltb, ◌==◌, if◌then◌else◌,
}
use lz.Lz.{Bytes}
use lz.Bytes.Prefix.{AreBytes, little_endian}
use lz.Hash.{Hash}
use lz.Hash.Table.{IsTable, add_lem}
use lz.DoubleHash.{Tables}
use lz.DoubleHash.Segment.{AreTables}
use lz.Greedy.{Match}
use lz.Greedy.Scan.{IsSearcher}
use lz.Matching.Candidate.{
  Candidate, no_candidate, candidate_lem, look_up_lem, Candidate-Found, add_up_to_lem,
}
use lz.Matching.First.{word_at_lem}
use lz.HashParser.Search.{find-Candidate}
use lz.DoubleParser.{
  find_both, find_one, add_both, limit, fill_rest, fill_both, fill_one, first_searcher,
  second_searcher,
}

-- The first table is replaced.
pub replaced :
    (t : Tables) (h : Hash)
    → AreTables t
    → IsTable h × (h.input_len ≡ t.h1.input_len)
    → AreTables (record t { h1 = h })
replaced t h ok (ok', same) = record {
  first = ok';
  second = ok.second;
  shorter = omega (arith, ok.shorter, same);
}

module _ (p extra : Bytes) (hp : AreBytes p) (hf : AreBytes (p ++ extra)) (window min_len e1 e2 : ℕ)
    (pos : 0 < min_len) (order : e2 ≤ e1) (in_p : e1 ≤ length p)
    (room : (e1 ≡ 0) ⊎ (e1 + 7 ≤ length (p ++ extra))) where
  abbrev full : Bytes
  full = p ++ extra

  pub find_both-Candidate :
      (t : Tables) (i : ℕ)
      → AreTables t
      → i < e2
      → (t' : Tables) × (r : Option Match) × (j : ℕ) × (find_both full p window min_len t i
          ≡ some (t', r))
        × AreTables t'
        × Candidate p window min_len i j r
  unfolding find_both
  find_both-Candidate t i ok lt =
      let y = little_endian (take 8 (drop i full)) in
      let fits : i + 8 ≤ length full = omega (arith, room, lt, order) in
      let below : i ≤ length p = omega (arith, in_p, order, lt) in
      let word = word_at_lem full i hf fits in
      let (h2, entry2, v2, run2, ok2, same2) = look_up_lem t.h2 i y ok.second in
      let (h1, entry1, v1, run1, ok1, same1) = look_up_lem t.h1 i y ok.first in
      let t' : Tables = record { h1 = h1; h2 = h2 } in
      let both : AreTables t' = record {
        first = ok1;
        second = ok2;
        shorter = omega (arith, ok.shorter, same1, same2);
      } in
      elim (Bool-cases (v2 == entry2.value)) [
        | inl e ↦
            let (r, found, good) =
              candidate_lem p extra window min_len i entry2.position hp hf fits below in
            (t', r, entry2.position, rw (word, run2, run1, e, found) refl, both, good)
        | inr e ↦ elim (Bool-cases (v1 == entry1.value)) [
          | inl e' ↦
              let (r, found, good) =
                candidate_lem p extra window min_len i entry1.position hp hf fits below in
              (t', r, entry1.position, rw (word, run2, run1, e, e', found) refl, both, good)
          | inr e' ↦ (t', none, 0, rw (word, run2, run1, e, e') refl, both, no_candidate)
        ]
      ]

  pub find_one-Candidate :
      (t : Tables) (i : ℕ)
      → AreTables t
      → i < e1
      → (t' : Tables) × (r : Option Match) × (j : ℕ) × (find_one full p window min_len t i
          ≡ some (t', r))
        × AreTables t'
        × Candidate p window min_len i j r
  unfolding find_one
  find_one-Candidate t i ok lt =
      let (h1, r, j, run, ok1, same, good) =
        find-Candidate p extra hp hf window min_len e1 pos in_p room t.h1 i ok.first lt in
      (record t { h1 = h1 }, r, j, rw run refl, replaced t h1 ok (ok1, same), good)

  add_both_lem :
      (n : ℕ) (t : Tables) (i : ℕ)
      → AreTables t
      → (n ≡ 0) ⊎ (i + n + 7 ≤ length full)
      → (t' : Tables) × (add_both t full i n ≡ some t') × AreTables t'
  unfolding add_both
  add_both_lem zero t i ok l = (t, refl, ok)
  add_both_lem (suc n) t i ok l =
      let (h2, run2, ok2, same2) = add_lem t.h2 full i ok.second hf (omega (arith, l)) in
      let (h1, run1, ok1, same1) = add_lem t.h1 full i ok.first hf (omega (arith, l)) in
      let both : AreTables (record { h1 = h1; h2 = h2 }) = record {
        first = ok1;
        second = ok2;
        shorter = omega (arith, ok.shorter, same1, same2);
      } in
      let (t', run, ok') = add_both_lem n _ (i + 1) both (omega (arith, l)) in
      (t', rw (run2, run1) run, ok')

  limit_room : (l : ℕ) → (limit e1 l ≡ 0) ⊎ (limit e1 l + 7 ≤ length full)
  unfolding limit
  limit_room l = ground (arith, room)

  pub fill_rest_lem :
      (t : Tables) (b : ℕ) (m : Match)
      → AreTables t
      → (t' : Tables) × (fill_rest full e1 b t m ≡ some t') × AreTables t'
  unfolding fill_rest
  fill_rest_lem t b m ok =
      let l = m.begin + m.len in
      let j = if ltb b (m.begin + 1) then m.begin + 1 else b in
      let (h1, run, ok1, same) =
        add_up_to_lem t.h1 full j (limit e1 l) ok.first hf (limit_room l) in
      elim (Bool-cases (ltb j l)) [
        | inl e ↦ (record t { h1 = h1 }, rw (e, run) refl, replaced t h1 ok (ok1, same))
        | inr e ↦ (t, rw e refl, ok)
      ]

  pub fill_one_lem :
      (t : Tables) (i : ℕ) (m : Match)
      → AreTables t
      → (t' : Tables) × (fill_one full e1 t i m ≡ some t') × AreTables t'
  unfolding fill_one
  fill_one_lem t i m ok =
      let l = m.begin + m.len in
      let (h1, run, ok1, same) =
        add_up_to_lem t.h1 full (i - m.offset) (limit e1 l) ok.first hf (limit_room l) in
      (record t { h1 = h1 }, rw run refl, replaced t h1 ok (ok1, same))

  fill_both_lem :
      (t : Tables) (m : Match)
      → AreTables t
      → (t' : Tables) × (fill_both full e1 e2 t m ≡ some t') × AreTables t'
  unfolding fill_both limit
  fill_both_lem t m ok =
      let b = limit e2 (m.begin + m.len) in
      let (t', run, ok') =
        add_both_lem (b - (m.begin + 1)) t (m.begin + 1) ok (ground (arith, room, order)) in
      let (t'', run', ok'') = fill_rest_lem t' b m ok' in (t'', rw run run', ok'')

  pub first_searcher-IsSearcher :
      IsSearcher (first_searcher full p window min_len e1 e2) AreTables p window e2
  unfolding first_searcher
  first_searcher-IsSearcher = record {
    finds = λ t lit_index i ok li lt.
        let (t', r, j, run, ok', good) = find_both-Candidate t i ok lt in
        (t', r, run, ok', Candidate-Found li pos good);
    fills = λ t lit_index i m ok lt found. fill_both_lem t m ok;
  }

  pub second_searcher-IsSearcher :
      IsSearcher (second_searcher full p window min_len e1 e2) AreTables p window e1
  unfolding second_searcher
  second_searcher-IsSearcher = record {
    finds = λ t lit_index i ok li lt.
        let (t', r, j, run, ok', good) = find_one-Candidate t i ok lt in
        (t', r, run, ok', Candidate-Found li pos good);
    fills = λ t lit_index i m ok lt found. fill_one_lem t i m ok;
  }
