-- ===== src/HashParser/Search.antt =====
-- The search of the hash parser is what the main loop relies on.
use lz.Prelude.{
  ℕ, ◌+◌, ◌≤◌, ◌<◌, ◌≡◌, ◌⊎◌, refl, arith, inl, inr, Option, none, some, ◌++◌, length, take, drop,
  Bool-cases, ltb, ◌==◌, if◌then◌else◌,
}
use lz.Lz.{Bytes}
use lz.Bytes.Prefix.{AreBytes, little_endian}
use lz.Hash.{Hash}
use lz.Hash.Table.{IsTable}
use lz.Greedy.{Match}
use lz.Greedy.Found.{Found}
use lz.Greedy.Scan.{IsSearcher}
use lz.Matching.Candidate.{
  look_up_lem, Candidate, no_candidate, candidate_lem, Candidate-Found, add_up_to_lem,
}
use lz.Matching.First.{word_at_lem}
use lz.HashParser.{find, fill, searcher}

module _ (p extra : Bytes) (hp : AreBytes p) (hf : AreBytes (p ++ extra))
    (window min_len input_end : ℕ) (pos : 0 < min_len) (in_p : input_end ≤ length p)
    (room : (input_end ≡ 0) ⊎ (input_end + 7 ≤ length (p ++ extra))) where
  -- A match comes from the position of an entry.
  pub find-Candidate :
      (h : Hash) (i : ℕ)
      → IsTable h
      → i < input_end
      → (h' : Hash) × (r : Option Match) × (j : ℕ) × (find (p ++ extra) p window min_len h i
          ≡ some (h', r))
        × IsTable h'
        × (h'.input_len ≡ h.input_len)
        × Candidate p window min_len i j r
  unfolding find
  find-Candidate h i ok lt =
      let y = little_endian (take 8 (drop i (p ++ extra))) in
      let fits : i + 8 ≤ length (p ++ extra) = omega (arith, room, lt) in
      let word = word_at_lem (p ++ extra) i hf fits in
      let (h', entry, v, run, ok', same) = look_up_lem h i y ok in
      elim (Bool-cases (v == entry.value)) [
        | inr e ↦ (h', none, 0, rw (word, run, e) refl, ok', same, no_candidate)
        | inl e ↦
            let (r, found, good) =
              candidate_lem p extra window min_len i entry.position hp hf fits
                (omega (arith, in_p, lt)) in
            (h', r, entry.position, rw (word, run, e, found) refl, ok', same, good)
      ]

  find_lem :
      (h : Hash) (lit_index i : ℕ)
      → IsTable h
      → lit_index ≤ i
      → i < input_end
      → (h' : Hash) × (r : Option Match) × (find (p ++ extra) p window min_len h i ≡ some (h', r))
        × IsTable h'
        × Found p window lit_index i r
  find_lem h lit_index i ok li lt =
      let (h', r, j, run, ok', _, good) = find-Candidate h i ok lt in
      (h', r, run, ok', Candidate-Found li pos good)

  pub fill_lem :
      (h : Hash) (m : Match)
      → IsTable h
      → (h' : Hash) × (fill (p ++ extra) input_end h m ≡ some h') × IsTable h'
  unfolding fill
  fill_lem h m ok =
      let (h', run, ok', _) =
        add_up_to_lem h (p ++ extra) (m.begin + 1)
          (if ltb input_end (m.begin + m.len) then input_end else m.begin + m.len) ok hf
          (ground (arith, room)) in
      (h', run, ok')

  pub searcher-IsSearcher :
      IsSearcher (searcher (p ++ extra) p window min_len input_end) IsTable p window input_end
  unfolding searcher
  searcher-IsSearcher = record {
    finds = λ h lit_index i ok li lt. find_lem h lit_index i ok li lt;
    fills = λ h lit_index i m ok lt found. fill_lem h m ok;
  }
