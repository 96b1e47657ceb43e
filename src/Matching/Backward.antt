-- ===== src/Matching/Backward.antt =====
-- A match that is made longer at the front is still a repetition.
use lz.Prelude.{
  ℕ, ◌+◌, ◌-◌, ◌≤◌, ◌<◌, ◌≡◌, refl, sym, ◌∙◌, arith, inl, inr, Option, none, some, length, take,
  drop, get_or, length-drop, length-take, Bool-cases, ltb, if◌then◌else◌, get_or-drop, get_or-take,
  ap_at,
}
use lz.Lz.{Bytes}
use lz.Slices.Laws.{slice_from_lem, slice_to_lem}
use lz.Bytes.Prefix.{AreBytes, take-AreBytes, drop-AreBytes}
use lz.Bytes.Suffix.{suffix, suffix-bytes, suffix-within, suffix_comm}
use lz.Bytes.Lcs.{lcs_lem}
use lz.Greedy.{Match}
use lz.Greedy.Found.{Repeated, Found, nothing, Found-Repeated}
use lz.Matching.{extend_back, go_back}
use lz.Matching.Candidate.{Candidate, no_candidate, repeats}

module _ (p : Bytes) (i j b : ℕ) (ji : j < i) (bj : b ≤ j) (lp : i ≤ length p) where
  -- the bytes before `j`, and all before `i`
  abbrev before : Bytes
  before = drop (j - b) (take j p)

  abbrev count : ℕ
  count = suffix before (take i p)

  length-before : length before ≡ b
  length-before = omega (arith, length-drop (j - b) (take j p), length-take j p, ji, bj, lp)

  count-bound : count ≤ b
  count-bound =
      omega (arith, suffix_comm before (take i p), suffix-within (take i p) before, length-before)

  before-same : (t : ℕ) → t < count → get_or p (j - 1 - t) 0 ≡ get_or p (i - 1 - t) 0
  before-same t h =
      sym (get_or-take j (j - 1 - t) p 0 (omega (arith, h, count-bound, bj)))
      ∙ sym (
          get_or-drop (j - b) (b - 1 - t) (j - 1 - t) (take j p) 0
            (omega (arith, h, count-bound, bj)))
      ∙ ap_at (λ n. get_or before n 0) (b - 1 - t) (length before - 1 - t)
          (omega (arith, length-before))
      ∙ suffix-bytes before (take i p) t h
      ∙ ap_at (λ n. get_or (take i p) n 0) (length (take i p) - 1 - t) (i - 1 - t)
          (omega (arith, length-take i p, lp))
      ∙ get_or-take i (i - 1 - t) p 0 (omega (arith, ji))

  longer-Repeated : (k : ℕ) → Repeated p i j k → Repeated p (i - count) (j - count) (k + count)
  longer-Repeated k r = record {
    inside = omega (arith, r.inside, count-bound, bj, ji);
    same = λ m mk. elim (Bool-cases (ltb m count)) [
      | inl e ↦
          let front : m < count = ground (arith, e) in
          ap_at (λ n. get_or p n 0) (j - count + m) (j - 1 - (count - 1 - m))
            (omega (arith, front, count-bound, bj))
          ∙ before-same (count - 1 - m) (omega (arith, front))
          ∙ ap_at (λ n. get_or p n 0) (i - 1 - (count - 1 - m)) (i - count + m)
              (omega (arith, front, count-bound, bj, ji))
      | inr e ↦
          let behind : count ≤ m = ground (arith, e) in
          ap_at (λ n. get_or p n 0) (j - count + m) (j + (m - count))
            (omega (arith, behind, count-bound, bj))
          ∙ r.same (m - count) (omega (arith, behind, mk))
          ∙ ap_at (λ n. get_or p n 0) (i + (m - count)) (i - count + m)
              (omega (arith, behind, count-bound, bj, ji))
    ];
  }

-- Of a candidate, going back never panics, and what it gives is what the loop may find.
pub go_back_lem :
    (p : Bytes) (window min_len lit_index i j : ℕ) (r : Option Match)
    → AreBytes p
    → lit_index ≤ i
    → i ≤ length p
    → 0 < min_len
    → Candidate p window min_len i j r
    → (r' : Option Match) × (go_back p lit_index r ≡ some r') × Found p window lit_index i r'
unfolding go_back extend_back
go_back_lem p window min_len lit_index i j none hp li lp pos no_candidate = (none, refl, nothing)
go_back_lem p window min_len lit_index i j _ hp li lp pos (repeats {k} {o} enough jo po ow r) =
    elim (Bool-cases (ltb 0 (i - lit_index))) [
      | inr e ↦ (
        some (record { begin = i; len = k; offset = o }),
        rw e refl,
        Found-Repeated i j k o li (omega arith) (omega (arith, enough, pos)) jo po ow r,
      )
      | inl e ↦
          let at : i - o ≡ j = omega (arith, jo) in
          let b = if ltb j (i - lit_index) then j else i - lit_index in
          let ji : j < i = omega (arith, jo, po) in
          let bj : b ≤ j = ground arith in
          let bi : b ≤ i - lit_index = ground arith in
          let c = count p i j b ji bj lp in
          let few = count-bound p i j b ji bj lp in
          (
            some (record { begin = i - c; len = k + c; offset = o }),
            rw
                (
                  e,
                  at,
                  slice_to_lem j p (omega (arith, ji, lp)),
                  slice_from_lem (j - b) (take j p) (omega (arith, length-take j p, ji, lp)),
                  slice_to_lem i p lp,
                  lcs_lem (drop (j - b) (take j p)) (take i p)
                      (drop-AreBytes (j - b) (take j p) (take-AreBytes j p hp))
                      (take-AreBytes i p hp),
                )
                refl,
            Found-Repeated (i - c) (j - c) (k + c) o (omega (arith, few, bi, li)) (omega arith)
                (omega (arith, enough, pos, few, bi)) (omega (arith, jo, few, bj)) po ow
                (longer-Repeated p i j b ji bj lp k r),
          )
    ]
