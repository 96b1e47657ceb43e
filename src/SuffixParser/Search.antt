-- ===== src/SuffixParser/Search.antt =====
-- What the parser takes from the neighbours of a position in the suffix array can be copied.
use lz.Prelude.{
  some-inj, ℕ, ◌+◌, ◌-◌, ◌≤◌, ◌<◌, ◌≡◌, refl, sym, ◌∙◌, ◌⊎◌, arith, inl, inr, true, ◌&&◌, ◌||◌,
  Option, none, some, List, length, drop, get_or, get_or-drop, length-drop, ltb, ◌==◌, Bool-cases,
  get_elem?-eq-get_or, ap_at,
}
use mathlib.Core.Path.{subst}
use lz.Lz.{Bytes}
use lz.Slices.Laws.{slice_from_lem}
use lz.Bytes.Prefix.{AreBytes, prefix, prefix-bytes, prefix-bound, drop-AreBytes}
use lz.Bytes.Lcp.{lcp_lem}
use lz.Bitset.{Bitset, member_before, member_after}
use lz.Bitset.Bits.{member}
use lz.Bitset.Kept.{insert_kept}
use lz.Bitset.Nearest.{Before, before_at, After, after_at, nearest_lem}
use lz.Greedy.{Match}
use lz.Greedy.Found.{Found, nothing, match_at, Repeated, Found-Repeated}
use lz.Greedy.Scan.{IsSearcher}
use lz.SuffixParser.{Arrays, lcp_at, lower, upper, accept, find, fill, searcher}
use lz.SuffixParser.Index.{IsIndexed, mark_lem}

-- A mark stands for a position before the bound.
mark_position :
    {bound : ℕ} {t : Arrays} (k : ℕ)
    → IsIndexed bound t
    → member t.bits k ≡ true
    → (k < length t.sa) × (get_or t.sa k 0 < bound)
mark_position {bound} {t} k x h =
    let (i, lt, inside, at) = x.marks k h in
    let (place, there) = x.inverse i inside in
    (
      omega (arith, at, place),
      omega (arith, lt, there, ap_at (λ q. get_or t.sa q 0) (get_or t.isa i 0) k at),
    )

Before-member :
    {b : Bitset} {i : ℕ} (r : Option ℕ) → Before b i r → (k : ℕ) → r ≡ some k → member b k ≡ true
Before-member none w k e = cc
Before-member {b} (some j) (before_at lt there empty) k e =
    subst (λ q. member b q ≡ true) (some-inj j e) there

After-member :
    {b : Bitset} {i : ℕ} (r : Option ℕ) → After b i r → (k : ℕ) → r ≡ some k → member b k ≡ true
After-member none w k e = cc
After-member {b} (some j) (after_at lt there empty) k e =
    subst (λ q. member b q ≡ true) (some-inj j e) there

module _ (p : Bytes) (bytes : AreBytes p) (i : ℕ) (in_p : i < length p) where
  lcp_at_lem : (f : ℕ) → f < length p → lcp_at p f i ≡ some (prefix (drop f p) (drop i p))
  unfolding lcp_at
  lcp_at_lem f h =
      rw (slice_from_lem f p (omega (arith, h)), slice_from_lem i p (omega (arith, in_p)))
        (lcp_lem (drop f p) (drop i p) (drop-AreBytes f p bytes) (drop-AreBytes i p bytes))

  -- A position and the length of its match; without a neighbour the length is 0.
  Best : ℕ × ℕ → Type 0
  Best b = (b.1 ≡ 0) ⊎ (b.1 ≡ prefix (drop (b.0) p) (drop i p))

  module _ (sa : List ℕ) where
    abbrev Places : Option ℕ → Type 0
    Places r = (k : ℕ) → r ≡ some k → (k < length sa) × (get_or sa k 0 < length p)

    lower_lem : (r : Option ℕ) → Places r → (b : ℕ × ℕ) × (lower p sa i r ≡ some b) × Best b
    unfolding lower Best
    lower_lem none h = ((0, 0), refl, inl refl)
    lower_lem (some k) h =
        let (inside, before) = h k refl in
        let f = get_or sa k 0 in
        (
          (f, prefix (drop f p) (drop i p)),
          rw (get_elem?-eq-get_or sa k 0 inside, lcp_at_lem f before) refl,
          inr refl,
        )

    upper_lem :
        (b : ℕ × ℕ) (r : Option ℕ)
        → Best b
        → Places r
        → (b' : ℕ × ℕ) × (upper p sa i b r ≡ some b') × Best b'
    unfolding upper Best
    upper_lem b none best h = (b, refl, best)
    upper_lem (f, m) (some k) best h =
        let (inside, before) = h k refl in
        let f2 = get_or sa k 0 in
        let m2 = prefix (drop f2 p) (drop i p) in
        elim (Bool-cases (ltb m m2 || (m2 == m && ltb f f2))) [
          | inl e ↦ (
            (f2, m2),
            rw (get_elem?-eq-get_or sa k 0 inside, lcp_at_lem f2 before, e) refl,
            inr refl,
          )
          | inr e ↦
              ((f, m), rw (get_elem?-eq-get_or sa k 0 inside, lcp_at_lem f2 before, e) refl, best)
        ]

  prefix-Repeated : (f : ℕ) → f < i → Repeated p i f (prefix (drop f p) (drop i p))
  prefix-Repeated f lt = record {
    inside = omega (arith, prefix-bound (drop f p) (drop i p), length-drop i p, in_p);
    same = λ m h.
        sym (get_or-drop f m (f + m) p 0 refl)
        ∙ prefix-bytes (drop f p) (drop i p) m h
        ∙ get_or-drop i m (i + m) p 0 refl;
  }

  accept_lem :
      (window min_len lit_index : ℕ) (b : ℕ × ℕ)
      → 0 < min_len
      → lit_index ≤ i
      → Best b
      → Found p window lit_index i (accept window min_len i b)
  unfolding accept Best
  accept_lem window min_len lit_index (f, m) pos li best = elim (Bool-cases (ltb m min_len)) [
    | inl e ↦ rw e nothing
    | inr e ↦ elim (Bool-cases (ltb f i && ltb (i - f) window)) [
      | inr g ↦ rw (e, g) nothing
      | inl g ↦
          let enough : min_len ≤ m = ground (arith, e) in
          let before : f < i = ground (arith, g) in
          let near : i - f ≤ window = ground (arith, g) in
          let len : m ≡ prefix (drop f p) (drop i p) = elim best [
            | inl z ↦ absurd (omega (arith, z, enough, pos))
            | inr q ↦ q
          ] in
          rw (e, g)
            (Found-Repeated i f m (i - f) li (omega arith) (omega (arith, enough, pos))
              (omega (arith, before)) (omega (arith, before)) near
              (subst (Repeated p i f) (sym len) (prefix-Repeated f before)))
    ]
  ]

-- The arrays reach over `p`, and positions of `p` are marked.
pub record Covers (p : Bytes) (t : Arrays) : Type 0 where
  pub indexed : IsIndexed (length p) t
  pub reach : length p ≤ length t.sa

room_of :
    {p : Bytes} {window lit_index i : ℕ} (m : Match)
    → Found p window lit_index i (some m)
    → m.begin + m.len ≤ length p
room_of m (match_at _ _ _ _ _ _ room _) = room

module _ (p : Bytes) (bytes : AreBytes p) (window min_len : ℕ) (pos : 0 < min_len) where
  find_lem :
      (t : Arrays) (lit_index i : ℕ)
      → Covers p t
      → lit_index ≤ i
      → i < length p
      → (t' : Arrays) × (r : Option Match) × (find p window min_len t i ≡ some (t', r))
        × Covers p t'
        × Found p window lit_index i r
  unfolding find
  find_lem t lit_index i ok li lt =
      let x = ok.indexed in
      let j = get_or t.isa i 0 in
      let (bits, run, words, has, others) = insert_kept t.bits j x.words in
      let x' : IsIndexed (length p) (record t { bits = bits }) = record {
        same = x.same;
        inverse = x.inverse;
        words = words;
        marks = λ k h. elim (others k h) [
          | inl e ↦ (i, lt, omega (arith, lt, ok.reach), sym e)
          | inr old ↦ x.marks k old
        ];
      } in
      let (before, after) = nearest_lem bits words j in
      let (best, run1, good1) =
        lower_lem p bytes i lt t.sa (member_before bits j)
          (λ k e. mark_position k x' (Before-member (member_before bits j) before k e)) in
      let (best', run2, good2) =
        upper_lem p bytes i lt t.sa best (member_after bits j) good1
          (λ k e. mark_position k x' (After-member (member_after bits j) after k e)) in
      (
        record t { bits = bits },
        accept window min_len i best',
        rw (get_elem?-eq-get_or t.isa i 0 (omega (arith, lt, ok.reach, x.same)), run, run1, run2)
            refl,
        record { indexed = x'; reach = ok.reach },
        accept_lem p bytes i lt window min_len lit_index best' pos li good2,
      )

  fill_lem :
      (t : Arrays) (i : ℕ) (m : Match)
      → Covers p t
      → i < length p
      → m.begin + m.len ≤ length p
      → (t' : Arrays) × (fill t i m ≡ some t') × Covers p t'
  unfolding fill
  fill_lem t i m ok lt room =
      let n = m.begin + m.len - (i + 1) in
      let (bits, run, x) =
        mark_lem (length p) n (i + 1) t ok.indexed (omega (arith, lt, room))
          (omega (arith, lt, room, ok.reach)) in
      (record t { bits = bits }, rw run refl, record { indexed = x; reach = ok.reach })

  pub searcher-IsSearcher : IsSearcher (searcher p window min_len) (Covers p) p window (length p)
  unfolding searcher
  searcher-IsSearcher = record {
    finds = λ t lit_index i ok li lt. find_lem t lit_index i ok li lt;
    fills = λ t lit_index i m ok lt found. fill_lem t i m ok lt (room_of m found);
  }
