-- ===== src/Segments/Groups.antt =====
-- `Segments` over a whole suffix array with its table of common prefixes.
use lz.Prelude.{
  ℕ, zero, suc, ◌+◌, ◌-◌, ◌≤◌, ◌<◌, ◌≡◌, refl, sym, ◌∙◌, arith, inl, inr, true, List, [], ◌∷◌,
  length, drop, get_or, ltb, leb, ◌==◌, Bool-cases, ap_at, Option, some, get_or-drop, length-drop,
}
use mathlib.Core.Path.{subst}
use lz.Lz.{Bytes}
use lz.Bytes.Prefix.{AreBytes, prefix_comm}
use lz.Suffix.{Sort, max_int32, lcp_table}
use lz.Suffix.Order.{IsSuffixArray}
use lz.Suffix.Table.{common, lcp_table_lem}
use lz.Segments.{Callback, Item, pop, scan, scan_lcp, segments}
use lz.Segments.Stack.{Close, IsStack, bottom, opened}
use lz.Segments.Calls.{IsCallback}
use lz.Segments.Trace.{Call, Covers, cut, Runs}
use lz.Segments.Covered.{segments_trace}
use lz.Segments.Scan.{finish_lem, round_lem}

-- What each place of the array shares with the one before is at least what the table says.
abbrev pub Tabled : Bytes → List ℕ → (lcp : List ℕ) → Type 0
Tabled t sa lcp =
    (q : ℕ) → 0 < q → q < length sa → Close t (get_or lcp q 0) (get_or sa (q - 1) 0) (get_or sa q 0)

-- The table that `LCP` makes
pub common-Tabled :
    (t : Bytes) (sa lcp : List ℕ)
    → IsSuffixArray t sa
    → ((q : ℕ) → q < length t → get_or lcp q 0 ≡ common t sa q)
    → Tabled t sa lcp
unfolding common
common-Tabled t sa lcp x right zero pos h = absurd (omega (arith, pos))
common-Tabled t sa lcp x right (suc q) pos h =
    let back : suc q - 1 ≡ q = omega arith in
    subst (λ p. Close t (get_or lcp (suc q) 0) (get_or sa p 0) (get_or sa (suc q) 0)) (sym back)
      (omega (
        arith,
        right (suc q) (omega (arith, h, x.lists.size)),
        prefix_comm (drop (get_or sa q 0) t) (drop (get_or sa (suc q) 0) t),
      ))

-- The end of a scan
pub record Ended {ℓ} {S : Type ℓ} (Q : S → Type 0) (sa : List ℕ) (run : Option (List ℕ × S))
    : Type ℓ where
  pub array : List ℕ
  pub state : S
  pub ends : run ≡ some (array, state)
  pub size : length array ≡ length sa
  pub holds : Q state

module _ {ℓ} {S : Type ℓ} (t : Bytes) (Q : S → Type 0) (min_len max_len : ℕ) (f : Callback S)
    (c : IsCallback t Q min_len max_len f) where
  cut_lem : (n : ℕ) → (cut max_len n ≤ max_len) × (cut max_len n ≤ n)
  cut_lem n = elim (Bool-cases (ltb max_len n)) [
    | inl e ↦ rw e (omega arith, ground (arith, e))
    | inr e ↦ rw e (ground (arith, e), omega arith)
  ]

  -- A round of the outer loop, from the rounds behind it
  go_on :
      (n : ℕ) (lcp : List ℕ) (j : ℕ) (stack : List Item) (sa : List ℕ) (s : S) (stack' : List Item)
      (sa' : List ℕ) (s' : S)
      → pop f min_len (some (cut max_len n)) j stack sa s ≡ some (stack', sa', s')
      → length sa' ≡ length sa
      → Q s'
      → Ended Q sa' (scan f min_len max_len lcp (j + 1) stack' sa' s')
      → Ended Q sa (scan f min_len max_len (n ∷ lcp) j stack sa s)
  unfolding scan
  go_on n lcp j stack sa s [] sa' s' run same holds rest = record {
    array = sa';
    state = s';
    ends = rw run refl;
    size = same;
    holds = holds;
  }
  go_on n lcp j stack sa s (x ∷ stack') sa' s' run same holds rest = record {
    array = rest.array;
    state = rest.state;
    ends = rw run rest.ends;
    size = rest.size ∙ same;
    holds = rest.holds;
  }

  scan_lem :
      (lcp : List ℕ) (j a h : ℕ) (stack : List Item) (sa : List ℕ) (s : S)
      → 0 < j
      → length lcp + j ≡ length sa
      → ((q : ℕ)
          → q < length lcp
          → Close t (get_or lcp q 0) (get_or sa (j + q - 1) 0) (get_or sa (j + q) 0))
      → IsStack t max_len sa j a h stack
      → Q s
      → Ended Q sa (scan f min_len max_len lcp j stack sa s)
  unfolding scan
  scan_lem [] j a h stack sa s pos size near stands holds =
      let (sa', s', run, same, holds') =
        finish_lem t Q min_len max_len f c stack j a h sa s (omega (arith, size)) stands holds in
      record { array = sa'; state = s'; ends = rw run refl; size = same; holds = holds' }
  scan_lem (n ∷ lcp) j a h stack sa s pos size near stands holds =
      let (low, le) = cut_lem n in
      let zeroth : j + 0 ≡ j = omega arith in
      let here : Close t n (get_or sa (j - 1) 0) (get_or sa j 0) =
        subst (λ q. Close t n (get_or sa (q - 1) 0) (get_or sa q 0)) zeroth
          (near 0 (omega arith)) in
      let (stack', sa', s', run, done) =
        round_lem t Q min_len max_len f c stack j (cut max_len n) a h sa s pos (omega (arith, size))
          low (omega (arith, le, here)) stands holds in
      go_on n lcp j stack sa s stack' sa' s' run done.size done.holds (
        scan_lem lcp (j + 1) j (cut max_len n) stack' sa' s' (omega arith)
          (omega (arith, size, done.size))
          (λ q hq. later sa' done.later q (near (suc q) (omega (arith, hq)))) done.stands
          done.holds)
    where
      later :
          (sa' : List ℕ)
          → ((q : ℕ) → j ≤ q → get_or sa' q 0 ≡ get_or sa q 0)
          → (q : ℕ)
          → Close t (get_or lcp q 0) (get_or sa (j + suc q - 1) 0) (get_or sa (j + suc q) 0)
          → Close t (get_or lcp q 0) (get_or sa' (j + 1 + q - 1) 0) (get_or sa' (j + 1 + q) 0)
      later sa' same q h =
          subst (λ i. Close t (get_or lcp q 0) i (get_or sa' (j + 1 + q) 0))
            (ap_at (λ i. get_or sa i 0) (j + suc q - 1) (j + 1 + q - 1) (omega arith)
              ∙ sym (same (j + 1 + q - 1) (omega arith)))
            (subst (λ i. Close t (get_or lcp q 0) (get_or sa (j + suc q - 1) 0) i)
              (ap_at (λ i. get_or sa i 0) (j + suc q) (j + 1 + q) (omega arith)
                ∙ sym (same (j + 1 + q) (omega arith)))
              h)

  -- `Segments` from the table
  pub tabled_lem :
      (sa lcp : List ℕ) (s : S)
      → length lcp ≡ length sa
      → 0 < length sa
      → min_len ≤ max_int32
      → max_len ≤ max_int32
      → Tabled t sa lcp
      → Q s
      → Ended Q sa (segments f sa lcp min_len max_len s)
  unfolding segments scan_lcp
  tabled_lem sa lcp s size some_left low high tabled holds =
      let same : (length sa == length lcp) ≡ true = ground (arith, size) in
      let low' : leb min_len max_int32 ≡ true = ground (arith, low) in
      let high' : leb max_len max_int32 ≡ true = ground (arith, high) in
      let r =
        scan_lem (drop 1 lcp) 1 0 0 (record { n = 0; j = 0 } ∷ []) sa s (omega arith)
          (omega (arith, length-drop 1 lcp, size, some_left)) near
          (opened (omega arith) (omega arith) (omega arith) (omega arith)
            (λ q r _ _ _ _. omega arith) bottom)
          holds in
      elim (Bool-cases (ltb max_len min_len)) [
        | inl e ↦ record {
          array = sa;
          state = s;
          ends = rw (same, low', high', e) refl;
          size = refl;
          holds = holds;
        }
        | inr e ↦ record {
          array = r.array;
          state = r.state;
          ends = rw (same, low', high', e) r.ends;
          size = r.size;
          holds = r.holds;
        }
      ]
    where
      near :
          (q : ℕ)
          → q < length (drop 1 lcp)
          → Close t (get_or (drop 1 lcp) q 0) (get_or sa (1 + q - 1) 0) (get_or sa (1 + q) 0)
      near q h =
          subst (λ m. Close t m (get_or sa (1 + q - 1) 0) (get_or sa (1 + q) 0))
            (sym (get_or-drop 1 q (1 + q) lcp 0 refl))
            (tabled (1 + q) (omega arith) (omega (arith, h, length-drop 1 lcp, size)))

-- `LCP` and then `Segments`, for a suffix array of a text of bytes that is not empty, a table of its length, `minLen` and
-- `maxLen` of at most `MaxInt32`, and a function that does not panic for groups and leaves in a group elements of it:
-- neither panics. `Segments` makes calls of its function and nothing else. They are for lengths from `minLen` to `maxLen`,
-- and for groups of positions that have as many bytes in common at least, also where the function reorders the groups: what
-- it keeps for such groups holds of its state at the end. For each place but the first whose suffix has `minLen` bytes at
-- least in common with the one before it, both counts cut at `maxLen`, there is a call for just that count, whose part of
-- the array holds both places.
pub segments_lem {ℓ} :
    {S : Type ℓ} (Q : S → Type 0) (min_len max_len : ℕ) (f : Callback S) (s : S) (sorted : Sort)
    (t : Bytes) (sa table : List ℕ)
    → IsCallback t Q min_len max_len f
    → Q s
    → AreBytes t
    → 0 < length t
    → length t ≤ max_int32
    → min_len ≤ max_int32
    → max_len ≤ max_int32
    → IsSuffixArray t sa
    → length table ≡ length t
    → (lcp sa' : List ℕ) × (s' : S) × (calls : List Call) × (lcp_table sorted t sa [] table
        ≡ some lcp)
      × (segments f sa lcp min_len max_len s ≡ some (sa', s'))
      × Runs f calls sa s sa' s'
      × ((q : ℕ)
          → 0 < q
          → q < length t
          → min_len ≤ cut max_len (common t sa q)
          → Covers (cut max_len (common t sa q)) q calls)
      × (length sa' ≡ length sa)
      × Q s'
segments_lem Q min_len max_len f s sorted t sa table c holds bytes some_left short low high x long =
    let (lcp, run, size, right) = lcp_table_lem sorted t sa table bytes short x long in
    let r =
      tabled_lem t Q min_len max_len f c sa lcp s (omega (arith, size, x.lists.size))
        (omega (arith, some_left, x.lists.size)) low high (common-Tabled t sa lcp x right) holds in
    let (calls, runs, covered) =
      segments_trace f min_len max_len sa lcp s (r.array, r.state) r.ends in
    (
      lcp,
      r.array,
      r.state,
      calls,
      run,
      r.ends,
      runs,
      λ q pos h least.
          subst (λ n. Covers (cut max_len n) q calls) (right q h)
            (covered q pos (omega (arith, h, size))
              (subst (λ n. min_len ≤ cut max_len n) (sym (right q h)) least)),
      r.size,
      r.holds,
    )
