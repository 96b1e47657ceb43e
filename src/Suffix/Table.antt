-- ===== src/Suffix/Table.antt =====
-- `LCP` computes the common prefixes of neighbours in a suffix array: what it carries over from a position to the
-- next one is never too much.
use lz.Prelude.{
  ℕ, zero, suc, ◌+◌, ◌-◌, ◌≤◌, ◌<◌, ◌≡◌, refl, sym, ap, ◌∙◌, arith, inl, inr, true, false, some,
  List, [], ◌∷◌, length, drop, get_elem?, get_or, ltb, ◌==◌, Bool-cases, if◌then◌else◌, ap_at,
  drop-drop, replicate, length-replicate, length-drop, get_elem?-eq-get_or,
}
use lz.Lz.{Bytes}
use lz.Slices.Laws.{slice_from_lem}
use lz.Bytes.Prefix.{AreBytes, prefix, prefix-bound, prefix_comm, drop-AreBytes}
use lz.Bytes.Lcp.{lcp_lem}
use lz.Hash.{store}
use lz.Bitset.Insert.{store-word}
use lz.Suffix.{Sort, Lists, invert_sa, match_len, lcp_loop, lcp_table, max_int32}
use lz.Suffix.Inverse.{IsInverse, inverse_lem, length-store}
use lz.Suffix.Phi.{carried}
use lz.Suffix.Order.{prefix-drop, IsSuffixArray}

-- What the suffixes at a place and at the one before it have in common
unfoldable pub common : Bytes → List ℕ → ℕ → ℕ
common t sa zero = 0
common t sa (suc k) = prefix (drop (get_or sa (suc k) 0) t) (drop (get_or sa k 0) t)

-- A round of the loop, from what its calls return
loop_round :
    (t : Bytes) (sa ks : List ℕ) (i l k j m : ℕ) (table table' out : List ℕ)
    → get_elem? sa (suc k - 1) ≡ some j
    → i + l ≤ length t
    → j + l ≤ length t
    → match_len (drop (i + l) t) (drop (j + l) t) ≡ some m
    → store table (suc k) (l + m) ≡ some table'
    → lcp_loop t sa ks (i + 1) (l + m - 1) table' ≡ some out
    → lcp_loop t sa (suc k ∷ ks) i l table ≡ some out
unfolding lcp_loop
loop_round t sa ks i l k j m table table' out other first_in second_in count written rest =
    let later : (suc k == 0) ≡ false = ground arith in
    rw
      (
        later,
        other,
        slice_from_lem (i + l) t first_in,
        slice_from_lem (j + l) t second_in,
        count,
        written,
      )
      rest

module _ (t : Bytes) (bytes : AreBytes t) (sa isa : List ℕ) (x : IsSuffixArray t sa)
    (inv : IsInverse sa isa) where
  abbrev n : ℕ
  n = length t

  abbrev suffix : ℕ → Bytes
  suffix i = drop i t

  abbrev rank : ℕ → ℕ
  rank i = get_or isa i 0

  abbrev place : ℕ → ℕ
  place q = get_or sa q 0

  size : length sa ≡ n
  size = x.lists.size

  -- What is carried over to a position
  abbrev Carry : ℕ → ℕ → Type 0
  Carry i l = i < n → (k : ℕ) → rank i ≡ suc k → l ≤ prefix (suffix i) (suffix (place k))

  -- The table is right for the positions before `i`.
  abbrev Filled : ℕ → List ℕ → Type 0
  Filled i table = (m : ℕ) → m < i → get_or table (rank m) 0 ≡ common t sa (rank m)

  written :
      (i k v : ℕ) (table table' : List ℕ)
      → rank i ≡ k
      → v ≡ common t sa k
      → ((q : ℕ) → get_or table' q 0 ≡ (if q == k then v else get_or table q 0))
      → Filled i table
      → Filled (i + 1) table'
  written i k v table table' at right same filled m h = elim (Bool-cases (rank m == k)) [
    | inl e ↦ same (rank m) ∙ rw e (right ∙ ap_at (common t sa) k (rank m) (ground (arith, e)))
    | inr e ↦ let earlier : m < i = other m e h in same (rank m) ∙ rw e (filled m earlier)
  ]
    where
      other : (m : ℕ) → (rank m == k) ≡ false → m < i + 1 → m < i
      other m e h = elim (Bool-cases (m == i)) [
        | inl f ↦ absurd (ground (arith, e, at, ap_at rank m i (ground (arith, f))))
        | inr f ↦ ground (arith, f, h)
      ]

  -- What the loop does at the position `i`, which is not first in the order
  record Compared (i l k : ℕ) : Type 0 where
    first_in : i + l ≤ n
    second_in : place k + l ≤ n
    count : ℕ
    run : match_len (suffix (i + l)) (suffix (place k + l)) ≡ some count
    total : l + count ≡ common t sa (suc k)
    long_enough : l + count ≡ prefix (suffix i) (suffix (place k))

  compare_lem : (i l k : ℕ) → i < n → rank i ≡ suc k → Carry i l → Compared i l k
  unfolding match_len common
  compare_lem i l k hi e carry =
      let j = place k in
      let (in_sa, at) = inv.rank i (omega (arith, hi, size)) in
      let le : l ≤ prefix (suffix i) (suffix j) = carry hi k e in
      let split = prefix-drop l (suffix i) (suffix j) le in
      let a = suffix (i + l) in
      let b = suffix (j + l) in
      let rest : prefix (drop l (suffix i)) (drop l (suffix j)) ≡ prefix a b =
        ap (λ p. prefix p (drop l (suffix j))) (drop-drop l i (i + l) t refl)
        ∙ ap (prefix a) (drop-drop l j (j + l) t refl) in
      let here : place (suc k) ≡ i = ap_at place (suc k) (rank i) (sym e) ∙ at in
      let hj : j < n = x.lists.inside k (omega (arith, in_sa, e, size)) in
      record {
        first_in = omega (
          arith,
          le,
          prefix_comm (suffix i) (suffix j),
          prefix-bound (suffix j) (suffix i),
          length-drop i t,
          hi,
        );
        second_in = omega (arith, le, prefix-bound (suffix i) (suffix j), length-drop j t, hj);
        count = prefix a b;
        run = lcp_lem a b (drop-AreBytes (i + l) t bytes) (drop-AreBytes (j + l) t bytes);
        total =
            omega (
              arith,
              split,
              rest,
              ap_at (λ m. prefix (suffix m) (suffix j)) (place (suc k)) i here,
            );
        long_enough = omega (arith, split, rest);
      }

  loop_lem :
      (ks : List ℕ) (i l : ℕ) (table : List ℕ)
      → ((m : ℕ) → get_or ks m 0 ≡ rank (i + m))
      → i + length ks ≡ n
      → length table ≡ n
      → Carry i l
      → Filled i table
      → (out : List ℕ) × (lcp_loop t sa ks i l table ≡ some out) × (length out ≡ n) × Filled n out
  unfolding lcp_loop common
  loop_lem [] i l table same end long carry filled =
      (table, refl, long, λ m h. filled m (omega (arith, h, end)))
  loop_lem (zero ∷ ks) i l table same end long carry filled =
      let at : rank i ≡ 0 = omega (arith, same 0, ap_at rank (i + 0) i (omega arith)) in
      let (table', run, there) = store-word table 0 0 (omega (arith, end, long)) in
      let long' = length-store table 0 0 (omega (arith, end, long)) run in
      let (out, rest, size', done) =
        loop_lem ks (i + 1) 0 table'
          (λ m. same (suc m) ∙ ap_at rank (i + suc m) (i + 1 + m) (omega arith))
          (omega (arith, end)) (omega (arith, long, long')) (λ h k e. omega arith)
          (written i 0 0 table table' at refl there filled) in
      (out, rw run rest, size', done)
  loop_lem (suc k ∷ ks) i l table same end long carry filled =
      let at : rank i ≡ suc k = omega (arith, same 0, ap_at rank (i + 0) i (omega arith)) in
      let hi : i < n = omega (arith, end) in
      let j = place k in
      let c = compare_lem i l k hi at carry in
      let (in_sa, _) = inv.rank i (omega (arith, hi, size)) in
      let in_table : suc k < length table = omega (arith, in_sa, at, size, long) in
      let (table', run, there) = store-word table (suc k) (l + c.count) in_table in
      let long' = length-store table (suc k) (l + c.count) in_table run in
      let carry' : Carry (i + 1) (l + c.count - 1) = λ h k' e. omega (
        arith,
        c.long_enough,
        carried t sa isa x inv i k k' hi (omega (arith, h)) at
            (ap_at rank (suc i) (i + 1) (omega arith) ∙ e),
        ap_at (λ m. prefix (suffix m) (suffix (place k'))) (suc i) (i + 1) (omega arith),
      ) in
      let (out, rest, size', done) =
        loop_lem ks (i + 1) (l + c.count - 1) table'
          (λ m. same (suc m) ∙ ap_at rank (i + suc m) (i + 1 + m) (omega arith))
          (omega (arith, end)) (omega (arith, long, long')) carry'
          (written i (suc k) (l + c.count) table table' at c.total there filled) in
      let here =
        ap_at (get_elem? sa) (suc k - 1) k (omega arith)
        ∙ get_elem?-eq-get_or sa k 0 (omega (arith, in_sa, at)) in
      (
        out,
        loop_round t sa ks i l k j c.count table table' out here c.first_in c.second_in c.run run
            rest,
        size',
        done,
      )

-- The inverse that `LCP` makes when it has none
fresh_lem :
    (count : ℕ) (sa : List ℕ)
    → Lists count sa
    → (isa : List ℕ) × ((if 0 == length sa then some [] else invert_sa sa (replicate (length sa) 0))
        ≡ some isa)
      × IsInverse sa isa
unfolding invert_sa
fresh_lem count sa l = elim (Bool-cases (0 == length sa)) [
  | inl e ↦ (
    [],
    rw e refl,
    record {
      same = ground (arith, e);
      rank = λ i h. absurd (ground (arith, e, h));
      back = λ q h. absurd (ground (arith, e, h));
    },
  )
  | inr e ↦
      let long = length-replicate {A = ℕ} (length sa) 0 in
      let (isa, run, inv) =
        inverse_lem count sa (replicate (length sa) 0) l (omega (arith, long, l.size)) in
      let fits : (length sa == length (replicate {A = ℕ} (length sa) 0)) ≡ true =
        ground (arith, long) in
      (isa, rw (e, fits) run, inv)
]

-- `InvertSA` and `LCP`, given a suffix array of the text, with a table of its length: they end without a panic, and the
-- table then tells how many bytes the suffix at each place has in common with the one before it (0 at the first).
pub lcp_table_lem :
    (sorted : Sort) (t : Bytes) (sa table : List ℕ)
    → AreBytes t
    → length t ≤ max_int32
    → IsSuffixArray t sa
    → length table ≡ length t
    → (out : List ℕ) × (lcp_table sorted t sa [] table ≡ some out)
      × (length out ≡ length t)
      × ((q : ℕ) → q < length t → get_or out q 0 ≡ common t sa q)
unfolding lcp_table invert_sa
lcp_table_lem sorted t sa table bytes small x long =
    let (isa, run, inv) = fresh_lem (length t) sa x.lists in
    let (out, ran, size', done) =
      loop_lem t bytes sa isa x inv isa 0 0 table
        (λ m. ap_at (λ q. get_or isa q 0) m (0 + m) (omega arith))
        (omega (arith, inv.same, x.lists.size)) long (λ h k e. omega arith)
        (λ m h. absurd (omega (arith, h))) in
    let short : ltb max_int32 (length t) ≡ false = ground (arith, small) in
    let kept : (length sa == length t) ≡ true = ground (arith, x.lists.size) in
    let fits : (length table == length t) ≡ true = ground (arith, long) in
    (
      out,
      rw (short, kept, run, fits) ran,
      size',
      λ q h.
          let there = inv.back q (omega (arith, h, x.lists.size)) in
          ap_at (λ r. get_or out r 0) q (get_or isa (get_or sa q 0) 0) (sym there)
          ∙ done (get_or sa q 0) (x.lists.inside q h)
          ∙ ap_at (common t sa) (get_or isa (get_or sa q 0) 0) q there,
    )
