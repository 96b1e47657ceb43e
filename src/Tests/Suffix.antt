-- ===== src/Tests/Suffix.antt =====
-- The table of common prefixes of three bytes, and the segments.
use lz.Prelude.{
  ℕ, zero, suc, ◌≤◌, ◌<◌, ◌≡◌, refl, sym, ap, ◌∙◌, arith, some, List, [], ◌∷◌, length, drop, get_or,
}
use lz.Lz.{Bytes}
use lz.Bytes.Prefix.{AreBytes, byte, none_left}
use lz.Suffix.{Sort, lcp_table}
use lz.Suffix.Order.{Lex, shorter, less, rest, IsSuffixArray}
use lz.Suffix.Table.{common, lcp_table_lem}
use lz.Slices.{slice_from, slice_to}
use lz.Segments
use lz.Segments.{Callback, segments}
use lz.Segments.Stack.{Group}
use lz.Segments.Calls.{IsCallback}
use lz.Segments.Trace.{Call, Covers, cut, Runs}
use lz.Segments.Groups.{segments_lem}

abbrev text : Bytes
text = 1 ∷ 2 ∷ 1 ∷ []

abbrev sorted_text : Sort
sorted_text t = 2 ∷ 0 ∷ 1 ∷ []

text-AreBytes : AreBytes text
text-AreBytes = byte (omega arith) (byte (omega arith) (byte (omega arith) none_left))

abbrev text_place : ℕ → ℕ
text_place zero = 1
text_place (suc zero) = 2
text_place (suc (suc _)) = 0

sorted_text-IsSuffixArray : IsSuffixArray text (sorted_text text)
sorted_text-IsSuffixArray = record {
  lists = record {
    size = refl;
    inside = inside;
    position = text_place;
    listed = listed;
    once = once;
  };
  ordered = ordered;
}
  where
    inside : (q : ℕ) → q < 3 → get_or (sorted_text text) q 0 < 3
    inside zero h = omega arith
    inside (suc zero) h = omega arith
    inside (suc (suc zero)) h = omega arith
    inside (suc (suc (suc q))) h = absurd (omega (arith, h))

    listed : (i : ℕ) → i < 3 → (text_place i < 3) × (get_or (sorted_text text) (text_place i) 0 ≡ i)
    listed zero h = (omega arith, refl)
    listed (suc zero) h = (omega arith, refl)
    listed (suc (suc zero)) h = (omega arith, refl)
    listed (suc (suc (suc i))) h = absurd (omega (arith, h))

    back : (q : ℕ) → q < 3 → text_place (get_or (sorted_text text) q 0) ≡ q
    back zero h = refl
    back (suc zero) h = refl
    back (suc (suc zero)) h = refl
    back (suc (suc (suc q))) h = absurd (omega (arith, h))

    once :
        (q r : ℕ)
        → q < 3
        → r < 3
        → get_or (sorted_text text) q 0 ≡ get_or (sorted_text text) r 0
        → q ≡ r
    once q r h g e = sym (back q h) ∙ ap text_place e ∙ back r g

    ordered :
        (q r : ℕ)
        → q < r
        → r < 3
        → Lex
            (drop (get_or (sorted_text text) q 0) text)
            (drop (get_or (sorted_text text) r 0) text)
    ordered zero (suc zero) h g = rest refl shorter
    ordered zero (suc (suc zero)) h g = less (omega arith)
    ordered (suc zero) (suc (suc zero)) h g = less (omega arith)
    ordered q zero h g = absurd (omega (arith, h))
    ordered (suc q) (suc zero) h g = absurd (omega (arith, h))
    ordered (suc (suc q)) (suc (suc zero)) h g = absurd (omega (arith, h))
    ordered q (suc (suc (suc r))) h g = absurd (omega (arith, g))

lcp_table_lem_example :
    (out : List ℕ) × (lcp_table sorted_text text (2 ∷ 0 ∷ 1 ∷ []) [] (9 ∷ 9 ∷ 9 ∷ []) ≡ some out)
    × (length out ≡ 3)
    × ((q : ℕ) → q < 3 → get_or out q 0 ≡ common text (2 ∷ 0 ∷ 1 ∷ []) q)
lcp_table_lem_example =
    lcp_table_lem sorted_text text (2 ∷ 0 ∷ 1 ∷ []) (9 ∷ 9 ∷ 9 ∷ []) text-AreBytes (omega arith)
      sorted_text-IsSuffixArray refl

-- Writes down each call, and leaves the segment as it is.
abbrev written_down : Callback (List (ℕ × List ℕ))
written_down m part s = some (part, (m, part) ∷ s)

-- The calls are for groups.
data Recorded : List (ℕ × List ℕ) → Type 0 where
  no_call : Recorded []
  one_call :
      {m : ℕ} {part : List ℕ} {s : List (ℕ × List ℕ)}
      → 1 ≤ m
      → Group text part m 0 (length part)
      → Recorded s
      → Recorded ((m, part) ∷ s)

written_down-IsCallback : IsCallback text Recorded 1 10 written_down
written_down-IsCallback = record {
  returns = λ m part s low high group holds.
      (part, (m, part) ∷ s, refl, refl, λ q h. (q, h, refl), one_call low group holds);
}

segments_lem_example :
    (lcp sa' : List ℕ) × (s' : List (ℕ × List ℕ)) × (calls : List Call) × (lcp_table sorted_text
        text
        (2 ∷ 0 ∷ 1 ∷ [])
        []
        (9 ∷ 9 ∷ 9 ∷ [])
      ≡ some lcp)
    × (segments written_down (2 ∷ 0 ∷ 1 ∷ []) lcp 1 10 [] ≡ some (sa', s'))
    × Runs written_down calls (2 ∷ 0 ∷ 1 ∷ []) [] sa' s'
    × ((q : ℕ)
        → 0 < q
        → q < 3
        → 1 ≤ cut 10 (common text (2 ∷ 0 ∷ 1 ∷ []) q)
        → Covers (cut 10 (common text (2 ∷ 0 ∷ 1 ∷ []) q)) q calls)
    × (length sa' ≡ 3)
    × Recorded s'
segments_lem_example =
    segments_lem Recorded 1 10 written_down [] sorted_text text (2 ∷ 0 ∷ 1 ∷ []) (9 ∷ 9 ∷ 9 ∷ [])
      written_down-IsCallback no_call text-AreBytes (omega arith) (omega arith) (omega arith)
      (omega arith) sorted_text-IsSuffixArray refl

-- Three suffixes share two bytes, of which the first is not in the segment for them.
lost_suffix :
    segments written_down (5 ∷ 7 ∷ 9 ∷ []) (0 ∷ 3 ∷ 2 ∷ []) 2 10 []
    ≡ some (5 ∷ 7 ∷ 9 ∷ [], (2, 7 ∷ 9 ∷ []) ∷ (3, 5 ∷ 7 ∷ []) ∷ [])
unfolding segments Segments.scan_lcp Segments.scan Segments.pop Segments.call slice_from slice_to
lost_suffix = refl
