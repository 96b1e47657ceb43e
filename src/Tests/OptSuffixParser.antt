-- ===== src/Tests/OptSuffixParser.antt =====
-- An optimizing parser at the start of four equal bytes, with their suffix array and insertion sort.
use lz.Prelude.{
  ℕ, zero, suc, ◌+◌, ◌-◌, ◌≤◌, ◌<◌, ◌≡◌, ◌⊎◌, refl, ap, ◌∙◌, arith, inl, inr, Option, none, some,
  false, List, [], ◌∷◌, length, drop, get_or, leb, Bool-cases, if◌then◌else◌,
}
use lz.Prelude.Int.{pos}
use lz.Lz.{Block, Error}
use lz.Bytes.Prefix.{AreBytes, none_left, byte}
use lz.ParserBuffer.{memory}
use lz.Suffix.{Sort}
use lz.Suffix.Order.{Lex, shorter, rest, IsSuffixArray}
use lz.Greedy.RoundTrip.{Parsed}
use lz.Slices.{slice_from, slice_to}
use lz.Bytes.{leading_zeros}
use lz.OptSuffixParser
use lz.OptSuffixParser.{Parser, Graph, no_graph, xz_cost, parse, shortest_path}
use lz.OptSuffixParser.Config.{Config, Cost, init}
use lz.OptSuffixParser.Setup.{optimal-setup_lem}
use lz.ParserBuffer.Text.{Holds}
use lz.Tests.HashParser.{small_buffer}
use lz.Suffix.{max_int32}
use lz.OptSuffixParser.Link.{IsSorting}
use lz.OptSuffixParser.RoundTrip.{Ready, buffer_of, optimal-parse_lem}

insert : ℕ → List ℕ → List ℕ
insert x [] = x ∷ []
insert x (y ∷ ys) = let below = insert x ys in if leb x y then x ∷ y ∷ ys else y ∷ below

insertion_sort : List ℕ → List ℕ
insertion_sort [] = []
insertion_sort (x ∷ xs) = insert x (insertion_sort xs)

length-insert : (x : ℕ) (xs : List ℕ) → length (insert x xs) ≡ suc (length xs)
unfolding insert
length-insert x [] = refl
length-insert x (y ∷ ys) = elim (Bool-cases (leb x y)) [
  | inl e ↦ rw e refl
  | inr e ↦ rw e (ap suc (length-insert x ys))
]

get_or-insert :
    (x : ℕ) (xs : List ℕ) (q : ℕ)
    → q < length (insert x xs)
    → (get_or (insert x xs) q 0 ≡ x)
      ⊎ ((r : ℕ) × (r < length xs) × (get_or (insert x xs) q 0 ≡ get_or xs r 0))
unfolding insert
get_or-insert x [] zero h = inl refl
get_or-insert x [] (suc q) h = absurd (omega (arith, h))
get_or-insert x (y ∷ ys) q h = elim (Bool-cases (leb x y)) [
  | inl e ↦ rw e (front q (omega (arith, h, length-insert x (y ∷ ys))))
  | inr e ↦ rw e (
      behind (get_or-insert x ys) q
        (omega (arith, h, length-insert x (y ∷ ys), length-insert x ys)))
]
  where
    front :
        (q : ℕ)
        → q < length (x ∷ y ∷ ys)
        → (get_or (x ∷ y ∷ ys) q 0 ≡ x)
          ⊎ ((r : ℕ) × (r < length (y ∷ ys)) × (get_or (x ∷ y ∷ ys) q 0 ≡ get_or (y ∷ ys) r 0))
    front zero h = inl refl
    front (suc q) h = inr (q, omega (arith, h), refl)

    behind :
        ((r : ℕ)
          → r < length (insert x ys)
          → (get_or (insert x ys) r 0 ≡ x)
            ⊎ ((k : ℕ) × (k < length ys) × (get_or (insert x ys) r 0 ≡ get_or ys k 0)))
        → (q : ℕ) → q < length (y ∷ insert x ys)
        → (get_or (y ∷ insert x ys) q 0 ≡ x)
          ⊎ ((r : ℕ) × (r < length (y ∷ ys)) × (get_or (y ∷ insert x ys) q 0 ≡ get_or (y ∷ ys) r 0))
    behind deep zero h = inr (0, omega arith, refl)
    behind deep (suc q) h = elim (deep q (omega (arith, h))) [
      | inl e ↦ inl e
      | inr (r, hr, e) ↦ inr (suc r, omega (arith, hr), e)
    ]

abbrev Up : List ℕ → Type 0
Up xs = (q r : ℕ) → q ≤ r → r < length xs → get_or xs q 0 ≤ get_or xs r 0

-- An ascending list in front of which a smaller number is put
cons-Up :
    (x : ℕ) (xs : List ℕ) → ((r : ℕ) → r < length xs → x ≤ get_or xs r 0) → Up xs → Up (x ∷ xs)
cons-Up x xs least up zero zero le h = omega arith
cons-Up x xs least up zero (suc r) le h = least r (omega (arith, h))
cons-Up x xs least up (suc q) zero le h = absurd (omega (arith, le))
cons-Up x xs least up (suc q) (suc r) le h = up q r (omega (arith, le)) (omega (arith, h))

insert-Up : (x : ℕ) (xs : List ℕ) → Up xs → Up (insert x xs)
unfolding insert
insert-Up x [] up = cons-Up x [] (λ r h. absurd (omega (arith, h))) up
insert-Up x (y ∷ ys) up = elim (Bool-cases (leb x y)) [
  | inl e ↦ rw e (cons-Up x (y ∷ ys) (λ r h. ground (arith, e, up 0 r (omega arith) h)) up)
  | inr e ↦ rw e (
      cons-Up y (insert x ys)
        (λ r h. elim (get_or-insert x ys r h) [
          | inl is ↦ ground (arith, e, is)
          | inr (q, hq, is) ↦ omega (arith, is, up 0 (suc q) (omega arith) (omega (arith, hq)))
        ])
        (insert-Up x ys (λ q r le h. up (suc q) (suc r) (omega (arith, le)) (omega (arith, h)))))
]

insertion_sort-IsSorting : IsSorting insertion_sort
unfolding insertion_sort
insertion_sort-IsSorting = record { size = size; ascending = up; from = from }
  where
    size : (xs : List ℕ) → length (insertion_sort xs) ≡ length xs
    size [] = refl
    size (x ∷ xs) = length-insert x (insertion_sort xs) ∙ ap suc (size xs)

    sorted : (xs : List ℕ) → Up (insertion_sort xs)
    sorted [] = λ q r le h. absurd (omega (arith, h))
    sorted (x ∷ xs) = insert-Up x (insertion_sort xs) (sorted xs)

    up :
        (xs : List ℕ) (q r : ℕ)
        → q ≤ r
        → r < length xs
        → get_or (insertion_sort xs) q 0 ≤ get_or (insertion_sort xs) r 0
    up xs q r le h = sorted xs q r le (omega (arith, h, size xs))

    from :
        (xs : List ℕ) (q : ℕ)
        → q < length xs
        → (r : ℕ) × (r < length xs) × (get_or (insertion_sort xs) q 0 ≡ get_or xs r 0)
    from [] q h = absurd (omega (arith, h))
    from (x ∷ xs) q h =
        elim (get_or-insert x (insertion_sort xs) q
          (omega (arith, h, length-insert x (insertion_sort xs), size xs))) [
            | inl e ↦ (0, omega arith, e)
            | inr (r, hr, e) ↦
                let (k, hk, is) = from xs r (omega (arith, hr, size xs)) in
                (suc k, omega (arith, hk), e ∙ is)
          ]

abbrev ones : Parser
ones = record {
  buffer = record {
    data_bytes = 1 ∷ 1 ∷ 1 ∷ 1 ∷ [];
    spare = 0 ∷ 0 ∷ 0 ∷ 0 ∷ 0 ∷ 0 ∷ 0 ∷ [];
    w = 0;
    off = pos 0;
    shrink_size = 4;
    buffer_size = 8;
    window_size = 8;
    block_size = 6;
  };
  graph = no_graph;
  cost = xz_cost;
  min_match_len = 2;
  max_match_len = 273;
}

abbrev ones_order : Sort
ones_order t = 3 ∷ 2 ∷ 1 ∷ 0 ∷ []

ones-AreBytes : AreBytes (memory ones.buffer)
ones-AreBytes = byte (omega arith) (
    byte (omega arith) (
      byte (omega arith) (
        byte (omega arith) (
          byte (omega arith) (
            byte (omega arith) (
              byte (omega arith) (
                byte (omega arith)
                  (byte (omega arith) (byte (omega arith) (byte (omega arith) none_left))))))))))

ones-Ready : Ready ones
ones-Ready = record {
  buffer = record {
    valid = record {
      head_in = omega arith;
      in_size = omega arith;
      margin = inr (omega arith);
      shrink_in = omega arith;
    };
    bytes = ones-AreBytes;
    blocks = omega arith;
    small = omega arith;
  };
  indexes = omega arith;
  least = omega arith;
  lengths = omega arith;
  early = omega arith;
  graph = λ k h. absurd (omega (arith, h));
}

ones-IsSuffixArray : IsSuffixArray (1 ∷ 1 ∷ 1 ∷ 1 ∷ []) (3 ∷ 2 ∷ 1 ∷ 0 ∷ [])
ones-IsSuffixArray = record {
  lists = record {
    size = refl;
    inside = λ q h. omega (arith, at q h);
    position = λ i. 3 - i;
    listed = λ i h. (omega (arith, h), at (3 - i) (omega (arith, h)) ∙ omega (arith, h));
    once = λ q r h g e. omega (arith, e, at q h, at r g, h, g);
  };
  ordered = ordered;
}
  where
    at : (q : ℕ) → q < 4 → get_or (3 ∷ 2 ∷ 1 ∷ 0 ∷ []) q 0 ≡ 3 - q
    at zero h = omega arith
    at (suc zero) h = omega arith
    at (suc (suc zero)) h = omega arith
    at (suc (suc (suc zero))) h = omega arith
    at (suc (suc (suc (suc q)))) h = absurd (omega (arith, h))

    ordered :
        (q r : ℕ)
        → q < r
        → r < 4
        → Lex
            (drop (get_or (3 ∷ 2 ∷ 1 ∷ 0 ∷ []) q 0) (1 ∷ 1 ∷ 1 ∷ 1 ∷ []))
            (drop (get_or (3 ∷ 2 ∷ 1 ∷ 0 ∷ []) r 0) (1 ∷ 1 ∷ 1 ∷ 1 ∷ []))
    ordered zero (suc zero) h g = rest refl shorter
    ordered zero (suc (suc zero)) h g = rest refl shorter
    ordered zero (suc (suc (suc zero))) h g = rest refl shorter
    ordered (suc zero) (suc (suc zero)) h g = rest refl (rest refl shorter)
    ordered (suc zero) (suc (suc (suc zero))) h g = rest refl (rest refl shorter)
    ordered (suc (suc zero)) (suc (suc (suc zero))) h g = rest refl (rest refl (rest refl shorter))
    ordered q zero h g = absurd (omega (arith, h))
    ordered (suc q) (suc zero) h g = absurd (omega (arith, h))
    ordered (suc (suc q)) (suc (suc zero)) h g = absurd (omega (arith, h))
    ordered (suc (suc (suc q))) (suc (suc (suc zero))) h g = absurd (omega (arith, h))
    ordered q (suc (suc (suc (suc r)))) h g = absurd (omega (arith, g))

optimal-parse_lem_example :
    (out : Parser × Block × ℕ × Option Error) × (parse ones_order insertion_sort ones false
      ≡ some out)
    × Parsed buffer_of Ready ones out
optimal-parse_lem_example =
    optimal-parse_lem ones ones-Ready ones_order insertion_sort ones-IsSuffixArray
      insertion_sort-IsSorting false

-- A graph of three matches: at 0 and at 4 of three bytes with offset 1, and at 2 of five bytes with offset 100.
abbrev three_matches : Graph
three_matches = record {
  edges =
      (record { m = 3; o = 1 } ∷ [])
      ∷ []
      ∷ (record { m = 5; o = 100 } ∷ [])
      ∷ []
      ∷ (record { m = 3; o = 1 } ∷ [])
      ∷ []
      ∷ []
      ∷ [];
  start = 0;
  n_edges = 3;
}

-- Two literals and the match of five bytes cost 31; the other two matches, and a literal between them, cost 25.
dear_path :
    shortest_path (record ones { min_match_len = 3 }) three_matches 7
    ≡ some (record { m = 1; o = 0 } ∷ record { m = 1; o = 0 } ∷ record { m = 5; o = 100 } ∷ [])
unfolding shortest_path OptSuffixParser.literals_only OptSuffixParser.relax
    OptSuffixParser.relax_edges OptSuffixParser.relax_lengths OptSuffixParser.trace xz_cost
    slice_from slice_to leading_zeros
dear_path = refl

cheap_path :
    (xz_cost 3 1 + xz_cost 1 0 + xz_cost 3 1 ≡ 25)
    × (xz_cost 1 0 + xz_cost 1 0 + xz_cost 5 100 ≡ 31)
unfolding xz_cost leading_zeros
cheap_path = (refl, refl)

abbrev cost_config : Config
cost_config = record {
  buffer = small_buffer;
  min_match_len = pos 2;
  max_match_len = pos 0;
  cost = Cost.unset;
}

optimal-setup_lem_example :
    ((s' : Parser) × (e : Error) × (init ones cost_config ≡ (s', some e)))
    ⊎ ((s' : Parser) × (init ones cost_config ≡ (s', none))
        × Holds [] 0 s'.buffer
        × ((max_int32 < s'.buffer.buffer_size) ⊎ ((max_int32 < s'.min_match_len) ⊎ Ready s')))
optimal-setup_lem_example = optimal-setup_lem ones cost_config ones-AreBytes
