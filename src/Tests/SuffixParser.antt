-- ===== src/Tests/SuffixParser.antt =====
-- A suffix array parser at the third of eight bytes, with their suffix array.
use lz.Prelude.{
  ℕ, zero, suc, ◌+◌, ◌-◌, ◌^◌, List, leb, Bool-cases, inr, ◌<◌, ◌≡◌, ◌⊎◌, refl, arith, inl, false,
  Option, some, none, [], ◌∷◌, length, get_or,
}
use lz.Prelude.Int.{pos}
use lz.Lz.{Block, Error}
use lz.ParserBuffer.Text.{Holds}
use lz.Bitset
use lz.Bitset.{Bitset, member_before, member_after}
use lz.Bitset.Bits.{word}
use lz.Bitset.Kept.{Words}
use lz.Bitset.Nearest.{Before, After, nearest_lem}
use lz.Greedy
use lz.Slices
use lz.Hash
use lz.Bytes
use lz.SuffixParser
use lz.Greedy.{block_size}
use lz.Greedy.RoundTrip.{Parsed}
use lz.Suffix
use lz.Suffix.{Sort, IsSort, max_int32}
use lz.SuffixParser.{Config, Parser, init, parse, cleared}
use lz.SuffixParser.Index.{cleared-IsIndexed}
use lz.SuffixParser.RoundTrip.{Ready, buffer_of, suffix-parse_lem}
use lz.SuffixParser.Setup.{suffix-setup_lem}
use lz.Tests.HashParser.{sample, sample-IsReady, sample-AreBytes, small_buffer}

abbrev suffixes : Parser
suffixes = record {
  buffer = sample.buffer;
  arrays = record { sa = []; isa = []; bits = record { words = []; spare = []; off = 0 } };
  min_match_len = 2;
}

suffixes-Ready : Ready suffixes
unfolding cleared Bitset.clear block_size
suffixes-Ready = record {
  buffer = sample-IsReady;
  indexes = omega arith;
  least = omega arith;
  arrays = cleared-IsIndexed 8 suffixes.arrays;
}

-- The positions in their order
positions : (i n : ℕ) → List ℕ
positions i zero = []
positions i (suc n) = i ∷ positions (suc i) n

length-positions : (n i : ℕ) → length (positions i n) ≡ n
unfolding positions
length-positions zero i = refl
length-positions (suc n) i = omega (arith, length-positions n (suc i))

get_or-positions : (n i q : ℕ) → q < n → get_or (positions i n) q 0 ≡ i + q
unfolding positions
get_or-positions zero i q h = absurd (omega arith)
get_or-positions (suc n) i zero h = omega arith
get_or-positions (suc n) i (suc q) h = omega (arith, get_or-positions n (suc i) q (omega arith))

abbrev in_order : Sort
in_order t = positions 0 (length t)

in_order-IsSort : IsSort in_order
in_order-IsSort t = record {
  size = length-positions (length t) 0;
  inside = λ q h. omega (arith, get_or-positions (length t) 0 q h, h);
  position = λ i. i;
  listed = λ i h. (h, omega (arith, get_or-positions (length t) 0 i h));
  once = λ q r h g e.
      omega (arith, get_or-positions (length t) 0 q h, get_or-positions (length t) 0 r g, e);
}

suffix-parse_lem_example :
    (out : Parser × Block × ℕ × Option Error) × (parse in_order suffixes false ≡ some out)
    × Parsed buffer_of Ready suffixes out
suffix-parse_lem_example = suffix-parse_lem suffixes suffixes-Ready in_order in_order-IsSort false

abbrev small_config : Config
small_config = record { buffer = small_buffer; min_match_len = pos 2 }

suffix-setup_lem_example :
    ((s' : Parser) × (e : Error) × (init suffixes small_config ≡ (s', some e)))
    ⊎ ((s' : Parser) × (init suffixes small_config ≡ (s', none))
        × Holds [] 0 s'.buffer
        × ((max_int32 < s'.buffer.buffer_size) ⊎ Ready s'))
suffix-setup_lem_example = suffix-setup_lem suffixes small_config sample-AreBytes

abbrev marks : Bitset
marks = record { words = 5 ∷ 0 ∷ 9 ∷ []; spare = []; off = 1 }

small_words : (k : ℕ) → get_or (5 ∷ 0 ∷ 9 ∷ []) k 0 < 2 ^ 64
small_words zero = omega arith
small_words (suc zero) = omega arith
small_words (suc (suc zero)) = omega arith
small_words (suc (suc (suc k))) = omega arith

marks-Words : Words marks
unfolding word
marks-Words q = elim (Bool-cases (leb 1 q)) [
  | inl e ↦ rw e (small_words (q - 1))
  | inr e ↦ rw e (omega arith)
]

nearest_lem_example :
    Before marks 130 (member_before marks 130) × After marks 130 (member_after marks 130)
nearest_lem_example = nearest_lem marks marks-Words 130

abbrev block_of : Option (Parser × Block × ℕ × Option Error) → Option Block
block_of none = none
block_of (some (s, blk, n, e)) = some blk

-- The suffix array of the data
abbrev suffix_order : Sort
suffix_order t = 6 ∷ 3 ∷ 0 ∷ 7 ∷ 4 ∷ 1 ∷ 5 ∷ 2 ∷ []

-- The third byte finds nothing, and the fourth is not looked up: the match begins at the fifth.
sorted_parse :
    block_of (parse suffix_order suffixes false)
    ≡ some (record {
      sequences = record { lit_len = 2; match_len = 4; offset = 3; aux = 0 } ∷ [];
      literals = 3 ∷ 1 ∷ [];
    })
unfolding parse Greedy.parse block_size SuffixParser.prepare SuffixParser.sort Suffix.invert
    Hash.store SuffixParser.resize SuffixParser.mark Bitset.insert Bitset.set_bits Bitset.set_bit
    Bitset.support Bitset.clear Bitset.least Bitset.greatest Bitset.widen Bitset.new_off
    Bitset.enlarge Bitset.reuse Bitset.first_bit Bitset.last_bit member_after member_before
    Bitset.search_back Bitset.search_on Bytes.get_le32_fast Bytes.get_le64_fast Bytes.lcp
    Bytes.lcp_half Bytes.lcp_loop Bytes.lcp_tail Bytes.leading_zeros Bytes.trailing_zeros
    SuffixParser.search SuffixParser.scan SuffixParser.searcher SuffixParser.find SuffixParser.fill
    SuffixParser.lower SuffixParser.upper SuffixParser.accept SuffixParser.lcp_at Greedy.emit
    Greedy.trailing Slices.slice_to Slices.slice_from
sorted_parse = refl
