-- ===== src/SuffixParser/Index.antt =====
-- The arrays of the parser: `isa` is the inverse of `sa`, and only positions before a bound are marked.
use lz.Prelude.{
  ◌/◌, ◌%◌, ℕ, zero, suc, ◌+◌, ◌-◌, ◌≤◌, ◌<◌, ◌≡◌, refl, sym, arith, inl, inr, true, false, some,
  List, length, get_or, take, replicate, length-append, length-take, length-replicate, ltb,
  get_elem?-eq-get_or,
}
use lz.Bitset
use lz.Bitset.{Bitset}
use lz.Bitset.Bits.{member, word, zero_bit}
use lz.Bitset.Kept.{Words, insert_kept}
use lz.Suffix.{Sort, IsSort, max_int32}
use lz.Suffix.Inverse.{inverse_lem}
use lz.SuffixParser.{Arrays, Parser, cleared, resize, mark, sort}

-- Each position of the sorted data has its place in `sa`, and each mark stands at a place of a position before
-- `bound`.
pub record IsIndexed (bound : ℕ) (t : Arrays) : Type 0 where
  pub same : length t.isa ≡ length t.sa
  pub inverse :
      (i : ℕ)
      → i < length t.sa
      → (get_or t.isa i 0 < length t.sa) × (get_or t.sa (get_or t.isa i 0) 0 ≡ i)
  pub words : Words t.bits
  pub marks :
      (j : ℕ)
      → member t.bits j ≡ true
      → (i : ℕ) × (i < bound) × (i < length t.sa) × (get_or t.isa i 0 ≡ j)

pub wider-IsIndexed :
    {bound bound' : ℕ} {t : Arrays} → bound ≤ bound' → IsIndexed bound t → IsIndexed bound' t
wider-IsIndexed le x = record {
  same = x.same;
  inverse = x.inverse;
  words = x.words;
  marks = λ j h. let (i, lt, inside, at) = x.marks j h in (i, omega (arith, lt, le), inside, at);
}

clear-word : (b : Bitset) (q : ℕ) → word (Bitset.clear b) q ≡ 0
unfolding word Bitset.clear
clear-word b q = ground arith

clear-member : (b : Bitset) (j : ℕ) → member (Bitset.clear b) j ≡ false
unfolding member
clear-member b j = rw (clear-word b (j / 64)) (zero_bit (j % 64))

clear-Words : (b : Bitset) → Words (Bitset.clear b)
clear-Words b q = omega (arith, clear-word b q)

pub cleared-IsIndexed : (bound : ℕ) (t : Arrays) → IsIndexed bound (cleared t)
unfolding cleared
cleared-IsIndexed bound t = record {
  same = refl;
  inverse = λ i h. absurd (omega (arith, h));
  words = clear-Words t.bits;
  marks = λ j h. absurd (ground (arith, h, clear-member t.bits j));
}

pub mark_lem :
    (bound n i : ℕ) (t : Arrays)
    → IsIndexed bound t
    → i + n ≤ bound
    → i + n ≤ length t.sa
    → (bits : Bitset) × (mark t.isa t.bits i n ≡ some bits)
      × IsIndexed bound (record t { bits = bits })
unfolding mark
mark_lem bound zero i t x le room = (t.bits, refl, x)
mark_lem bound (suc n) i t x le room =
    let (c, run, words, has, others) = insert_kept t.bits (get_or t.isa i 0) x.words in
    let x' : IsIndexed bound (record t { bits = c }) = record {
      same = x.same;
      inverse = x.inverse;
      words = words;
      marks = λ j h. elim (others j h) [
        | inl e ↦ (i, omega (arith, le), omega (arith, room), sym e)
        | inr old ↦ x.marks j old
      ];
    } in
    let (bits, rest, ok) =
      mark_lem bound n (i + 1) (record t { bits = c }) x' (omega (arith, le))
        (omega (arith, room)) in
    (bits, rw (get_elem?-eq-get_or t.isa i 0 (omega (arith, room, x.same)), run) rest, ok)

length-resize : (n : ℕ) (xs : List ℕ) → length (resize n xs) ≡ n
unfolding resize
length-resize n xs = omega (
  arith,
  length-append (take n xs) (replicate (n - length xs) 0),
  length-take n xs,
  length-replicate {A = ℕ} (n - length xs) 0,
)

-- `sort` ends without a panic for data that 31 bits can index. The arrays then reach over all of the data,
-- and the positions before the head are marked.
pub sort_lem :
    (sorted : Sort) (s : Parser)
    → IsSort sorted
    → s.buffer.w ≤ length s.buffer.data_bytes
    → length s.buffer.data_bytes ≤ max_int32
    → (t : Arrays) × (sort sorted s ≡ some t)
      × IsIndexed s.buffer.w t
      × (length t.sa ≡ length s.buffer.data_bytes)
unfolding sort
sort_lem sorted s law head small =
    let text = s.buffer.data_bytes in
    let sa = sorted text in
    let size = (law text).size in
    let (isa, run, inverse) =
      inverse_lem (length text) sa (resize (length text) s.arrays.isa) (law text)
        (length-resize (length text) s.arrays.isa) in
    let t : Arrays = record { sa = sa; isa = isa; bits = Bitset.clear s.arrays.bits } in
    let x : IsIndexed s.buffer.w t = record {
      same = inverse.same;
      inverse = inverse.rank;
      words = clear-Words s.arrays.bits;
      marks = λ j h. absurd (ground (arith, h, clear-member s.arrays.bits j));
    } in
    let (bits, marked, ok) =
      mark_lem s.buffer.w s.buffer.w 0 t x (omega arith) (omega (arith, head, size)) in
    let fits : ltb max_int32 (length text) ≡ false = ground (arith, small) in
    (record t { bits = bits }, rw (fits, run, marked) refl, ok, size)
