-- ===== src/Bitset.antt =====
-- bitset.go: a set of numbers as words of 64 bits, with the words of the array behind the slice. The index of a
-- word out of range is a panic, `none`.
pub mod Bits
pub mod Support
pub mod Insert
pub mod Loss
pub mod Kept
pub mod Masks
pub mod Nearest
use Prim.Native.Nat.{bit_and, bit_or}
use lz.Prelude.{
  ℕ, ◌+◌, ◌-◌, ◌*◌, ◌/◌, ◌%◌, ◌^◌, Bool, ◌&&◌, Option, none, some, ◌>>=◌, List, [], ◌∷◌, ◌++◌,
  length, take, drop, replicate, get_elem?, get_or, zero, suc, ltb, leb, ◌==◌, if◌then◌else◌,
}
use lz.Bytes.{leading_zeros, trailing_zeros}
use lz.Hash.{store}

-- `bitset`: the words of `a`, those behind it up to its capacity, and the number of zero words before it
pub record Bitset : Type 0 where
  pub words : List ℕ
  pub spare : List ℕ
  pub off : ℕ

-- The part of `support` that stays in the array: the slice `y.a` has the first `n` words of it. Its
-- first `d` words are cleared, then the words of `b.a` are moved behind them, then the rest is cleared.
-- The two slices share the array, so that what is moved has been cleared.
unfoldable pub reuse : Bitset → (off d n : ℕ) → Bitset
reuse b off d n =
    let len = length b.words in
    let cleared = replicate d 0 ++ drop d (take n (b.words ++ b.spare)) in
    record {
      words = replicate d 0 ++ (take len cleared ++ replicate (n - (d + len)) 0);
      spare = drop n (b.words ++ b.spare);
      off = off;
    }

-- The part that makes a new array of `n` words
unfoldable pub enlarge : Bitset → (off d n : ℕ) → Bitset
enlarge b off d n = record {
  words = replicate d 0 ++ (b.words ++ replicate (n - (d + length b.words)) 0);
  spare = [];
  off = off;
}

-- `n` words, with `d` new ones in front: a new array is made only if there are too few.
unfoldable pub widen : Bitset → (off d n : ℕ) → Bitset
widen b off d n =
    if ltb (length b.words + length b.spare) n then enlarge b off d n else reuse b off d n

-- `y.off`, for the first word that is needed
unfoldable pub new_off : Bitset → (kmin : ℕ) → ℕ
new_off b kmin = if length b.words == 0 then kmin else if ltb kmin b.off then kmin else b.off

-- the words for the numbers from `min` to `max`
unfoldable pub support : Bitset → (min max : ℕ) → Bitset
support b min max =
    let kmin = min / 64 in
    let kmax = max / 64 in
    let len = length b.words in
    let off = new_off b kmin in
    let d = if len == 0 then 0 else b.off - off in
    let m = kmax + 1 - off in
    let n = if ltb m (d + len) then d + len else m in
    if leb b.off kmin && ltb kmax (b.off + len) then b else widen b off d n

-- `b.a[j>>6 - b.off] |= 1 << uint(j&63)`
unfoldable pub set_bit : Bitset → ℕ → Option Bitset
set_bit b j =
    let k = j / 64 - b.off in
    let run = get_elem? b.words k >>= (λ x.
      store b.words k (bit_or x (2 ^ (j % 64))) >>= (λ words. some (record b { words = words }))) in
    if ltb (j / 64) b.off then none else run

-- `min` and `max` behind the loop over `i[1:]`
unfoldable pub least : ℕ → List ℕ → ℕ
least m [] = m
least m (j ∷ js) = least (if ltb j m then j else m) js

unfoldable pub greatest : ℕ → List ℕ → ℕ
greatest m [] = m
greatest m (j ∷ js) = greatest (if ltb m j then j else m) js

-- the loop that sets the bits
unfoldable pub set_bits : Bitset → List ℕ → Option Bitset
set_bits b [] = some b
set_bits b (j ∷ js) = set_bit b j >>= (λ c. set_bits c js)

-- `insert` of numbers that are not negative
unfoldable pub insert : Bitset → List ℕ → Option Bitset
insert b [] = some b
insert b (i ∷ is) = set_bits (support b (least i is) (greatest i is)) (i ∷ is)

unfoldable pub clear : Bitset → Bitset
clear b = record { words = []; spare = b.words ++ b.spare; off = 0 }

-- `63 - bits.LeadingZeros64(x)`: the last bit of a word, or `none` for -1
unfoldable pub last_bit : ℕ → Option ℕ
last_bit x = let z = leading_zeros 64 x in if ltb z 64 then some (63 - z) else none

-- `bits.TrailingZeros64(x)`: the first bit of a word, or `none` for 64
unfoldable pub first_bit : ℕ → Option ℕ
first_bit x = let z = trailing_zeros 64 x in if ltb z 64 then some z else none

-- the loop of `memberBefore`, at the word `k` with `j`; the words before it have indexes in range
unfoldable pub search_back : Bitset → (k : ℕ) → Option ℕ → Option ℕ
search_back b k (some j) = some ((b.off + k) * 64 + j)
search_back b zero none = none
search_back b (suc k) none = search_back b k (last_bit (get_or b.words k 0))

-- `memberBefore`, of a number that is not negative; `none` where it returns false
unfoldable pub member_before : Bitset → ℕ → Option ℕ
member_before b i =
    let k = i / 64 - b.off in
    let m = 2 ^ (i % 64) - 1 in
    let within = search_back b k (last_bit (bit_and (get_or b.words k 0) m)) in
    if ltb (i / 64) b.off
    then none
    else if ltb k (length b.words)
    then within
    else search_back b (length b.words) none

-- the loop of `memberAfter`, with `j` of the word before those from `k` on
unfoldable pub search_on : (off k : ℕ) → List ℕ → Option ℕ → Option ℕ
search_on off k xs (some j) = some ((off + k - 1) * 64 + j)
search_on off k [] none = none
search_on off k (x ∷ xs) none = search_on off (k + 1) xs (first_bit x)

-- `memberAfter`, of a number that is not negative; `none` where it returns false. `^(2^m - 1)` has the
-- bits from `m` on.
unfoldable pub member_after : Bitset → ℕ → Option ℕ
member_after b i =
    let k = (i + 1) / 64 - b.off in
    let m = 2 ^ 64 - 2 ^ ((i + 1) % 64) in
    let within =
      search_on b.off (k + 1) (drop (k + 1) b.words) (first_bit (bit_and (get_or b.words k 0) m)) in
    if ltb ((i + 1) / 64) b.off
    then search_on b.off 0 b.words none
    else if leb (length b.words) k
    then none
    else within

-- the inner loop of `slice`: the bits of a word that are left, from the lowest on
unfoldable pub word_members : ℕ → (base x : ℕ) → List ℕ
word_members zero base x = []
word_members (suc fuel) base x =
    let i = trailing_zeros 64 x in
    let rest = word_members fuel base (bit_and x (2 ^ 64 - 1 - 2 ^ i)) in
    if x == 0 then [] else (base + i) ∷ rest

-- the outer loop, where `k` words are done; a word has 64 bits to clear
unfoldable pub words_members : (off k : ℕ) → List ℕ → List ℕ
words_members off k [] = []
words_members off k (x ∷ xs) = word_members 65 ((off + k) * 64) x ++ words_members off (k + 1) xs

unfoldable pub slice : Bitset → List ℕ
slice b = words_members b.off 0 b.words
