-- ===== src/Matching.antt =====
-- The search for a match that the parsers with hash tables repeat (hp.go, bhp.go, dhp.go, bdhp.go): an entry
-- is read and replaced, its position is tested, and words are compared. A panic is `none`.
pub mod Extend
pub mod First
pub mod Candidate
pub mod Backward
use Prim.Native.Nat.{bit_and, bit_xor}
use lz.Prelude.{
  ℕ, zero, suc, ◌+◌, ◌-◌, ◌/◌, ◌%◌, ◌^◌, Bool, not, ◌&&◌, Option, none, some, ◌>>=◌, length,
  get_elem?, ltb, leb, ◌==◌, if◌then◌else◌,
}
use lz.Lz.{Bytes}
use lz.Slices.{slice_from, slice_to}
use lz.Bytes.{get_le64, get_le64_fast, trailing_zeros, lcs}
use lz.Hash.{Hash, Entry, hash_value, store, add_range}
use lz.Greedy.{Match}

-- `_getLE64(p[i:])`
unfoldable pub word_at : Bytes → ℕ → Option ℕ
word_at p i = slice_from i p >>= get_le64_fast

-- The part of `Parse` that makes a match of eight bytes longer: `r` and `q` are what follows, `k` the
-- count so far. A round takes eight bytes off `q`.
unfoldable pub extend : ℕ → Bytes → Bytes → ℕ → Option ℕ
extend zero r q k = none
extend (suc fuel) r q k =
    let round = (do
      x ← get_le64_fast r
      y ← get_le64_fast q
      let b = trailing_zeros 64 (bit_xor x y) / 8
      let more = slice_from 8 r >>= (λ r'. slice_from 8 q >>= (λ q'. extend fuel r' q' (k + b)))
      (if ltb b 8 then some (k + b) else more)) in
    let last = (do
      x ← get_le64 r
      y ← get_le64 q
      let b = trailing_zeros 64 (bit_xor x y) / 8
      some (k + (if ltb (length q) b then length q else b))) in
    if leb 8 (length q) then round else if ltb 0 (length q) then last else some k

-- The length of the match of `i` with `j`, where `y` is the word at `i`; a match shorter than
-- `min_len` is none. `full` is `p` with what lies behind it.
unfoldable pub match_len : Bytes → Bytes → ℕ → ℕ → ℕ → ℕ → Option (Option ℕ)
match_len full p min_len i j y = word_at full j >>= (λ x.
    let k = trailing_zeros 64 (bit_xor x y) / 8 in
    let k' = if ltb (length p - i) k then length p - i else k in
    let longer = slice_from (j + 8) p >>= (λ r.
      slice_from (i + 8) p
      >>= (λ q. extend (suc (length q)) r q k' >>= (λ k''. some (some k'')))) in
    if ltb k' min_len then some none else if k' == 8 then longer else some (some k'))

-- The entry of the word `y` at `i` is replaced: the table, the old entry, and the value of the word.
unfoldable pub look_up : Hash → (i y : ℕ) → Option (Hash × Entry × ℕ)
look_up h i y =
    let x = bit_and y h.mask in
    let slot = hash_value x h.shift in
    get_elem? h.table slot >>= (λ entry.
      store h.table slot (record { position = i % 2 ^ 32; value = x % 2 ^ 32 })
      >>= (λ t. some (record h { table = t }, entry, x % 2 ^ 32)))

-- A match length as a match of `i` with `j`
unfoldable pub match_with : (i j : ℕ) → Option ℕ → Option Match
match_with i j none = none
match_with i j (some k) = some (record { begin = i; len = k; offset = i - j })

-- The match of `i` with the position `j` of an entry, if `j` lies in the window and enough bytes agree.
unfoldable pub candidate : Bytes → Bytes → ℕ → ℕ → (i j y : ℕ) → Option (Option Match)
candidate full p window min_len i j y =
    let o = i - j in
    let found = match_len full p min_len i j y >>= (λ r. some (match_with i j r)) in
    if not (ltb 0 o && leb o window) then some none else found

-- The loops that add entries from `i` up to `b`
unfoldable pub add_up_to : Hash → Bytes → (i b : ℕ) → Option Hash
add_up_to h full i b = add_range h full i (b - i)

-- A match is made longer at the front, by the bytes in common before it, down to the literals that are
-- written and to the start of the data.
unfoldable pub extend_back : Bytes → (lit_index : ℕ) → Match → Option Match
extend_back p lit_index m =
    let i = m.begin in
    let j = m.begin - m.offset in
    let back = if ltb j (i - lit_index) then j else i - lit_index in
    let longer = slice_to j p >>= slice_from (j - back) >>= (λ u. slice_to i p >>= (λ v.
      lcs u v >>= (λ k. some (record { begin = i - k; len = m.len + k; offset = m.offset })))) in
    if ltb 0 (i - lit_index) then longer else some m

-- The same for what a search has found
unfoldable pub go_back : Bytes → (lit_index : ℕ) → Option Match → Option (Option Match)
go_back p lit_index none = some none
go_back p lit_index (some m) = extend_back p lit_index m >>= (λ m'. some (some m'))
