-- ===== src/Bytes.antt =====
-- bytes.go: words of eight and four bytes, and the common prefix of two slices. `none` is a panic, an
-- index out of range. `TrailingZeros64` and `TrailingZeros32` of math/bits count over the width.
pub mod Words
pub mod Prefix
pub mod Lcp
pub mod Leading
pub mod Shift
pub mod Suffix
pub mod Lcs
use Prim.Native.Nat.{bit_or, bit_xor}
use lz.Prelude.{
  ℕ, zero, suc, ◌+◌, ◌-◌, ◌*◌, ◌/◌, ◌%◌, ◌^◌, Option, none, some, ◌>>=◌, List, [], ◌∷◌, length,
  drop, leb, ltb, ◌==◌, if◌then◌else◌,
}
use lz.Lz.{Bytes}
use lz.Slices.{slice_from}

-- `uint64(b) << (8 * k)` of a byte, which fits a word for `k` below 8
abbrev pub byte_shl : ℕ → ℕ → ℕ
byte_shl b k = b * 2 ^ (8 * k)

-- `_getLE64`
unfoldable pub get_le64_fast : Bytes → Option ℕ
get_le64_fast (a ∷ b ∷ c ∷ d ∷ e ∷ f ∷ g ∷ h ∷ _) = some (
    bit_or
      (bit_or
        (bit_or
          (bit_or (bit_or (bit_or (bit_or a (byte_shl b 1)) (byte_shl c 2)) (byte_shl d 3))
            (byte_shl e 4))
          (byte_shl f 5))
        (byte_shl g 6))
      (byte_shl h 7))
get_le64_fast _ = none

-- `_getLE32`
unfoldable pub get_le32_fast : Bytes → Option ℕ
get_le32_fast (a ∷ b ∷ c ∷ d ∷ _) =
    some (bit_or (bit_or (bit_or a (byte_shl b 1)) (byte_shl c 2)) (byte_shl d 3))
get_le32_fast _ = none

-- `getLE64`; the cases above eight bytes are those of the default
unfoldable pub get_le64 : Bytes → Option ℕ
get_le64 [] = some 0
get_le64 (a ∷ []) = some a
get_le64 (a ∷ b ∷ []) = some (bit_or a (byte_shl b 1))
get_le64 (a ∷ b ∷ c ∷ []) = some (bit_or (bit_or a (byte_shl b 1)) (byte_shl c 2))
get_le64 (a ∷ b ∷ c ∷ d ∷ []) = get_le32_fast (a ∷ b ∷ c ∷ d ∷ [])
get_le64 (a ∷ b ∷ c ∷ d ∷ e ∷ []) =
    get_le32_fast (a ∷ b ∷ c ∷ d ∷ e ∷ []) >>= (λ x. some (bit_or x (byte_shl e 4)))
get_le64 (a ∷ b ∷ c ∷ d ∷ e ∷ f ∷ []) =
    get_le32_fast (a ∷ b ∷ c ∷ d ∷ e ∷ f ∷ [])
    >>= (λ x. some (bit_or (bit_or x (byte_shl e 4)) (byte_shl f 5)))
get_le64 (a ∷ b ∷ c ∷ d ∷ e ∷ f ∷ g ∷ []) =
    get_le32_fast (a ∷ b ∷ c ∷ d ∷ e ∷ f ∷ g ∷ [])
    >>= (λ x. some (bit_or (bit_or (bit_or x (byte_shl e 4)) (byte_shl f 5)) (byte_shl g 6)))
get_le64 (a ∷ b ∷ c ∷ d ∷ e ∷ f ∷ g ∷ h ∷ p) = get_le64_fast (a ∷ b ∷ c ∷ d ∷ e ∷ f ∷ g ∷ h ∷ p)

-- `bits.TrailingZeros64` and `32`, for the width: the width, if no bit is set
unfoldable pub trailing_zeros : ℕ → ℕ → ℕ
trailing_zeros zero x = 0
trailing_zeros (suc n) x = let rest = trailing_zeros n (x / 2) in if x % 2 == 1 then 0 else suc rest

-- the last loop of `lcp`, over the bytes of `q`
unfoldable pub lcp_tail : Bytes → Bytes → ℕ → Option ℕ
lcp_tail p [] n = some n
lcp_tail [] (b ∷ q) n = none
lcp_tail (a ∷ p) (b ∷ q) n = let rest = lcp_tail p q (n + 1) in if a == b then rest else some n

-- its middle part, four bytes at once
unfoldable pub lcp_half : Bytes → Bytes → ℕ → Option ℕ
lcp_half p q n =
    if leb 4 (length q)
    then (do
      x ← get_le32_fast p
      y ← get_le32_fast q
      let k = trailing_zeros 32 (bit_xor x y) / 8
      let more = slice_from 4 q >>= (λ q'. slice_from 4 p >>= (λ p'. lcp_tail p' q' (n + k)))
      (if ltb k 4 then some (n + k) else more))
    else lcp_tail p q n

-- its first loop, eight bytes at once; a round takes eight bytes off `q`
unfoldable pub lcp_loop : ℕ → Bytes → Bytes → ℕ → Option ℕ
lcp_loop zero p q n = none
lcp_loop (suc fuel) p q n =
    let round = (do
      x ← get_le64_fast p
      y ← get_le64_fast q
      let k = trailing_zeros 64 (bit_xor x y) / 8
      let more = slice_from 8 q >>= (λ q'. slice_from 8 p >>= (λ p'. lcp_loop fuel p' q' (n + k)))
      (if ltb k 8 then some (n + k) else more)) in
    if leb 8 (length q) then round else lcp_half p q n

unfoldable pub lcp : Bytes → Bytes → Option ℕ
lcp p q =
    if ltb (length p) (length q)
    then lcp_loop (suc (length p)) q p 0
    else lcp_loop (suc (length q)) p q 0

-- `bits.LeadingZeros64`, for the width
unfoldable pub leading_zeros : ℕ → ℕ → ℕ
leading_zeros zero x = 0
leading_zeros (suc n) x = let rest = leading_zeros n x in if leb (2 ^ n) x then 0 else suc rest

-- the last part of `lcs`, for the `left` bytes at the front of `q`, below eight
unfoldable pub lcs_head : Bytes → Bytes → (left n : ℕ) → Option ℕ
lcs_head p q left n =
    let s = (8 - left) * 8 in
    let word = (do
      y ← get_le64 q
      x ← get_le64 p
      let k = leading_zeros 64 (bit_xor (y * 2 ^ s % 2 ^ 64) (x * 2 ^ s % 2 ^ 64)) / 8
      some (n + (if ltb left k then left else k))) in
    if ltb 0 left then word else some n

-- its loop; `left` is `i + 8`, the bytes of `q` that are not yet compared
unfoldable pub lcs_loop : ℕ → Bytes → Bytes → (left n : ℕ) → Option ℕ
lcs_loop zero p q left n = none
lcs_loop (suc fuel) p q left n =
    let i = left - 8 in
    let round = (do
      p' ← slice_from i p
      x ← get_le64_fast p'
      q' ← slice_from i q
      y ← get_le64_fast q'
      let k = leading_zeros 64 (bit_xor x y) / 8
      let more = lcs_loop fuel p q i (n + k)
      (if ltb k 8 then some (n + k) else more)) in
    if leb 8 left then round else lcs_head p q left n

-- `lcs` with `q` not longer than `p`
unfoldable pub lcs_ordered : Bytes → Bytes → Option ℕ
lcs_ordered p q =
    slice_from (length p - length q) p >>= (λ p'. lcs_loop (suc (length q)) p' q (length q) 0)

unfoldable pub lcs : Bytes → Bytes → Option ℕ
lcs p q = if ltb (length p) (length q) then lcs_ordered q p else lcs_ordered p q
