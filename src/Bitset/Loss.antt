-- ===== src/Bitset/Loss.antt =====
-- A number before the words of a bit set, where the array has room for it: `support` clears words that it
-- has not moved yet.
use lz.Prelude.{
  [], ◌∷◌, ℕ, ◌+◌, ◌-◌, ◌/◌, ◌%◌, ◌≤◌, ◌<◌, ◌≡◌, refl, ap, ◌∙◌, arith, inl, inr, false, true, ◌&&◌,
  some, List, ◌++◌, length, take, drop, replicate, get_or, length-take, length-append,
  length-replicate, length-drop, ltb, leb, ◌==◌, Bool-cases, get_or-append_lt, get_or-take,
}
use lz.Bitset.{Bitset, support, widen, reuse, new_off, insert, set_bit}
use lz.Bitset.Bits.{member, word, zero_bit}
use lz.Bitset.Support.{HasRoom, padded, get_or-zeros, get_or-beyond}
use lz.Bitset.Insert.{insert-set_bit, set_bit_lem}

module _ (b : Bitset) (k d : ℕ) (at : k + d ≡ b.off) (room : d ≤ length b.spare) where
  abbrev len : ℕ
  len = length b.words

  abbrev memory : List ℕ
  memory = take (d + len) (b.words ++ b.spare)

  abbrev cleared : List ℕ
  cleared = replicate d 0 ++ drop d memory

  length-cleared : length cleared ≡ d + len
  length-cleared = omega (
    arith,
    room,
    length-append (replicate d 0) (drop d memory),
    length-replicate {A = ℕ} d 0,
    length-drop d memory,
    length-take (d + len) (b.words ++ b.spare),
    length-append b.words b.spare,
  )

  gone : (q : ℕ) → q < d → get_or (take len cleared) q 0 ≡ 0
  gone q h = elim (Bool-cases (ltb q len)) [
    | inl e ↦
        get_or-take len q cleared 0 (ground (arith, e))
        ∙ get_or-append_lt (replicate d 0) (drop d memory) q 0
            (omega (arith, h, length-replicate {A = ℕ} d 0))
        ∙ get_or-zeros d q
    | inr e ↦ get_or-beyond (take len cleared) q (ground (arith, e, length-take len cleared))
  ]

  pub word-lost : (q : ℕ) → b.off ≤ q → q < b.off + d → word (reuse b k d (d + len)) q ≡ 0
  unfolding word reuse
  word-lost q low high =
      let after : leb k q ≡ true = ground (arith, low, at) in
      let behind : leb d (q - k) ≡ true = ground (arith, low, at) in
      rw after (
        padded d (d + len - (d + len)) (q - k) (take len cleared)
        ∙ rw behind (gone (q - k - d) (omega (arith, low, high, at))))

  pub reuse-HasRoom : 0 < d → 0 < len → HasRoom (reuse b k d (d + len)) k
  unfolding reuse
  reuse-HasRoom pos some_words = record {
    lower = omega arith;
    upper = omega (
      arith,
      pos,
      length-append (replicate d 0) (take len cleared ++ replicate (d + len - (d + len)) 0),
      length-replicate {A = ℕ} d 0,
    );
  }

-- There `support` goes through `reuse`.
pub support-reuse :
    (b : Bitset) (i : ℕ)
    → 0 < length b.words
    → i / 64 < b.off
    → b.off - i / 64 ≤ length b.spare
    → support b i i ≡ reuse b (i / 64) (b.off - i / 64) (b.off - i / 64 + length b.words)
unfolding support new_off widen
support-reuse b i some_words before room =
    let k = i / 64 in
    let d = b.off - k in
    let out : (leb b.off k && ltb k (b.off + length b.words)) ≡ false = ground (arith, before) in
    let words : (length b.words == 0) ≡ false = ground (arith, some_words) in
    let front : ltb k b.off ≡ true = ground (arith, before) in
    let more : ltb (k + 1 - k) (d + length b.words) ≡ true = ground (arith, before, some_words) in
    let enough : ltb (length b.words + length b.spare) (d + length b.words) ≡ false =
      ground (arith, room) in
    rw (out, words, front, more, enough) refl

-- If the set has words, the number is before them, and the spare words are enough for those that are
-- needed in front, `insert` of it alone ends without a panic, but the set does not have any number of its first words
-- any more: of as many words as were put in front.
pub insert_loses :
    (b : Bitset) (i j : ℕ)
    → 0 < length b.words
    → i / 64 < b.off
    → b.off - i / 64 ≤ length b.spare
    → b.off ≤ j / 64
    → j / 64 < b.off + (b.off - i / 64)
    → (c : Bitset) × (insert b (i ∷ []) ≡ some c) × (member c j ≡ false)
unfolding member
insert_loses b i j some_words before room low high =
    let k = i / 64 in
    let d = b.off - k in
    let at : k + d ≡ b.off = omega (arith, before) in
    let (c, run, has) =
      set_bit_lem (reuse b k d (d + length b.words)) i
        (reuse-HasRoom b k d at room (omega (arith, before)) some_words) in
    let other : (j == i) ≡ false = ground (arith, low, before) in
    (
      c,
      insert-set_bit b i (ap (λ s. set_bit s i) (support-reuse b i some_words before room) ∙ run),
      has j ∙ rw other (lost (word-lost b k d at room (j / 64) low high)),
    )
  where
    lost :
        word (reuse b (i / 64) (b.off - i / 64) (b.off - i / 64 + length b.words)) (j / 64) ≡ 0
        → member (reuse b (i / 64) (b.off - i / 64) (b.off - i / 64 + length b.words)) j ≡ false
    lost e = rw e (zero_bit (j % 64))
