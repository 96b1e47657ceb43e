-- ===== src/Bitset/Support.antt =====
-- `support` makes room for a number. In a new array, or where nothing is put in front, it keeps every word;
-- words that are put in front in the same array wipe out as many that were there.
use lz.Prelude.{
  ℕ, zero, suc, ◌+◌, ◌-◌, ◌/◌, ◌≤◌, ◌<◌, ◌≡◌, ◌⊎◌, refl, sym, ◌∙◌, arith, inl, inr, true, false,
  ◌&&◌, List, [], ◌∷◌, ◌++◌, length, take, replicate, get_or, length-append, length-replicate, ltb,
  leb, ◌==◌, if◌then◌else◌, Bool-cases, get_or-append_lt, get_or-append_add, ap_at, take-take,
  take-append_le, take-all,
}
use lz.Bitset.{Bitset, support, enlarge, reuse, widen, new_off}
use lz.Bitset.Bits.{word}

pub get_or-zeros : (n q : ℕ) → get_or {A = ℕ} (replicate n 0) q 0 ≡ 0
get_or-zeros zero q = refl
get_or-zeros (suc n) zero = refl
get_or-zeros (suc n) (suc q) = get_or-zeros n q

pub get_or-beyond : (xs : List ℕ) (q : ℕ) → length xs ≤ q → get_or xs q 0 ≡ 0
get_or-beyond [] q h = refl
get_or-beyond (x ∷ xs) zero h = absurd (omega arith)
get_or-beyond (x ∷ xs) (suc q) h = get_or-beyond xs q (omega arith)

-- Words between zeros
pub padded :
    (d e q : ℕ) (xs : List ℕ)
    → get_or (replicate d 0 ++ (xs ++ replicate e 0)) q 0
      ≡ (if leb d q then get_or xs (q - d) 0 else 0)
padded d e q xs = elim (Bool-cases (leb d q)) [
  | inr h ↦
      let front : q < d = ground (arith, h) in
      rw h (
        get_or-append_lt (replicate d 0) (xs ++ replicate e 0) q 0
          (omega (arith, front, length-replicate {A = ℕ} d 0))
        ∙ get_or-zeros d q)
  | inl h ↦
      let behind : d ≤ q = ground (arith, h) in
      rw h (
        get_or-append_add (replicate d 0) (xs ++ replicate e 0) q (q - d) 0
          (omega (arith, behind, length-replicate {A = ℕ} d 0))
        ∙ elim (Bool-cases (ltb (q - d) (length xs))) [
          | inl l ↦ get_or-append_lt xs (replicate e 0) (q - d) 0 (ground (arith, l))
          | inr l ↦
              get_or-append_add xs (replicate e 0) (q - d) (q - d - length xs) 0 (ground (arith, l))
              ∙ get_or-zeros e (q - d - length xs)
              ∙ sym (get_or-beyond xs (q - d) (ground (arith, l)))
        ])
]

-- What a bit set may be asked for without a loss: the number is not before its words, or does not fit in
-- front of them.
pub data Fits (b : Bitset) (kmin : ℕ) : Type 0 where
  nothing_yet : length b.words ≡ 0 → Fits b kmin
  not_before : b.off ≤ kmin → Fits b kmin
  no_room : kmin < b.off → length b.spare < b.off - kmin → Fits b kmin

-- The number has a word.
pub record HasRoom (b : Bitset) (k : ℕ) : Type 0 where
  pub lower : b.off ≤ k
  pub upper : k < b.off + length b.words

module _ (b : Bitset) (off d n : ℕ) (at : off + d ≡ b.off) (long : d + length b.words ≤ n) where
  length-enlarge : length ((enlarge b off d n).words) ≡ n
  unfolding enlarge
  length-enlarge = omega (
    arith,
    long,
    length-append (replicate d 0) (b.words ++ replicate (n - (d + length b.words)) 0),
    length-append b.words (replicate (n - (d + length b.words)) 0),
    length-replicate {A = ℕ} d 0,
    length-replicate {A = ℕ} (n - (d + length b.words)) 0,
  )

  word-enlarge : (q : ℕ) → word (enlarge b off d n) q ≡ word b q
  unfolding word enlarge
  word-enlarge q = elim (Bool-cases (leb off q)) [
    | inr h ↦ let lower : leb b.off q ≡ false = ground (arith, h, at) in rw (h, lower) refl
    | inl h ↦ rw h (
        padded d (n - (d + length b.words)) (q - off) b.words
        ∙ elim (Bool-cases (leb d (q - off))) [
          | inl l ↦
              let lower : leb b.off q ≡ true = ground (arith, h, l, at) in
              rw (l, lower)
                (ap_at (λ k. get_or b.words k 0) (q - off - d) (q - b.off) (omega (arith, at)))
          | inr l ↦ let lower : leb b.off q ≡ false = ground (arith, h, l, at) in rw (l, lower) refl
        ])
  ]

-- Words with zeros behind them, at the place where they were, or where there were none
flat :
    (xs : List ℕ) (e off before q : ℕ)
    → (off ≡ before) ⊎ (length xs ≡ 0)
    → (if leb off q then get_or (xs ++ replicate e 0) (q - off) 0 else 0)
      ≡ (if leb before q then get_or xs (q - before) 0 else 0)
flat xs e off before q (inl same) = rw same (elim (Bool-cases (leb before q)) [
  | inr h ↦ rw h refl
  | inl h ↦
      let all : leb 0 (q - before) ≡ true = ground arith in
      rw h (
        padded 0 e (q - before) xs
        ∙ rw all (ap_at (λ t. get_or xs t 0) (q - before - 0) (q - before) (omega arith)))
])
flat xs e off before q (inr empty) = padded_empty ∙ sym plain_empty
  where
    padded_empty : (if leb off q then get_or (xs ++ replicate e 0) (q - off) 0 else 0) ≡ 0
    padded_empty = elim (Bool-cases (leb off q)) [
      | inr h ↦ rw h refl
      | inl h ↦
          let all : leb 0 (q - off) ≡ true = ground arith in
          rw h (
            padded 0 e (q - off) xs
            ∙ rw all (get_or-beyond xs (q - off - 0) (omega (arith, empty))))
    ]

    plain_empty : (if leb before q then get_or xs (q - before) 0 else 0) ≡ 0
    plain_empty = elim (Bool-cases (leb before q)) [
      | inr h ↦ rw h refl
      | inl h ↦ rw h (get_or-beyond xs (q - before) (omega (arith, empty)))
    ]

-- What `support` leaves: the words as they were, and one for the number.
unfoldable pub Supported : Bitset → ℕ → Bitset → Type 0
Supported b k c = ((q : ℕ) → word c q ≡ word b q) × HasRoom c k

module _ (b : Bitset) (off n k : ℕ) (at : (off ≡ b.off) ⊎ (length b.words ≡ 0))
    (long : length b.words ≤ n) (low : off ≤ k) (high : k < off + n) where
  kept : take (length b.words) (take n (b.words ++ b.spare)) ≡ b.words
  kept =
      take-take (length b.words) n (b.words ++ b.spare) long
      ∙ take-append_le (length b.words) b.words b.spare (omega arith)
      ∙ take-all (length b.words) b.words (omega arith)

  abbrev rest : ℕ
  rest = n - (0 + length b.words)

  size : length (b.words ++ replicate rest 0) ≡ n
  size =
      omega (arith, long, length-append b.words (replicate rest 0), length-replicate {A = ℕ} rest 0)

  reuse-Supported : Supported b k (reuse b off 0 n)
  unfolding Supported word reuse
  reuse-Supported = rw kept (
    (λ q. flat b.words rest off b.off q at),
    record { lower = low; upper = omega (arith, size, high) },
  )

  flat-Supported : Supported b k (enlarge b off 0 n)
  unfolding Supported word enlarge
  flat-Supported = (
    (λ q. flat b.words rest off b.off q at),
    record { lower = low; upper = omega (arith, size, high) },
  )

  pub widen-Supported : Supported b k (widen b off 0 n)
  unfolding Supported widen
  widen-Supported = elim (Bool-cases (ltb (length b.words + length b.spare) n)) [
    | inl e ↦ rw e flat-Supported
    | inr e ↦ rw e reuse-Supported
  ]

front-Supported :
    (b : Bitset) (k d n : ℕ)
    → k + d ≡ b.off
    → d + length b.words ≤ n
    → 0 < n
    → Supported b k (enlarge b k d n)
unfolding Supported enlarge
front-Supported b k d n at long pos = (
  word-enlarge b k d n at long,
  record { lower = omega arith; upper = omega (arith, length-enlarge b k d n at long, pos) },
)

front-widen :
    (b : Bitset) (k d n : ℕ)
    → length b.words + length b.spare < n
    → Supported b k (enlarge b k d n)
    → Supported b k (widen b k d n)
unfolding widen
front-widen b k d n scarce h =
    let new : ltb (length b.words + length b.spare) n ≡ true = ground (arith, scarce) in rw new h

-- Where a bit set may be asked for a number without a loss, `support` leaves every word as it was, and has
-- one for the number.
pub support_lem : (b : Bitset) (i : ℕ) → Fits b (i / 64) → Supported b (i / 64) (support b i i)
unfolding support new_off Supported
support_lem b i fits =
    let k = i / 64 in
    let len = length b.words in
    elim (Bool-cases (leb b.off k && ltb k (b.off + len))) [
      | inl e ↦ rw e ((λ q. refl), record { lower = ground (arith, e); upper = ground (arith, e) })
      | inr e ↦ elim (Bool-cases (len == 0)) [
        | inl z ↦
            rw (e, z)
              (widen-Supported b k (if ltb (k + 1 - k) (0 + len) then 0 + len else k + 1 - k) k
                (inr (ground (arith, z))) (ground (arith, z)) (omega arith) (ground (arith, z)))
        | inr z ↦ elim (Bool-cases (ltb k b.off)) [
          | inr h ↦
              let nothing : b.off - b.off ≡ 0 = omega arith in
              rw (e, z, h, nothing)
                (widen-Supported b b.off
                  (if ltb (k + 1 - b.off) (0 + len) then 0 + len else k + 1 - b.off) k (inl refl)
                  (ground arith) (ground (arith, h)) (ground (arith, h)))
          | inl h ↦
              let d = b.off - k in
              let n = if ltb (k + 1 - k) (d + len) then d + len else k + 1 - k in
              let scarce : length b.spare < d = few fits (ground (arith, h)) (ground (arith, z)) in
              rw (e, z, h)
                (front-widen b k d n (ground (arith, scarce))
                  (front-Supported b k d n (ground (arith, h)) (ground arith) (ground (arith, h))))
        ]
      ]
    ]
  where
    few : Fits b (i / 64) → i / 64 < b.off → 0 < length b.words → length b.spare < b.off - i / 64
    few (nothing_yet z) h some_words = absurd (omega (arith, z, some_words))
    few (not_before le) h some_words = absurd (omega (arith, le, h))
    few (no_room _ s) h some_words = s
