-- ===== src/Bytes/Lcs.antt =====
-- `lcs` of bytes.go compares words from the back; it counts the bytes that two slices have in common there.
use Prim.Native.Nat.{bit_xor}
use mathlib.Core.List.{reverse}
use lz.Prelude.{
  ℕ, zero, suc, ◌+◌, ◌-◌, ◌*◌, ◌/◌, ◌%◌, ◌^◌, ◌≤◌, ◌<◌, ◌≡◌, refl, sym, ap, ◌∙◌, arith, inl, inr,
  some, [], ◌++◌, length, length-append, take, drop, replicate, length-take, length-drop,
  length-replicate, Bool-cases, ltb, leb, if◌then◌else◌, ap_at, take_add, take-append_add, take-all,
  take-append-drop,
}
use lz.Lz.{Bytes}
use lz.Slices.Laws.{slice_from_lem}
use lz.Bytes.{leading_zeros, lcs_head, lcs_loop, lcs_ordered, lcs}
use lz.Bytes.Lcp.{word_64, word_any}
use lz.Bytes.Suffix.{
  suffix, length-reverse, reverse-AreBytes, suffix_append, suffix_comm, suffix-within,
}
use lz.Bytes.Leading.{big_endian, little_endian-reverse, leading-prefix}
use lz.Bytes.Shift.{shift_bytes, zeros-AreBytes}
use lz.Bytes.Prefix.{AreBytes, little_endian, take-AreBytes, drop-AreBytes}

-- The count that a round takes from two words of eight bytes
word_count :
    (p q : Bytes)
    → AreBytes p
    → AreBytes q
    → length p ≡ 8
    → length q ≡ 8
    → leading_zeros 64 (bit_xor (little_endian p) (little_endian q)) / 8 ≡ suffix p q
unfolding suffix
word_count p q hp hq lp lq =
    rw (little_endian-reverse p, little_endian-reverse q)
      (ap_at (λ n. leading_zeros n (bit_xor (big_endian (reverse p)) (big_endian (reverse q))) / 8)
          64 (8 * length (reverse q)) (omega (arith, length-reverse q, lq))
        ∙ leading-prefix (reverse p) (reverse q) (reverse-AreBytes p hp) (reverse-AreBytes q hq)
            (omega (arith, length-reverse p, length-reverse q, lp, lq)))

-- A word that is shifted up holds the first `left` bytes, behind zeros.
module _ (left : ℕ) (small : left < 8) where
  abbrev shifted : Bytes → Bytes
  shifted p = replicate (8 - left) 0 ++ take left p

  shifted-word :
      (p : Bytes)
      → AreBytes p
      → little_endian (take 8 p) * 2 ^ ((8 - left) * 8) % 2 ^ 64 ≡ little_endian (shifted p)
  shifted-word p h =
      shift_bytes (8 - left) ((8 - left) * 8) p refl h
      ∙ ap little_endian (
          take-append_add 8 left (replicate (8 - left) 0) p
            (omega (arith, length-replicate {A = ℕ} (8 - left) 0, small)))

  shifted-AreBytes : (p : Bytes) → AreBytes p → AreBytes (shifted p)
  shifted-AreBytes p h = zeros-AreBytes (8 - left) (take left p) (take-AreBytes left p h)

  length-shifted : (p : Bytes) → left ≤ length p → length (shifted p) ≡ 8
  length-shifted p le = omega (
    arith,
    length-append (replicate (8 - left) 0) (take left p),
    length-replicate {A = ℕ} (8 - left) 0,
    length-take left p,
    le,
    small,
  )

head_count :
    (p q : Bytes) (left : ℕ)
    → AreBytes p
    → AreBytes q
    → left < 8
    → left ≤ length p
    → left ≤ length q
    → (let k =
          leading_zeros 64 (
            bit_xor
              (little_endian (take 8 p) * 2 ^ ((8 - left) * 8) % 2 ^ 64)
              (little_endian (take 8 q) * 2 ^ ((8 - left) * 8) % 2 ^ 64))
          / 8 in
        if ltb left k then left else k)
      ≡ suffix (take left p) (take left q)
head_count p q left hp hq small lp lq =
    let count =
      word_count (shifted left small p) (shifted left small q) (shifted-AreBytes left small p hp)
        (shifted-AreBytes left small q hq) (length-shifted left small p lp)
        (length-shifted left small q lq) in
    let zeros : Bytes = replicate (8 - left) 0 in
    let split =
      suffix_append zeros zeros (take left p) (take left q)
        (omega (arith, length-take left p, length-take left q, lp, lq)) in
    rw (shifted-word left small p hp, shifted-word left small q hq, count)
      (ground (arith, split, suffix-within (take left p) (take left q), length-take left q, lq))

module _ (p q : Bytes) (hp : AreBytes p) (hq : AreBytes q) (l : length p ≡ length q) where
  head_lem :
      (left n : ℕ)
      → left < 8
      → left ≤ length q
      → lcs_head p q left n ≡ some (n + suffix (take left p) (take left q))
  unfolding lcs_head
  head_lem left n small le = elim (Bool-cases (ltb 0 left)) [
    | inr e ↦ rw e (ap some (omega (arith, nothing (ground (arith, e)))))
    | inl e ↦
        rw (e, word_any p hp, word_any q hq)
          (ap some (
            omega (
              arith,
              head_count q p left hq hp small le (omega (arith, le, l)),
              suffix_comm (take left p) (take left q),
            )))
  ]
    where
      nothing : left ≡ 0 → suffix (take left p) (take left q) ≡ 0
      nothing z = omega (arith, z, suffix-within (take left p) (take left q), length-take left q)

  pub lcs_loop_lem :
      (fuel left n : ℕ)
      → left ≤ length q
      → left < fuel
      → lcs_loop fuel p q left n ≡ some (n + suffix (take left p) (take left q))
  unfolding lcs_loop
  lcs_loop_lem zero left n le lt = absurd (omega arith)
  lcs_loop_lem (suc fuel) left n le lt = elim (Bool-cases (leb 8 left)) [
    | inr e ↦ rw e (head_lem left n (ground (arith, e)) le)
    | inl e ↦
        let enough : 8 ≤ left = ground (arith, e) in
        let i = left - 8 in
        let x = take 8 (drop i p) in
        let y = take 8 (drop i q) in
        let split =
          ap (λ t. suffix t (take left q)) (sym (take_add i 8 left p (omega (arith, enough))))
          ∙ ap (suffix (take i p ++ x)) (sym (take_add i 8 left q (omega (arith, enough))))
          ∙ suffix_append (take i p) (take i q) x y (
              omega (
                arith,
                length-take 8 (drop i p),
                length-take 8 (drop i q),
                length-drop i p,
                length-drop i q,
                l,
              )) in
        let size : length y ≡ 8 =
          omega (arith, length-take 8 (drop i q), length-drop i q, le, enough) in
        let count =
          word_count x y (take-AreBytes 8 (drop i p) (drop-AreBytes i p hp))
            (take-AreBytes 8 (drop i q) (drop-AreBytes i q hq))
            (omega (arith, length-take 8 (drop i p), length-drop i p, le, enough, l)) size in
        rw
          (
            e,
            slice_from_lem i p (omega (arith, le, l)),
            word_64 (drop i p) (drop-AreBytes i p hp)
                (omega (arith, length-drop i p, le, l, enough)),
            slice_from_lem i q (omega (arith, le)),
            word_64 (drop i q) (drop-AreBytes i q hq) (omega (arith, length-drop i q, le, enough)),
            count,
          )
          (elim (Bool-cases (ltb (suffix x y) 8)) [
            | inl few ↦ rw few (ap some (ground (arith, few, split, size)))
            | inr all ↦
                let full : suffix x y ≡ 8 = ground (arith, all, suffix-within x y, size) in
                rw all (
                  lcs_loop_lem fuel i (n + suffix x y) (omega (arith, le))
                    (omega (arith, lt, enough))
                  ∙ ap some (ground (arith, full, split, size)))
          ])
  ]

ordered_lem :
    (p q : Bytes)
    → AreBytes p
    → AreBytes q
    → length q ≤ length p
    → lcs_ordered p q ≡ some (suffix p q)
unfolding lcs_ordered
ordered_lem p q hp hq le =
    let more = length p - length q in
    let p' = drop more p in
    let size : length p' ≡ length q = omega (arith, length-drop more p, le) in
    let tail : suffix p q ≡ suffix p' q =
      ap (λ t. suffix t q) (sym (take-append-drop more p))
      ∙ suffix_append (take more p) [] p' q size
      ∙ ground (arith, nothing (take more p), suffix-within p' q) in
    rw (slice_from_lem more p (omega (arith, le))) (
      lcs_loop_lem p' q (drop-AreBytes more p hp) hq size (suc (length q)) (length q) 0
        (omega arith) (omega arith)
      ∙ ap some (
          omega (
            arith,
            tail,
            ap (λ t. suffix t q) (take-all (length q) p' (omega (arith, size))),
            ap (suffix (take (length q) p')) (take-all (length q) q (omega arith)),
          )))
  where
    nothing : (u : Bytes) → suffix u [] ≡ 0
    nothing u = omega (arith, suffix-within u [])

-- For slices of bytes `lcs` ends without a panic, and gives the number of bytes that the two have in
-- common at the back.
pub lcs_lem : (p q : Bytes) → AreBytes p → AreBytes q → lcs p q ≡ some (suffix p q)
unfolding lcs
lcs_lem p q hp hq = elim (Bool-cases (ltb (length p) (length q))) [
  | inl e ↦ rw e (ordered_lem q p hq hp (ground (arith, e)) ∙ ap some (suffix_comm q p))
  | inr e ↦ rw e (ordered_lem p q hp hq (ground (arith, e)))
]
