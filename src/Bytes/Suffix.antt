-- ===== src/Bytes/Suffix.antt =====
-- The bytes that two slices have in common at the back.
use mathlib.Core.List.{reverse, reverse-cons, reverse-append}
use mathlib.Core.Path.{subst}
use lz.Prelude.{
  ℕ, suc, ◌+◌, ◌-◌, ◌≤◌, ◌<◌, ◌≡◌, refl, sym, ap, ◌∙◌, arith, inl, inr, [], ◌∷◌, ◌++◌, length,
  length-append, Bool-cases, ◌==◌, ltb, if◌then◌else◌, ap_at, get_or, get_or-append_lt,
  get_or-append_add,
}
use lz.Lz.{Bytes}
use lz.Bytes.Prefix.{AreBytes, none_left, byte, prefix, prefix-bound, prefix-bytes, prefix_comm}

-- the number of bytes that two slices have in common at the back
unfoldable pub suffix : Bytes → Bytes → ℕ
suffix p q = prefix (reverse p) (reverse q)

pub length-reverse : (p : Bytes) → length (reverse p) ≡ length p
length-reverse [] = refl
length-reverse (a ∷ p) =
    omega
      (arith, ap length (reverse-cons a p), length-append (reverse p) (a ∷ []), length-reverse p)

pub append-AreBytes : (p q : Bytes) → AreBytes p → AreBytes q → AreBytes (p ++ q)
append-AreBytes [] q hp hq = hq
append-AreBytes (a ∷ p) q (byte lt hp) hq = byte lt (append-AreBytes p q hp hq)

pub reverse-AreBytes : (p : Bytes) → AreBytes p → AreBytes (reverse p)
reverse-AreBytes [] h = none_left
reverse-AreBytes (a ∷ p) (byte lt h) =
    subst AreBytes (sym (reverse-cons a p))
      (append-AreBytes (reverse p) (a ∷ []) (reverse-AreBytes p h) (byte lt none_left))

prefix_append :
    (u v x y : Bytes)
    → length u ≡ length v
    → prefix (u ++ x) (v ++ y)
      ≡ (if ltb (prefix u v) (length v) then prefix u v else length v + prefix x y)
unfolding prefix
prefix_append [] [] x y l = omega arith
prefix_append [] (b ∷ v) x y l = absurd (omega arith)
prefix_append (a ∷ u) [] x y l = absurd (omega arith)
prefix_append (a ∷ u) (b ∷ v) x y l = elim (Bool-cases (a == b)) [
  | inr e ↦ rw e (ground arith)
  | inl e ↦ rw e (ground (arith, prefix_append u v x y (omega arith)))
]

-- The back of a slice is compared first.
pub suffix_append :
    (u v x y : Bytes)
    → length x ≡ length y
    → suffix (u ++ x) (v ++ y)
      ≡ (if ltb (suffix x y) (length y) then suffix x y else length y + suffix u v)
unfolding suffix
suffix_append u v x y l =
    rw (reverse-append u x, reverse-append v y)
      (prefix_append (reverse x) (reverse y) (reverse u) (reverse v)
          (omega (arith, length-reverse x, length-reverse y, l))
        ∙ ap_at
            (λ n.
              if ltb (prefix (reverse x) (reverse y)) n
              then prefix (reverse x) (reverse y)
              else n + prefix (reverse u) (reverse v))
            (length (reverse y)) (length y) (length-reverse y))

pub suffix_comm : (u v : Bytes) → suffix u v ≡ suffix v u
unfolding suffix
suffix_comm u v = prefix_comm (reverse u) (reverse v)

pub suffix-within : (u v : Bytes) → suffix u v ≤ length v
unfolding suffix
suffix-within u v = omega (arith, prefix-bound (reverse u) (reverse v), length-reverse v)

get_or-reverse :
    (u : Bytes) (t : ℕ) → t < length u → get_or (reverse u) t 0 ≡ get_or u (length u - 1 - t) 0
get_or-reverse [] t h = absurd (omega arith)
get_or-reverse (a ∷ u) t h =
    ap (λ r. get_or r t 0) (reverse-cons a u) ∙ elim (Bool-cases (ltb t (length u))) [
      | inl e ↦
          let inside : t < length u = ground (arith, e) in
          get_or-append_lt (reverse u) (a ∷ []) t 0 (omega (arith, length-reverse u, inside))
          ∙ get_or-reverse u t inside
          ∙ ap_at (λ n. get_or (a ∷ u) n 0) (suc (length u - 1 - t)) (suc (length u) - 1 - t)
              (omega (arith, inside))
      | inr e ↦
          let last : t ≡ length u = ground (arith, e, h) in
          get_or-append_add (reverse u) (a ∷ []) t 0 0 (omega (arith, last, length-reverse u))
          ∙ ap_at (λ n. get_or (a ∷ u) n 0) 0 (suc (length u) - 1 - t) (omega (arith, last))
    ]

-- The bytes that are in common, counted from the last
pub suffix-bytes :
    (u v : Bytes) (t : ℕ)
    → t < suffix u v
    → get_or u (length u - 1 - t) 0 ≡ get_or v (length v - 1 - t) 0
unfolding suffix
suffix-bytes u v t h =
    sym (get_or-reverse u t (omega (arith, h, suffix_comm u v, suffix-within v u)))
    ∙ prefix-bytes (reverse u) (reverse v) t h
    ∙ get_or-reverse v t (omega (arith, h, suffix-within u v))
