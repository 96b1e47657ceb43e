-- ===== src/Suffix/Order.antt =====
-- The order of suffixes, and what it says of their common prefixes.
use lz.Prelude.{
  ℕ, zero, suc, ◌+◌, ◌≤◌, ◌<◌, ◌≡◌, arith, inl, inr, true, false, List, [], ◌∷◌, length, drop,
  get_or, ◌==◌, Bool-cases,
}
use lz.Lz.{Bytes}
use lz.Bytes.Prefix.{prefix}
use lz.Suffix.{Lists}

-- The lexicographic order
pub data Lex : Bytes → Bytes → Type 0 where
  shorter : {b : ℕ} {q : Bytes} → Lex [] (b ∷ q)
  less : {a b : ℕ} {p q : Bytes} → a < b → Lex (a ∷ p) (b ∷ q)
  rest : {a b : ℕ} {p q : Bytes} → a ≡ b → Lex p q → Lex (a ∷ p) (b ∷ q)

pub asym-Lex : {p q : Bytes} → Lex p q → Lex q p → ⊥
asym-Lex shorter h = elim h [ ]
asym-Lex (less lt) (less gt) = omega (arith, lt, gt)
asym-Lex (less lt) (rest e h) = omega (arith, lt, e)
asym-Lex (rest e h) (less gt) = omega (arith, e, gt)
asym-Lex (rest e h) (rest e' h') = asym-Lex h h'

pub tail-Lex : {a b : ℕ} {p q : Bytes} → a ≡ b → Lex (a ∷ p) (b ∷ q) → Lex p q
tail-Lex e (less lt) = absurd (omega (arith, e, lt))
tail-Lex e (rest _ h) = h

-- Between two slices in the order, as much is in common.
pub between : {p q r : Bytes} → Lex p q → Lex q r → prefix p r ≤ prefix q r
unfolding prefix
between shorter h = omega arith
between (less {a} {b} lt) (less {b = c} lt') =
    let no : (a == c) ≡ false = ground (arith, lt, lt') in rw no (omega arith)
between (less {a} {b} lt) (rest {b = c} e h) =
    let no : (a == c) ≡ false = ground (arith, lt, e) in rw no (omega arith)
between (rest {a} {b} e h) (less {b = c} lt) =
    let no : (a == c) ≡ false = ground (arith, lt, e) in rw no (omega arith)
between (rest {a} {b} e h) (rest {b = c} e' h') =
    let one : (a == c) ≡ true = ground (arith, e, e') in
    let two : (b == c) ≡ true = ground (arith, e') in rw (one, two) (omega (arith, between h h'))

-- `prefix` from its first `l` bytes on
pub prefix-drop :
    (l : ℕ) (p q : Bytes) → l ≤ prefix p q → prefix p q ≡ l + prefix (drop l p) (drop l q)
unfolding prefix
prefix-drop zero p q h = omega arith
prefix-drop (suc l) [] q h = absurd (omega (arith, h))
prefix-drop (suc l) (a ∷ p) [] h = absurd (omega (arith, h))
prefix-drop (suc l) (a ∷ p) (b ∷ q) h = elim (Bool-cases (a == b)) [
  | inl e ↦ rw e (omega (arith, prefix-drop l p q (ground (arith, e, h))))
  | inr e ↦ absurd (ground (arith, e, h))
]

-- A suffix array of `t`
pub record IsSuffixArray (t : Bytes) (sa : List ℕ) : Type 0 where
  pub lists : Lists (length t) sa
  pub ordered :
      (q r : ℕ) → q < r → r < length t → Lex (drop (get_or sa q 0) t) (drop (get_or sa r 0) t)
