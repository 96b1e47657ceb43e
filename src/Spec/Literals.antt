-- ===== src/Spec/Literals.antt =====
-- Sequences that use up their literals: what a further sequence or further literals mean.
use lz.Prelude.{
  ℕ, ◌+◌, ◌≤◌, ◌≡◌, refl, arith, List, [], ◌∷◌, ◌++◌, length, drop, take-append_le, drop-append_le,
  length-drop,
}
use lz.Lz.{Bytes, Seq}
use lz.Spec.{expand, expand_all, literals_left}

unfoldable pub lit_total : List Seq → ℕ
lit_total [] = 0
lit_total (s ∷ ss) = s.lit_len + lit_total ss

pub lit_total-snoc : (ss : List Seq) (s : Seq) → lit_total (ss ++ s ∷ []) ≡ lit_total ss + s.lit_len
unfolding lit_total
lit_total-snoc [] s = omega arith
lit_total-snoc (t ∷ ss) s = omega (arith, lit_total-snoc ss s)

pub expand_all-longer :
    (ss : List Seq) (ls q h : Bytes)
    → lit_total ss ≤ length ls
    → expand_all ss (ls ++ q) h ≡ expand_all ss ls h
unfolding expand_all lit_total expand
expand_all-longer [] ls q h le = refl
expand_all-longer (s ∷ ss) ls q h le =
    rw (take-append_le s.lit_len ls q (omega arith), drop-append_le s.lit_len ls q (omega arith))
      (expand_all-longer ss (drop s.lit_len ls) q _ (omega (arith, length-drop s.lit_len ls)))

pub literals_left-longer :
    (ss : List Seq) (ls q : Bytes) → lit_total ss ≡ length ls → literals_left ss (ls ++ q) ≡ q
unfolding literals_left lit_total
literals_left-longer [] [] q e = refl
literals_left-longer [] (x ∷ ls) q e = absurd (omega arith)
literals_left-longer (s ∷ ss) ls q e =
    rw (drop-append_le s.lit_len ls q (omega arith))
      (literals_left-longer ss (drop s.lit_len ls) q (omega (arith, length-drop s.lit_len ls)))

pub expand_all-snoc :
    (ss : List Seq) (s : Seq) (ls h : Bytes)
    → expand_all (ss ++ s ∷ []) ls h ≡ expand s (literals_left ss ls) (expand_all ss ls h)
unfolding expand_all literals_left
expand_all-snoc [] s ls h = refl
expand_all-snoc (t ∷ ss) s ls h = expand_all-snoc ss s (drop t.lit_len ls) (expand t ls h)
