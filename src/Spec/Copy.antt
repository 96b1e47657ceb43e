-- ===== src/Spec/Copy.antt =====
-- Laws of the byte-by-byte copy: its length, copies from further back, and copies in one piece.
use lz.Prelude.{
  ℕ, zero, suc, ◌+◌, ◌-◌, ◌*◌, ◌≤◌, ◌<◌, ◌≡◌, refl, sym, ap, ◌∙◌, [], ◌∷◌, ◌++◌, append_assoc,
  append-nil, arith, ap_at, length, get_or, take, drop, length-append, length-drop, take-append_le,
  drop-append_le, drop-cons, get_or-append_lt, get_or-append_add,
}
use lz.Lz.{Bytes}
use lz.Spec.{copy}

snoc-length : (h : Bytes) (x : ℕ) → length (h ++ x ∷ []) ≡ length h + 1
snoc-length h x = omega (arith, length-append h (x ∷ []))

pub length-copy : (n off : ℕ) (h : Bytes) → length (copy n off h) ≡ length h + n
unfolding copy
length-copy zero off h = omega arith
length-copy (suc n) off h = omega (
  arith,
  length-copy n off (h ++ get_or h (length h - off) 0 ∷ []),
  snoc-length h (get_or h (length h - off) 0),
)

pub copy-add : (n m k off : ℕ) (h : Bytes) → n + m ≡ k → copy k off h ≡ copy m off (copy n off h)
unfolding copy
copy-add zero m k off h e = ap_at (λ j. copy j off h) k m (omega arith)
copy-add (suc n) m zero off h e = absurd (omega arith)
copy-add (suc n) m (suc k) off h e = copy-add n m k off _ (omega arith)

-- What was forgotten in front does not matter to a copy from within the rest.
pub copy-append :
    (n off : ℕ) (g h : Bytes) → 0 < off → off ≤ length h → copy n off (g ++ h) ≡ g ++ copy n off h
unfolding copy
copy-append zero off g h p q = refl
copy-append (suc n) off g h p q =
    ap (λ t. copy n off t) same
    ∙ copy-append n off g (h ++ x ∷ []) p (omega (arith, snoc-length h x))
  where
    x : ℕ
    x = get_or h (length h - off) 0

    same : g ++ h ++ get_or (g ++ h) (length (g ++ h) - off) 0 ∷ [] ≡ g ++ (h ++ x ∷ [])
    same =
        rw
          (get_or-append_add g h (length (g ++ h) - off) (length h - off) 0
            (omega (arith, length-append g h)))
          (append_assoc g h (x ∷ []))

-- A copy of at most `off` bytes is one piece of the text.
pub copy-piece :
    (n off : ℕ) (h : Bytes)
    → n ≤ off
    → off ≤ length h
    → copy n off h ≡ h ++ take n (drop (length h - off) h)
unfolding copy
copy-piece zero off h p q = sym (append-nil h)
copy-piece (suc n) off h p q =
    copy-piece n off (h ++ x ∷ []) (omega arith) (omega (arith, snoc-length h x))
    ∙ ap (λ t. h ++ x ∷ [] ++ take n t) later
    ∙ ap (λ t. h ++ x ∷ [] ++ t)
        (take-append_le n (drop (suc (length h - off)) h) (x ∷ [])
          (omega (arith, length-drop (suc (length h - off)) h)))
    ∙ append_assoc h (x ∷ []) (take n (drop (suc (length h - off)) h))
    ∙ ap (λ t. h ++ take (suc n) t) (sym (drop-cons (length h - off) h 0 (omega arith)))
  where
    x : ℕ
    x = get_or h (length h - off) 0

    later :
        drop (length (h ++ x ∷ []) - off) (h ++ x ∷ []) ≡ drop (suc (length h - off)) h ++ x ∷ []
    later =
        ap_at (λ k. drop k (h ++ x ∷ [])) (length (h ++ x ∷ []) - off) (suc (length h - off))
          (omega (arith, snoc-length h x))
        ∙ drop-append_le (suc (length h - off)) h (x ∷ []) (omega arith)

-- The byte `i + 1` places before the end.
abbrev pub back : Bytes → ℕ → ℕ
back h i = get_or h (length h - suc i) 0

back-snoc_zero : (h : Bytes) (x : ℕ) → back (h ++ x ∷ []) 0 ≡ x
back-snoc_zero h x =
    get_or-append_add h (x ∷ []) (length (h ++ x ∷ []) - 1) 0 0 (omega (arith, snoc-length h x))

back-snoc_suc : (h : Bytes) (x i : ℕ) → i < length h → back (h ++ x ∷ []) (suc i) ≡ back h i
back-snoc_suc h x i p =
    ap_at (λ k. get_or (h ++ x ∷ []) k 0) (length (h ++ x ∷ []) - suc (suc i)) (length h - suc i)
      (omega (arith, snoc-length h x))
    ∙ get_or-append_lt h (x ∷ []) (length h - suc i) 0 (omega arith)

-- The last `m` bytes repeat those `off` places before.
abbrev pub Repeats : ℕ → ℕ → Bytes → Type 0
Repeats off m h = (i : ℕ) → i < m → back h i ≡ back h (i + off)

-- Appending the byte `off` places before the end makes the repeated part one longer.
snoc-Repeats :
    (m off : ℕ) (h : Bytes)
    → 0 < off
    → off + m ≤ length h
    → Repeats off m h
    → Repeats off (suc m) (h ++ get_or h (length h - off) 0 ∷ [])
snoc-Repeats m off h p q r zero l =
    back-snoc_zero h x
    ∙ ap_at (λ k. get_or h k 0) (length h - off) (length h - suc (off - 1)) (omega arith)
    ∙ sym (back-snoc_suc h x (off - 1) (omega arith))
    ∙ ap_at (back (h ++ x ∷ [])) (suc (off - 1)) (0 + off) (omega arith)
  where
    x : ℕ
    x = get_or h (length h - off) 0
snoc-Repeats m off h p q r (suc i) l =
    back-snoc_suc h x i (omega arith)
    ∙ r i (omega arith)
    ∙ sym (back-snoc_suc h x (i + off) (omega arith))
    ∙ ap_at (back (h ++ x ∷ [])) (suc (i + off)) (suc i + off) (omega arith)
  where
    x : ℕ
    x = get_or h (length h - off) 0

pub copy-Repeats :
    (n m k off : ℕ) (h : Bytes)
    → 0 < off
    → off + m ≤ length h
    → n + m ≡ k
    → Repeats off m h
    → Repeats off k (copy n off h)
unfolding copy
copy-Repeats zero m k off h p q e r = λ i l. r i (omega arith)
copy-Repeats (suc n) m k off h p q e r =
    copy-Repeats n (suc m) k off (h ++ x ∷ []) p (omega (arith, snoc-length h x)) (omega arith)
      (snoc-Repeats m off h p q r)
  where
    x : ℕ
    x = get_or h (length h - off) 0

-- Over such a text a copy may look back twice as far: the loop of the decoder doubles its offset.
pub copy-double :
    (n off : ℕ) (h : Bytes)
    → 0 < off
    → off + off ≤ length h
    → Repeats off off h
    → copy n off h ≡ copy n (2 * off) h
unfolding copy
copy-double zero off h p q r = refl
copy-double (suc n) off h p q r =
    copy-double n off (h ++ x ∷ []) p (omega (arith, snoc-length h x))
      (λ i l. snoc-Repeats off off h p q r i (omega arith))
    ∙ ap (λ y. copy n (2 * off) (h ++ y ∷ [])) same
  where
    x : ℕ
    x = get_or h (length h - off) 0

    same : x ≡ get_or h (length h - 2 * off) 0
    same =
        ap_at (λ k. get_or h k 0) (length h - off) (length h - suc (off - 1)) (omega arith)
        ∙ r (off - 1) (omega arith)
        ∙ ap_at (λ k. get_or h k 0) (length h - suc (off - 1 + off)) (length h - 2 * off)
            (omega arith)
