-- ===== src/Segments.antt =====
-- suffix/segments.go: the stack of the segments of a suffix array whose suffixes have bytes in common. The
-- function `f` that is called for a segment may reorder it in place, and keeps a state of its own. A panic is
-- `none`.
pub mod Stack
pub mod Calls
pub mod Scan
pub mod Trace
pub mod Covered
pub mod Groups
use lz.Prelude.{
  ℕ, zero, suc, ◌+◌, ◌-◌, Option, none, some, ◌>>=◌, List, [], ◌∷◌, ◌++◌, length, take, drop, ltb,
  leb, ◌==◌, not, if◌then◌else◌,
}
use lz.Slices.{slice_from, slice_to}
use lz.Suffix.{max_int32}

-- `f(m, s)`: what it leaves in the slice `s`, and its state
abbrev pub Callback {ℓ} : Type ℓ → Type ℓ
Callback S = ℕ → List ℕ → S → Option (List ℕ × S)

pub record Item : Type 0 where
  pub n : ℕ
  pub j : ℕ

module _ {ℓ} {S : Type ℓ} (f : Callback S) where
  -- `f(m, sa[a:b])`, whose slice is a part of `sa`
  unfoldable pub call : (m a b : ℕ) → List ℕ → S → Option (List ℕ × S)
  call m a b sa s = slice_to b sa >>= (λ front.
      slice_from a front
      >>= (λ part. f m part s >>= (λ (part', s'). some (take a sa ++ (part' ++ drop b sa), s'))))

  -- The inner loop at `j`. `n` is `none` for -1, which is below each height on the stack.
  unfoldable pub pop :
      (min_len : ℕ)
      → (n : Option ℕ) → (j : ℕ) → List Item
      → List ℕ
      → S
      → Option (List Item × List ℕ × S)
  pop min_len n j [] sa s = some ([], sa, s)
  pop min_len n j (top ∷ stack) sa s =
      let called = if leb min_len top.n then call top.n top.j j sa s else some (sa, s) in
      let next = called >>= (λ (sa', s'). pop min_len n j stack sa' s') in
      elim n [
        | none ↦ next
        | some n ↦
            if ltb top.n n
            then some (record { n = n; j = j - 1 } ∷ top ∷ stack, sa, s)
            else if n == top.n
            then some (top ∷ stack, sa, s)
            else next
      ]

  -- The outer loop from `j` on, with the rest of `lcp`
  unfoldable pub scan :
      (min_len max_len : ℕ) → List ℕ → (j : ℕ) → List Item → List ℕ → S → Option (List ℕ × S)
  scan min_len max_len [] j stack sa s =
      pop min_len none j stack sa s >>= (λ (_, sa', s'). some (sa', s'))
  scan min_len max_len (n ∷ lcp) j stack sa s =
      let n' = if ltb max_len n then max_len else n in
      pop min_len (some n') j stack sa s >>= (λ (stack', sa', s').
        let next = scan min_len max_len lcp (j + 1) stack' sa' s' in
        elim stack' [ [] ↦ some (sa', s') | _ ∷ _ ↦ next ])

  unfoldable pub scan_lcp : List ℕ → List ℕ → (min_len max_len : ℕ) → S → Option (List ℕ × S)
  scan_lcp sa lcp min_len max_len s =
      scan min_len max_len (drop 1 lcp) 1 (record { n = 0; j = 0 } ∷ []) sa s

  -- `Segments`, for lengths that are not negative
  unfoldable pub segments : List ℕ → List ℕ → (min_len max_len : ℕ) → S → Option (List ℕ × S)
  segments sa lcp min_len max_len s =
      let run = scan_lcp sa lcp min_len max_len s in
      if not (length sa == length lcp)
      then none
      else if not (leb min_len max_int32)
      then none
      else if not (leb max_len max_int32)
      then none
      else if ltb max_len min_len
      then some (sa, s)
      else run
