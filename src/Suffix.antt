-- ===== src/Suffix.antt =====
-- suffix/lcp.go: the inverse of a suffix array and the table of common prefixes. `suffix.Sort` itself is a
-- parameter. A panic is `none`.
pub mod Inverse
pub mod Order
pub mod Phi
pub mod Table
use lz.Prelude.{
  ℕ, zero, suc, ◌+◌, ◌-◌, ◌^◌, ◌≤◌, ◌<◌, ◌≡◌, Option, none, some, ◌>>=◌, List, [], ◌∷◌, length,
  replicate, get_elem?, get_or, ltb, ◌==◌, not, if◌then◌else◌,
}
use lz.Lz.{Bytes}
use lz.Slices.{slice_from}
use lz.Bytes.{lcp}
use lz.Hash.{store}

-- `suffix.Sort(t, sa)`: the suffix array of `t`
abbrev pub Sort : Type 0
Sort = Bytes → List ℕ

-- A list of the positions before `n`, each once
pub record Lists (n : ℕ) (sa : List ℕ) : Type 0 where
  pub size : length sa ≡ n
  pub inside : (q : ℕ) → q < n → get_or sa q 0 < n
  pub position : ℕ → ℕ
  pub listed : (i : ℕ) → i < n → (position i < n) × (get_or sa (position i) 0 ≡ i)
  pub once : (q r : ℕ) → q < n → r < n → get_or sa q 0 ≡ get_or sa r 0 → q ≡ r

-- What the greedy parser relies on
abbrev pub IsSort : Sort → Type 0
IsSort sorted = (t : Bytes) → Lists (length t) (sorted t)

abbrev pub max_int32 : ℕ
max_int32 = 2 ^ 31 - 1

-- The loop of `InvertSA`, `for j, i := range sa { sainv[i] = int32(j) }`, from the index `j` on
unfoldable pub invert : (j : ℕ) → List ℕ → List ℕ → Option (List ℕ)
invert j [] sainv = some sainv
invert j (i ∷ sa) sainv = store sainv i j >>= (λ sainv'. invert (j + 1) sa sainv')

unfoldable pub invert_sa : List ℕ → List ℕ → Option (List ℕ)
invert_sa sa sainv = if not (length sa == length sainv) then none else invert 0 sa sainv

-- `matchLen`, which has the same text as `lcp` of bytes.go
unfoldable pub match_len : Bytes → Bytes → Option ℕ
match_len = lcp

-- The loop of `_lcp`, at the position `i` with the rest of `sainv`; `l` goes on from round to round.
unfoldable pub lcp_loop : Bytes → List ℕ → List ℕ → (i l : ℕ) → List ℕ → Option (List ℕ)
lcp_loop t sa [] i l table = some table
lcp_loop t sa (k ∷ ks) i l table =
    let first = store table 0 0 >>= (λ table'. lcp_loop t sa ks (i + 1) 0 table') in
    let other = get_elem? sa (k - 1) >>= (λ j. slice_from (i + l) t >>= (λ a.
      slice_from (j + l) t >>= (λ b. match_len a b >>= (λ m.
        store table k (l + m) >>= (λ table'. lcp_loop t sa ks (i + 1) (l + m - 1) table'))))) in
    if k == 0 then first else other

-- `LCP`. Arrays of another length are made anew.
unfoldable pub lcp_table : Sort → Bytes → (sa sainv table : List ℕ) → Option (List ℕ)
lcp_table sorted t sa sainv table =
    let sa' = if length sa == length t then sa else sorted t in
    let inverse =
      if length sainv == length sa' then some sainv else invert_sa sa' (replicate (length sa') 0) in
    let run =
      inverse
      >>= (λ inv. if length table == length t then lcp_loop t sa' inv 0 0 table else none) in
    if ltb max_int32 (length t) then none else run
