-- ===== src/Greedy/Found.antt =====
-- A match is a repetition of the text: copying it gives the text that it stands for.
use lz.Prelude.{
  ℕ, zero, suc, ◌+◌, ◌-◌, ◌≤◌, ◌<◌, ◌≡◌, refl, ap, ◌∙◌, arith, Option, none, some, [], ◌∷◌, ◌++◌,
  length, take, get_or, length-take, get_or-take, ap_at,
}
use lz.Lz.{Bytes}
use lz.Spec.{copy}
use lz.Greedy.{Match}

-- The `k` bytes from `i` on repeat those from `j` on, and lie in the text.
pub record Repeated (p : Bytes) (i j k : ℕ) : Type 0 where
  pub inside : i + k ≤ length p
  pub same : (m : ℕ) → m < k → get_or p (j + m) 0 ≡ get_or p (i + m) 0

take_snoc : (i : ℕ) (p : Bytes) → i < length p → take i p ++ get_or p i 0 ∷ [] ≡ take (i + 1) p
take_snoc i [] h = absurd (omega arith)
take_snoc zero (x ∷ p) h = refl
take_snoc (suc i) (x ∷ p) h =
    ap (λ t. x ∷ t) (take_snoc i p (omega arith))
    ∙ ap_at (λ n. take n (x ∷ p)) (suc (i + 1)) (suc i + 1) (omega arith)

-- Copying `k` bytes from `i - j` back, where the text repeats, gives the text.
pub copy-Repeated :
    (k i j : ℕ) (p : Bytes) → j < i → Repeated p i j k → copy k (i - j) (take i p) ≡ take (i + k) p
unfolding copy
copy-Repeated zero i j p lt r = ap_at (λ n. take n p) i (i + 0) (omega arith)
copy-Repeated (suc k) i j p lt r =
    let here : get_or (take i p) (length (take i p) - (i - j)) 0 ≡ get_or p i 0 =
      ap_at (λ n. get_or (take i p) n 0) (length (take i p) - (i - j)) j
        (omega (arith, length-take i p, r.inside, lt))
      ∙ get_or-take i j p 0 lt
      ∙ ap_at (λ n. get_or p n 0) j (j + 0) (omega arith)
      ∙ r.same 0 (omega arith)
      ∙ ap_at (λ n. get_or p n 0) (i + 0) i (omega arith) in
    let rest : Repeated p (i + 1) (j + 1) k = record {
      inside = omega (arith, r.inside);
      same = λ m mk.
          ap_at (λ n. get_or p n 0) (j + 1 + m) (j + suc m) (omega arith)
          ∙ r.same (suc m) (omega arith)
          ∙ ap_at (λ n. get_or p n 0) (i + suc m) (i + 1 + m) (omega arith);
    } in
    ap (λ x. copy k (i - j) (take i p ++ x ∷ [])) here
    ∙ ap (copy k (i - j)) (take_snoc i p (omega (arith, r.inside)))
    ∙ ap_at (λ o. copy k o (take (i + 1) p)) (i - j) (i + 1 - (j + 1)) (omega arith)
    ∙ copy-Repeated k (i + 1) (j + 1) p (omega (arith, lt)) rest
    ∙ ap_at (λ n. take n p) (i + 1 + k) (i + suc k) (omega arith)

-- What is found at `i`: nothing, or a match that reaches behind `i`, with an offset within the window.
pub data Found (p : Bytes) (window lit_index i : ℕ) : Option Match → Type 0 where
  nothing : Found p window lit_index i none
  match_at :
      {m : Match}
      → lit_index ≤ m.begin
      → m.begin ≤ i
      → i < m.begin + m.len
      → 0 < m.offset
      → m.offset ≤ m.begin
      → m.offset ≤ window
      → m.begin + m.len ≤ length p
      → copy m.len m.offset (take m.begin p) ≡ take (m.begin + m.len) p
      → Found p window lit_index i (some m)

-- A repetition at `i` that reaches back to `b`
pub Found-Repeated :
    {p : Bytes} {window lit_index i : ℕ} (b j k o : ℕ)
    → lit_index ≤ b
    → b ≤ i
    → i < b + k
    → j + o ≡ b
    → 0 < o
    → o ≤ window
    → Repeated p b j k
    → Found p window lit_index i (some (record { begin = b; len = k; offset = o }))
Found-Repeated {p} b j k o lb bi ik jo po ow r =
    match_at lb bi ik po (omega (arith, jo)) ow r.inside (
      ap_at (λ d. copy k d (take b p)) o (b - j) (omega (arith, jo))
      ∙ copy-Repeated k b j p (omega (arith, jo, po)) r)
