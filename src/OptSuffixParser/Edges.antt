-- ===== src/OptSuffixParser/Edges.antt =====
-- The edges of a graph stand for repetitions of the data.
use lz.Prelude.{
  ℕ, zero, suc, ◌+◌, ◌-◌, ◌≤◌, ◌<◌, ◌≡◌, arith, List, [], ◌∷◌, ◌++◌, length, set, get_or,
}
use lz.Lz.{Bytes}
use lz.Greedy.Found.{Repeated}
use lz.OptSuffixParser.{Edge, Graph}

-- The edge at a position: literals, or a repetition within the window
pub data IsEdge (p : Bytes) (window i m o : ℕ) : Type 0 where
  literals : o ≡ 0 → IsEdge p window i m o
  repeats : 0 < o → o ≤ window → o ≤ i → Repeated p i (i - o) m → IsEdge p window i m o

-- An edge may be shortened.
pub shorter-IsEdge :
    {p : Bytes} {window i m o : ℕ} (k : ℕ) → k ≤ m → IsEdge p window i m o → IsEdge p window i k o
shorter-IsEdge k le (literals e) = literals e
shorter-IsEdge {m} k le (repeats pos in_window in_text r) =
    repeats pos in_window in_text (record {
      inside = omega (arith, r.inside, le);
      same = λ q h. r.same q (omega (arith, h, le));
    })

-- All edges of a position
pub data AreEdges (p : Bytes) (window i : ℕ) : List Edge → Type 0 where
  no_edge : AreEdges p window i []
  edge :
      {e : Edge} {q : List Edge}
      → IsEdge p window i e.m e.o
      → AreEdges p window i q
      → AreEdges p window i (e ∷ q)

pub snoc-AreEdges :
    {p : Bytes} {window i : ℕ} (q : List Edge) (e : Edge)
    → AreEdges p window i q
    → IsEdge p window i e.m e.o
    → AreEdges p window i (q ++ e ∷ [])
snoc-AreEdges [] e no_edge h = edge h no_edge
snoc-AreEdges (x ∷ q) e (edge g hs) h = edge g (snoc-AreEdges q e hs h)

-- All edges of a graph
abbrev pub AreGraph : Bytes → ℕ → Graph → Type 0
AreGraph p window g =
    (k : ℕ) → k < length g.edges → AreEdges p window (g.start + k) (get_or g.edges k [])

-- What holds at all places of a list still does, if it holds of what is written.
pub set-all {ℓ} :
    {A : Type ℓ} (P : ℕ → A → Type 0) (xs : List A) (i : ℕ) (v d : A)
    → ((q : ℕ) → q < length xs → P q (get_or xs q d))
    → P i v
    → (q : ℕ) → q < length (set xs i v)
    → P q (get_or (set xs i v) q d)
set-all P [] i v d all new q h = absurd (omega (arith, h))
set-all P (x ∷ xs) zero v d all new zero h = new
set-all P (x ∷ xs) zero v d all new (suc q) h = all (suc q) (omega (arith, h))
set-all P (x ∷ xs) (suc i) v d all new zero h = all 0 (omega arith)
set-all P (x ∷ xs) (suc i) v d all new (suc q) h =
    set-all (λ r. P (suc r)) xs i v d (λ r g. all (suc r) (omega (arith, g))) new q
      (omega (arith, h))
