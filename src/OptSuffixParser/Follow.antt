-- ===== src/OptSuffixParser/Follow.antt =====
-- Following a path of edges writes a block that means the text.
use lz.Prelude.{
  ℕ, ◌+◌, ◌-◌, ◌%◌, ◌^◌, ◌≤◌, ◌<◌, ◌≡◌, refl, sym, ◌∙◌, arith, inl, inr, true, false, none, some,
  List, [], ◌∷◌, length, take, ◌==◌, Bool-cases, length-take, get_or-take,
}
use mathlib.Core.Path.{subst}
use lz.Lz.{Bytes}
use lz.Greedy.{State, emit}
use lz.Greedy.Found.{Repeated, Found, nothing, Found-Repeated}
use lz.Greedy.Scan.{IsSearcher, Scanned, emit_lem}
use lz.OptSuffixParser.{Edge, Graph, idle, follow}
use lz.OptSuffixParser.Edges.{IsEdge, literals, repeats}
use lz.OptSuffixParser.Path.{IsPath, arrived, step}

-- A path does not go beyond its end.
path-bound :
    {q : Bytes} {window w n : ℕ} (path : List Edge) (i : ℕ) → IsPath q window w n i path → i ≤ n
path-bound [] i (arrived e) = omega (arith, e)
path-bound (e ∷ path) i (step pos real rest) = omega (arith, path-bound path (i + e.m) rest)

idle-IsSearcher :
    (Ok : Graph → Type 0) (p : Bytes) (window end : ℕ) → IsSearcher idle Ok p window end
unfolding idle
idle-IsSearcher Ok p window end = record {
  finds = λ t lit_index i ok le lt. (t, none, refl, ok, nothing);
  fills = λ t lit_index i m ok lt found. (t, refl, ok);
}

-- A repetition in the data is one in their front.
front-Repeated :
    (n : ℕ) (q : Bytes) (i j k : ℕ)
    → j ≤ i
    → i + k ≤ n
    → Repeated q i j k
    → Repeated (take n q) i j k
front-Repeated n q i j k le room r = record {
  inside = omega (arith, length-take n q, r.inside, room);
  same = λ m h.
      get_or-take n (j + m) q 0 (omega (arith, h, le, room))
      ∙ r.same m h
      ∙ sym (get_or-take n (i + m) q 0 (omega (arith, h, room)));
}

-- A step with a match, and one with literals
follow_match :
    (p : Bytes) (e : Edge) (path : List Edge) (s : State Graph) (i : ℕ) {s' s'' : State Graph}
    → (e.o == 0) ≡ false
    → (i + e.m) % 2 ^ 32 ≡ i + e.m
    → emit idle p s i (record { begin = i; len = e.m; offset = e.o }) ≡ some s'
    → follow p path s' (i + e.m) ≡ some s''
    → follow p (e ∷ path) s i ≡ some s''
unfolding follow
follow_match p e path s i off wrap run rest = rw (off, wrap, run) rest

follow_literals :
    (p : Bytes) (e : Edge) (path : List Edge) (s : State Graph) (i : ℕ) {s'' : State Graph}
    → (e.o == 0) ≡ true
    → (i + e.m) % 2 ^ 32 ≡ i + e.m
    → follow p path s (i + e.m) ≡ some s''
    → follow p (e ∷ path) s i ≡ some s''
unfolding follow
follow_literals p e path s i off wrap rest = rw (off, wrap) rest

module _ (Ok : Graph → Type 0) (q : Bytes) (window w n : ℕ) (within : w + n ≤ length q)
    (small : length q < 2 ^ 32) where
  abbrev p : Bytes
  p = take (w + n) q

  size : length p ≡ w + n
  size = omega (arith, length-take (w + n) q, within)

  -- The loop of `Parse` over a path
  pub follow_lem :
      (path : List Edge) (j : ℕ) (s : State Graph)
      → IsPath q window w n j path
      → Scanned Ok p window w s
      → s.lit_index ≤ w + j
      → (s' : State Graph) × (follow p path s (w + j) ≡ some s') × Scanned Ok p window w s'
  unfolding follow
  follow_lem [] j s goes inv li = (s, refl, inv)
  follow_lem (e ∷ path) j s (step pos real rest) inv li =
      let room : j + e.m ≤ n = path-bound path (j + e.m) rest in
      let wrap : (w + j + e.m) % 2 ^ 32 ≡ w + j + e.m = omega (arith, room, within, small) in
      elim (Bool-cases (e.o == 0)) [
        | inl off ↦
            let (s', run, inv') = follow_lem path (j + e.m) s rest inv (omega (arith, li)) in
            (
              s',
              follow_literals p e path s (w + j) off wrap
                  (subst (λ i. follow p path s i ≡ some s') (sum j e.m) run),
              inv',
            )
        | inr off ↦
            let found = match_found j s.lit_index e real li (ground (arith, off)) pos room in
            let (s', run, at, inv') =
              emit_lem idle Ok p (omega (arith, size, within, small)) w window (length p)
                (omega arith) (idle-IsSearcher Ok p window (length p)) s (w + j)
                (record { begin = w + j; len = e.m; offset = e.o }) inv
                (omega (arith, size, room, pos)) found in
            let (s'', ran, inv'') = follow_lem path (j + e.m) s' rest inv' (omega (arith, at)) in
            (
              s'',
              follow_match p e path s (w + j) off wrap run
                  (subst (λ i. follow p path s' i ≡ some s'') (sum j e.m) ran),
              inv'',
            )
      ]
    where
      sum : (j m : ℕ) → w + (j + m) ≡ w + j + m
      sum j m = omega arith

      match_found :
          (j l : ℕ) (e : Edge)
          → IsEdge q window (w + j) e.m e.o
          → l ≤ w + j
          → 0 < e.o
          → 0 < e.m
          → j + e.m ≤ n
          → Found p window l (w + j) (some (record { begin = w + j; len = e.m; offset = e.o }))
      match_found j l e (literals none_back) li off pos room =
          absurd (omega (arith, none_back, off))
      match_found j l e (repeats _ in_window in_text r) li off pos room =
          Found-Repeated (w + j) (w + j - e.o) e.m e.o li (omega arith) (omega (arith, pos))
            (omega (arith, in_text)) off in_window
            (front-Repeated (w + n) q (w + j) (w + j - e.o) e.m (omega arith) (omega (arith, room))
              r)
