-- ===== src/Greedy/Scan.antt =====
-- The main loop of a `Parse`: it ends, and the sequences so far mean the text up to the literals that are
-- not yet written.
use lz.Prelude.{
  append_assoc, ℕ, zero, suc, ◌+◌, ◌-◌, ◌%◌, ◌^◌, ◌≤◌, ◌<◌, ◌≡◌, refl, ap, ◌∙◌, ◌⊎◌, arith, inl,
  inr, Option, none, some, List, [], ◌∷◌, ◌++◌, length, take, drop, length-take, length-drop,
  length-append, Bool-cases, ltb, ◌>>=◌, take-all, take_add, drop-take,
}
use lz.Lz.{Bytes, Seq}
use lz.Spec.{copy, expand, expand_all}
use lz.Spec.Copy.{copy-append}
use lz.Spec.Literals.{
  lit_total, lit_total-snoc, expand_all-longer, literals_left-longer, expand_all-snoc,
}
use lz.Slices.Laws.{slice_from_lem, slice_to_lem}
use lz.Greedy.{Match, Searcher, State, start, emit, scan}
use lz.Greedy.Found.{Found, match_at}

-- Every match reaches back at least one byte, and not behind the window.
pub data Within (window : ℕ) : List Seq → Type 0 where
  no_sequence : Within window []
  sequence :
      {s : Seq} {ss : List Seq}
      → 0 < s.offset
      → s.offset ≤ window
      → Within window ss
      → Within window (s ∷ ss)

Within-snoc :
    {window : ℕ} {ss : List Seq} (s : Seq)
    → Within window ss
    → 0 < s.offset
    → s.offset ≤ window
    → Within window (ss ++ s ∷ [])
Within-snoc s no_sequence p q = sequence p q no_sequence
Within-snoc s (sequence p' q' h) p q = sequence p' q' (Within-snoc s h p q)

-- What the loop keeps: the tables are right, and the block means the text from `w`, where it begins, up
-- to the literals that are not yet written, whatever stands before the text.
pub record Scanned {T : Type 0} (Ok : T → Type 0) (p : Bytes) (window w : ℕ) (s : State T)
    : Type 0 where
  pub tables : Ok s.tables
  pub from_w : w ≤ s.lit_index
  pub in_text : s.lit_index ≤ length p
  pub means :
      (gone : Bytes)
      → expand_all s.block.sequences s.block.literals (gone ++ take w p)
        ≡ gone ++ take s.lit_index p
  pub literals : lit_total s.block.sequences ≡ length s.block.literals
  pub within : Within window s.block.sequences
  pub progress : (length s.block.sequences ≡ 0) ⊎ (w < s.lit_index)

-- What the loop relies on: below `end` the search ends without a panic, finds only what can be copied,
-- and keeps the tables right, and so does adding the entries of a match.
pub record IsSearcher {T : Type 0} (f : Searcher T) (Ok : T → Type 0) (p : Bytes) (window end : ℕ)
    : Type 0 where
  pub finds :
      (t : T) (lit_index i : ℕ)
      → Ok t
      → lit_index ≤ i
      → i < end
      → (t' : T) × (r : Option Match) × (f.find t lit_index i ≡ some (t', r))
        × Ok t'
        × Found p window lit_index i r
  pub fills :
      (t : T) (lit_index i : ℕ) (m : Match)
      → Ok t
      → i < end
      → Found p window lit_index i (some m)
      → (t' : T) × (f.fill t i m ≡ some t') × Ok t'

pub start-Scanned :
    {T : Type 0} {Ok : T → Type 0} (p : Bytes) (window w : ℕ) (t : T)
    → Ok t
    → w ≤ length p
    → Scanned Ok p window w (start t w)
unfolding lit_total expand_all
start-Scanned p window w t ok le = record {
  tables = ok;
  from_w = omega arith;
  in_text = le;
  means = λ gone. refl;
  literals = refl;
  within = no_sequence;
  progress = inl refl;
}

pub retabled :
    {T T' : Type 0} {Ok : T → Type 0} {Ok' : T' → Type 0} {p : Bytes} {window w : ℕ} (s : State T)
    (t : T')
    → Scanned Ok p window w s
    → Ok' t
    → Scanned Ok' p window w (record { tables = t; lit_index = s.lit_index; block = s.block })
retabled s t inv ok = record {
  tables = ok;
  from_w = inv.from_w;
  in_text = inv.in_text;
  means = inv.means;
  literals = inv.literals;
  within = inv.within;
  progress = inv.progress;
}

front : (l i : ℕ) (p : Bytes) → l ≤ i → take l p ++ drop l (take i p) ≡ take i p
front l i p h =
    ap (λ t. take l p ++ t) (drop-take i l (i - l) p (omega (arith, h)))
    ∙ take_add l (i - l) i p (omega (arith, h))

-- A sequence with the literals `q` and a match, behind the text that the block means so far.
expand-snoc :
    (ss : List Seq) (s : Seq) (ls q h t : Bytes)
    → lit_total ss ≡ length ls
    → s.lit_len ≡ length q
    → copy s.match_len s.offset (expand_all ss ls h ++ q) ≡ t
    → expand_all (ss ++ s ∷ []) (ls ++ q) h ≡ t
unfolding expand
expand-snoc ss s ls q h t e n c =
    expand_all-snoc ss s (ls ++ q) h
    ∙ ap (λ l. expand s l (expand_all ss (ls ++ q) h)) (literals_left-longer ss ls q e)
    ∙ ap (λ x. expand s q x) (expand_all-longer ss ls q h (omega (arith, e)))
    ∙ ap (λ x. copy s.match_len s.offset (expand_all ss ls h ++ x))
        (take-all s.lit_len q (omega (arith, n)))
    ∙ c

-- A match that does not reach out of the text means the same behind more of it.
behind :
    (p gone : Bytes) (m : Match)
    → 0 < m.offset
    → m.offset ≤ m.begin
    → m.begin + m.len ≤ length p
    → copy m.len m.offset (take m.begin p) ≡ take (m.begin + m.len) p
    → copy m.len m.offset (gone ++ take m.begin p) ≡ gone ++ take (m.begin + m.len) p
behind p gone m pos_o ob room copied =
    copy-append m.len m.offset gone (take m.begin p) pos_o
      (omega (arith, length-take m.begin p, ob, room))
    ∙ ap (λ t. gone ++ t) copied

module _ {T : Type 0} (f : Searcher T) (Ok : T → Type 0) (p : Bytes) (small : length p < 2 ^ 32)
    (w window end : ℕ) (in_p : end ≤ length p) (law : IsSearcher f Ok p window end) where
  pub emit_lem :
      (s : State T) (i : ℕ) (m : Match)
      → Scanned Ok p window w s
      → i < end
      → Found p window s.lit_index i (some m)
      → (s' : State T) × (emit f p s i m ≡ some s')
        × (s'.lit_index ≡ m.begin + m.len)
        × Scanned Ok p window w s'
  unfolding emit
  emit_lem s i m inv lt (match_at lit_le bi longer pos_o ob ow room copied) =
      let (t, run, ok') =
        law.fills s.tables s.lit_index i m inv.tables lt
          (match_at lit_le bi longer pos_o ob ow room copied) in
      let q = drop s.lit_index (take m.begin p) in
      let q_size : length q ≡ m.begin - s.lit_index =
        omega (arith, length-drop s.lit_index (take m.begin p), length-take m.begin p, room) in
      let new : Seq = record {
        lit_len = length q % 2 ^ 32;
        match_len = m.len % 2 ^ 32;
        offset = m.offset % 2 ^ 32;
        aux = 0;
      } in
      let lits : length q % 2 ^ 32 ≡ length q = omega (arith, q_size, small, room) in
      let len : m.len % 2 ^ 32 ≡ m.len = omega (arith, small, room) in
      let off : m.offset % 2 ^ 32 ≡ m.offset = omega (arith, small, room, ob) in
      (
        record {
          tables = t;
          lit_index = m.begin + m.len;
          block = record {
            sequences = s.block.sequences ++ new ∷ [];
            literals = s.block.literals ++ q;
          };
        },
        rw
            (
              slice_to_lem m.begin p (omega (arith, room)),
              slice_from_lem s.lit_index (take m.begin p)
                  (omega (arith, length-take m.begin p, room, lit_le)),
              run,
            )
            refl,
        refl,
        record {
          tables = ok';
          from_w = omega (arith, inv.from_w, lit_le);
          in_text = room;
          means = λ gone.
              expand-snoc s.block.sequences new s.block.literals q (gone ++ take w p)
                (gone ++ take (m.begin + m.len) p) inv.literals lits
                (ap (λ t. copy (m.len % 2 ^ 32) (m.offset % 2 ^ 32) (t ++ q)) (inv.means gone)
                  ∙ ap (copy (m.len % 2 ^ 32) (m.offset % 2 ^ 32)) (
                      append_assoc gone (take s.lit_index p) q
                      ∙ ap (λ t. gone ++ t) (front s.lit_index m.begin p lit_le))
                  ∙ rw (len, off) (behind p gone m pos_o ob room copied));
          literals = omega (
            arith,
            lit_total-snoc s.block.sequences new,
            inv.literals,
            lits,
            length-append s.block.literals q,
          );
          within = Within-snoc new inv.within (omega (arith, off, pos_o)) (omega (arith, off, ow));
          progress = inr (omega (arith, inv.from_w, lit_le, longer, bi));
        },
      )

  pub beyond : (l i : ℕ) (m : Match) → Found p window l i (some m) → i < m.begin + m.len
  beyond l i m (match_at _ _ longer _ _ _ _ _) = longer

  -- The loop stops behind the range, with what it keeps.
  unfoldable pub Scans : ℕ → Option (State T × ℕ) → Type 0
  Scans i run =
      (s' : State T) × (i' : ℕ) × (run ≡ some (s', i'))
      × Scanned Ok p window w s'
      × (s'.lit_index ≤ i')
      × (i ≤ i')
      × (end ≤ i')

  later : (i j : ℕ) (run : Option (State T × ℕ)) → i ≤ j → Scans j run → Scans i run
  unfolding Scans
  later i j run le (s', i', e, inv, lit, from, past) =
      (s', i', e, inv, lit, omega (arith, le, from), past)

  -- What the loop does with a look-up, if the rest of the loop is right.
  next :
      (fuel : ℕ)
      → ((s : State T) (i : ℕ)
          → Scanned Ok p window w s
          → s.lit_index ≤ i
          → end - i < fuel
          → Scans i (scan fuel f p end s i))
      → (s : State T) (i : ℕ) (r : Option Match) → Scanned Ok p window w s
      → s.lit_index ≤ i
      → i < end
      → end - i ≤ fuel
      → Found p window s.lit_index i r
      → Scans i (elim r [
        | none ↦ scan fuel f p end s (i + 1)
        | some m ↦ emit f p s i m >>= (λ s''. scan fuel f p end s'' s''.lit_index)
      ])
  next fuel rest s i none inv li lt b found =
      later i (i + 1) _ (omega arith) (rest s (i + 1) inv (omega arith) (omega (arith, lt, b)))
  next fuel rest s i (some m) inv li lt b found =
      let (s', run, at, inv') = emit_lem s i m inv lt found in
      let far = beyond s.lit_index i m found in
      rw run (
        later i s'.lit_index _ (omega (arith, at, far))
          (rest s' s'.lit_index inv' (omega arith) (omega (arith, at, b, lt, far))))

  pub scan_lem :
      (fuel : ℕ) (s : State T) (i : ℕ)
      → Scanned Ok p window w s
      → s.lit_index ≤ i
      → end - i < fuel
      → Scans i (scan fuel f p end s i)
  unfolding scan Scans
  scan_lem zero s i inv li b = absurd (omega (arith, b))
  scan_lem (suc fuel) s i inv li b = elim (Bool-cases (ltb i end)) [
    | inr e ↦ (s, i, rw e refl, inv, li, omega arith, ground (arith, e))
    | inl e ↦
        let lt : i < end = ground (arith, e) in
        let (t, r, run, ok', found) = law.finds s.tables s.lit_index i inv.tables li lt in
        rw (e, run)
          (next fuel (λ s' i'. scan_lem fuel s' i') (record s { tables = t }) i r
            (retabled s t inv ok') li lt (omega (arith, b)) found)
  ]
