-- ===== src/Segments/Trace.antt =====
-- suffix/segments.go: the calls that the inner loop makes, as a list.
use lz.Prelude.{
  ℕ, ◌-◌, ◌≤◌, ◌<◌, ◌≡◌, refl, ◌⊎◌, arith, inl, inr, List, [], ◌∷◌, ◌++◌, ltb, leb, ◌==◌,
  Bool-cases, if◌then◌else◌, none, some, some-inj, bind-some,
}
use mathlib.Core.Path.{subst}
use lz.Segments.{Callback, Item, call, pop}

-- `f(m, sa[a:b])`
pub record Call : Type 0 where
  pub m : ℕ
  pub a : ℕ
  pub b : ℕ

-- A call for the length `m` whose part holds the places before `q` and at `q`
pub data Covers (m q : ℕ) : List Call → Type 0 where
  this : {c : Call} {cs : List Call} → c.m ≡ m → c.a < q → q < c.b → Covers m q (c ∷ cs)
  later : {c : Call} {cs : List Call} → Covers m q cs → Covers m q (c ∷ cs)

pub Covers-right : {m q : ℕ} (cs ds : List Call) → Covers m q ds → Covers m q (cs ++ ds)
Covers-right [] ds h = h
Covers-right (c ∷ cs) ds h = later (Covers-right cs ds h)

pub Covers-left : {m q : ℕ} (cs ds : List Call) → Covers m q cs → Covers m q (cs ++ ds)
Covers-left [] ds h = elim h [ ]
Covers-left (c ∷ cs) ds (this e lo hi) = this e lo hi
Covers-left (c ∷ cs) ds (later h) = later (Covers-left cs ds h)

-- A height of the table, which is cut at the greatest length
abbrev pub cut : (max_len n : ℕ) → ℕ
cut max_len n = if ltb max_len n then max_len else n

-- An item of the stack
pub data On (n j : ℕ) : List Item → Type 0 where
  top : {x : Item} {stack : List Item} → x.n ≡ n → x.j ≡ j → On n j (x ∷ stack)
  under : {x : Item} {stack : List Item} → On n j stack → On n j (x ∷ stack)

module _ {ℓ} {S : Type ℓ} (f : Callback S) where
  -- The calls, one behind the other
  pub data Runs : List Call → List ℕ → S → List ℕ → S → Type ℓ where
    no_call : {sa : List ℕ} {s : S} → Runs [] sa s sa s
    one_call :
        {c : Call} {cs : List Call} {sa sa' sa'' : List ℕ} {s s' s'' : S}
        → call f c.m c.a c.b sa s ≡ some (sa', s')
        → Runs cs sa' s' sa'' s''
        → Runs (c ∷ cs) sa s sa'' s''

  pub Runs-append :
      (cs ds : List Call) {sa sa' sa'' : List ℕ} {s s' s'' : S}
      → Runs cs sa s sa' s'
      → Runs ds sa' s' sa'' s''
      → Runs (cs ++ ds) sa s sa'' s''
  Runs-append [] ds no_call r = r
  Runs-append (c ∷ cs) ds (one_call e h) r = one_call e (Runs-append cs ds h r)

  module _ (min_len : ℕ) where
    -- An item of the height `n` from `a` on, whose segment ends before `j`, has had its call.
    abbrev pub Done : (n a j : ℕ) → List Call → Type 0
    Done n a j cs = min_len ≤ n → (q : ℕ) → a < q → q < j → Covers n q cs

    -- The call for the top of the stack
    top_trace :
        (x : Item) (j : ℕ) (sa : List ℕ) (s : S) (y : List ℕ × S)
        → (if leb min_len x.n then call f x.n x.j j sa s else some (sa, s)) ≡ some y
        → (cs : List Call) × Runs cs sa s y.0 y.1 × Done x.n x.j j cs
    top_trace x j sa s y run = elim (Bool-cases (leb min_len x.n)) [
      | inl e ↦ (
        record { m = x.n; a = x.j; b = j } ∷ [],
        one_call (rw e at run) no_call,
        λ low q lo hi. this refl lo hi,
      )
      | inr e ↦ (
        [],
        subst (λ z. Runs [] sa s z.0 z.1) (some-inj (sa, s) (rw e at run)) no_call,
        λ low q lo hi. absurd (ground (arith, e, low)),
      )
    ]

    pub finish_trace :
        (stack : List Item) (j : ℕ) (sa : List ℕ) (s : S) (y : List Item × List ℕ × S)
        → pop f min_len none j stack sa s ≡ some y
        → (cs : List Call) × Runs cs sa s y.1 y.2 × ((n a : ℕ) → On n a stack → Done n a j cs)
    unfolding pop
    finish_trace [] j sa s y run = (
      [],
      subst (λ z. Runs [] sa s z.1 z.2) (some-inj ([], sa, s) run) no_call,
      λ n a on. elim on [ ],
    )
    finish_trace (x ∷ stack) j sa s y run =
        let (z, e, rest) =
          bind-some (if leb min_len x.n then call f x.n x.j j sa s else some (sa, s))
            (λ (sa', s'). pop f min_len none j stack sa' s') y run in
        let (cs, first, done) = top_trace x j sa s z e in
        let (ds, others, all) = finish_trace stack j z.0 z.1 y rest in
        (cs ++ ds, Runs-append cs ds first others, λ n a on. owed cs ds done all n a on)
      where
        owed :
            (cs ds : List Call)
            → Done x.n x.j j cs
            → ((n a : ℕ) → On n a stack → Done n a j ds)
            → (n a : ℕ) → On n a (x ∷ stack)
            → Done n a j (cs ++ ds)
        owed cs ds done all n a (top en ej) low q lo hi =
            subst (λ m. Covers m q (cs ++ ds)) en
              (Covers-left cs ds (done (omega (arith, low, en)) q (omega (arith, lo, ej)) hi))
        owed cs ds done all n a (under on) low q lo hi = Covers-right cs ds (all n a on low q lo hi)

    -- A round at `j` with the height `v`: an item stays, or it is higher and has had its call.
    pub record Round (v j : ℕ) (stack : List Item) (sa : List ℕ) (s : S)
        (y : List Item × List ℕ × S) : Type ℓ where
      pub calls : List Call
      pub runs : Runs calls sa s y.1 y.2
      pub kept : (n a : ℕ) → On n a stack → (On n a y.0) ⊎ ((v < n) × Done n a j calls)
      pub begin : ℕ
      pub early : begin < j
      pub open_now : On v begin y.0
      pub starts : (n a : ℕ) → On n a y.0 → a < j

    pub Round-trace :
        (stack : List Item) (v j : ℕ) (sa : List ℕ) (s : S) (y : List Item × List ℕ × S)
        → 0 < j
        → On 0 0 stack
        → ((n a : ℕ) → On n a stack → a < j)
        → pop f min_len (some v) j stack sa s ≡ some y
        → Round v j stack sa s y
    unfolding pop
    Round-trace [] v j sa s y pos base starts run = elim base [ ]
    Round-trace (x ∷ stack) v j sa s y pos base starts run = elim (Bool-cases (ltb x.n v)) [
      | inl e ↦
          let new : Item = record { n = v; j = j - 1 } in
          subst (Round v j (x ∷ stack) sa s) (some-inj (new ∷ x ∷ stack, sa, s) (rw e at run))
            (record {
              calls = [];
              runs = no_call;
              kept = λ n a on. inl (under on);
              begin = j - 1;
              early = omega (arith, pos);
              open_now = top refl refl;
              starts = λ n a on. pushed n a on;
            })
      | inr e ↦ elim (Bool-cases (v == x.n)) [
        | inl e' ↦
            subst (Round v j (x ∷ stack) sa s) (some-inj (x ∷ stack, sa, s) (rw (e, e') at run))
              (record {
                calls = [];
                runs = no_call;
                kept = λ n a on. inl on;
                begin = x.j;
                early = starts x.n x.j (top refl refl);
                open_now = top (ground (arith, e')) refl;
                starts = starts;
              })
        | inr e' ↦
            let higher : v < x.n = ground (arith, e, e') in
            let (z, e'', rest) =
              bind-some (if leb min_len x.n then call f x.n x.j j sa s else some (sa, s))
                (λ (sa', s'). pop f min_len (some v) j stack sa' s') y (rw (e, e') at run) in
            let (cs, first, done) = top_trace x j sa s z e'' in
            let r =
              Round-trace stack v j z.0 z.1 y pos (deeper higher base)
                (λ n a on. starts n a (under on)) rest in
            record {
              calls = cs ++ r.calls;
              runs = Runs-append cs r.calls first r.runs;
              kept = λ n a on. owed cs r.calls higher done r.kept n a on;
              begin = r.begin;
              early = r.early;
              open_now = r.open_now;
              starts = r.starts;
            }
      ]
    ]
      where
        pushed : (n a : ℕ) → On n a (record { n = v; j = j - 1 } ∷ x ∷ stack) → a < j
        pushed n a (top en ej) = omega (arith, ej, pos)
        pushed n a (under on) = starts n a on

        deeper : v < x.n → On 0 0 (x ∷ stack) → On 0 0 stack
        deeper higher (top en ej) = absurd (omega (arith, en, higher))
        deeper higher (under on) = on

        owed :
            {out : List Item} (cs ds : List Call)
            → v < x.n
            → Done x.n x.j j cs
            → ((n a : ℕ) → On n a stack → (On n a out) ⊎ ((v < n) × Done n a j ds))
            → (n a : ℕ) → On n a (x ∷ stack)
            → (On n a out) ⊎ ((v < n) × Done n a j (cs ++ ds))
        owed cs ds higher done all n a (top en ej) = inr (
          omega (arith, higher, en),
          λ low q lo hi.
              subst (λ m. Covers m q (cs ++ ds)) en
                (Covers-left cs ds (done (omega (arith, low, en)) q (omega (arith, lo, ej)) hi)),
        )
        owed cs ds higher done all n a (under on) = elim (all n a on) [
          | inl stays ↦ inl stays
          | inr (above, had) ↦ inr (above, λ low q lo hi. Covers-right cs ds (had low q lo hi))
        ]
