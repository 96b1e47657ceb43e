-- ===== src/OptSuffixParser/Setup.antt =====
-- `init`, `Reset` and `Shrink` of the optimizing parser leave a parser that is ready.
use lz.Prelude.{
  ℕ, ◌-◌, ◌≤◌, ◌<◌, ◌≡◌, refl, ap, ◌∙◌, ◌⊎◌, arith, inl, inr, Option, none, some, [], length, ◌>>=◌,
  Option-cases, Bool-cases, ltb, if◌then◌else◌,
}
use lz.Prelude.Int.{pos_part}
use lz.Lz.{Bytes, Error}
use lz.Bytes.Prefix.{AreBytes}
use lz.ParserBuffer
use lz.ParserBuffer.{ParserBuffer, memory}
use lz.ParserBuffer.Text.{Holds, shrink_lem}
use lz.Greedy.SetUp.{buffer_init}
use lz.Greedy.Resets.{buffer_reset}
use lz.Session.Buffer.{shrink-IsReady}
use lz.SuffixParser.Setup.{reset-size, unmoved}
use lz.OptSuffixParser.{Parser, no_graph, xz_cost, reset, shrink}
use lz.OptSuffixParser.Config.{Config, set_defaults, verify, init}
use lz.OptSuffixParser.Edges.{AreGraph}
use lz.Suffix.{max_int32}
use lz.OptSuffixParser.RoundTrip.{Ready}

empty-AreGraph : (p : Bytes) (window : ℕ) → AreGraph p window no_graph
empty-AreGraph p window k h = absurd (omega (arith, h))

-- `init` behind that of the buffer
abbrev after_init : Parser → Config → ParserBuffer × Option Error → Parser × Option Error
after_init s c x = elim x.1 [
  | some err ↦ (record s { buffer = x.0 }, some err)
  | none ↦ (
    record {
      buffer = x.0;
      graph = no_graph;
      cost = xz_cost;
      min_match_len = pos_part c.min_match_len;
      max_match_len = pos_part c.max_match_len;
    },
    none,
  )
]

least_ok : (c : Config) → verify c ≡ none → 2 ≤ pos_part c.min_match_len
unfolding verify
least_ok c ok = ground (arith, ok)

verified :
    (s : Parser) (cfg : Config)
    → verify (set_defaults cfg) ≡ none
    → init s cfg
      ≡ after_init s (set_defaults cfg) (ParserBuffer.init s.buffer (set_defaults cfg).buffer)
unfolding init
verified s cfg ok = rw (ok, init) refl

-- Over a memory of bytes, `init` returns an error, or a parser that is empty and ready, unless its buffer may hold more
-- than 31 bits can index, or its matches have to be as long.
pub optimal-setup_lem :
    (s : Parser) (cfg : Config)
    → AreBytes (memory s.buffer)
    → ((s' : Parser) × (e : Error) × (init s cfg ≡ (s', some e)))
      ⊎ ((s' : Parser) × (init s cfg ≡ (s', none))
          × Holds [] 0 s'.buffer
          × ((max_int32 < s'.buffer.buffer_size) ⊎ ((max_int32 < s'.min_match_len) ⊎ Ready s')))
unfolding init
optimal-setup_lem s cfg bytes = elim (Option-cases (verify (set_defaults cfg))) [
  | inr (e, bad) ↦ inl (s, e, rw (bad, init) refl)
  | inl ok ↦ elim (buffer_init s.buffer (set_defaults cfg).buffer bytes) [
    | inl (e, bad) ↦ inl (s, e, verified s cfg ok ∙ ap (after_init s (set_defaults cfg)) bad)
    | inr (b, run, ready, holds) ↦
        let c = set_defaults cfg in
        let s' : Parser = record {
          buffer = b;
          graph = no_graph;
          cost = xz_cost;
          min_match_len = pos_part c.min_match_len;
          max_match_len = pos_part c.max_match_len;
        } in
        inr (
          s',
          verified s cfg ok ∙ ap (after_init s c) run,
          holds,
          elim (Bool-cases (ltb max_int32 b.buffer_size)) [
            | inl e ↦ inl (ground (arith, e))
            | inr e ↦ elim (Bool-cases (ltb max_int32 (pos_part c.min_match_len))) [
              | inl e' ↦ inr (inl (ground (arith, e')))
              | inr e' ↦ inr (
                  inr (record {
                    buffer = ready;
                    indexes = ground (arith, e);
                    least = least_ok c ok;
                    lengths = ground (arith, e');
                    early = omega arith;
                    graph = empty-AreGraph b.data_bytes b.window_size;
                  }))
            ]
          ],
        )
  ]
]

-- `Reset` behind that of the buffer
abbrev after_reset : Parser → ParserBuffer × Option Error → Parser × Option Error
after_reset s x = elim x.1 [
  | some err ↦ (record s { buffer = x.0 }, some err)
  | none ↦ (record s { buffer = x.0; graph = no_graph }, none)
]

-- `Reset` of a parser that is ready, with a slice of bytes, returns `ErrDataLen` and changes nothing, or leaves a parser
-- that is ready and holds just the slice.
optimal-reset_lem :
    (s : Parser) (p q : Bytes)
    → Ready s
    → AreBytes p
    → AreBytes q
    → ((s.buffer.buffer_size < length p) × (reset s p q ≡ (s, some Error.err_data_len)))
      ⊎ ((s' : Parser) × (reset s p q ≡ (s', none)) × Ready s' × Holds p 0 s'.buffer)
unfolding reset
optimal-reset_lem s p q r bp bq = elim (buffer_reset s.buffer p q r.buffer bp bq) [
  | inl (long, run) ↦ inl (long, ap (after_reset s) run)
  | inr (b, run, ready, holds) ↦ inr (
    record s { buffer = b; graph = no_graph },
    ap (after_reset s) run,
    record {
      buffer = ready;
      indexes = omega (arith, r.indexes, reset-size s.buffer p q, ap (λ x. (x.0).buffer_size) run);
      least = r.least;
      lengths = r.lengths;
      early = omega arith;
      graph = empty-AreGraph b.data_bytes b.window_size;
    },
    holds,
  )
]

-- `Shrink` of a parser that is ready never panics; the parser stays ready and holds the same text, with the head at the
-- same place of it.
optimal-shrink_lem :
    (s : Parser) (text : Bytes) (head : ℕ)
    → Ready s
    → Holds text head s.buffer
    → (s' : Parser) × (shrink s ≡ some (s', s.buffer.w - s.buffer.shrink_size))
      × Ready s'
      × Holds text head s'.buffer
unfolding shrink
optimal-shrink_lem s text head r h =
    let d = s.buffer.w - s.buffer.shrink_size in
    let (b, run, holds, w, _, sizes) = shrink_lem h in
    let (ready, _) = shrink-IsReady s.buffer r.buffer text head h (b, d) run in
    elim (Bool-cases (ltb 0 d)) [
      | inl e ↦ (
        record s { buffer = b; graph = no_graph },
        rw (run, e) refl,
        record {
          buffer = ready;
          indexes = omega (arith, r.indexes, sizes.buffer_size);
          least = r.least;
          lengths = r.lengths;
          early = omega arith;
          graph = empty-AreGraph b.data_bytes b.window_size;
        },
        holds,
      )
      | inr e ↦ (
        s,
        ap
              (λ o. o >>= (λ (b, delta). some (
                record s { buffer = b; graph = if ltb 0 delta then no_graph else s.graph },
                delta,
              )))
              (unmoved s.buffer (ground (arith, e)))
            ∙ rw e refl,
        r,
        h,
      )
    ]
