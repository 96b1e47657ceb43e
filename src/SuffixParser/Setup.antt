-- ===== src/SuffixParser/Setup.antt =====
-- `init`, `Reset` and `Shrink` of the suffix array parser leave a parser that is ready.
use lz.Prelude.{
  ℕ, ◌+◌, ◌-◌, ◌≤◌, ◌<◌, ◌≡◌, refl, ap, ◌∙◌, ◌⊎◌, arith, inl, inr, Option, none, some, [], length,
  ◌>>=◌, Option-cases, Bool-cases, ltb, leb, true, ap_at, if◌then◌else◌,
}
use lz.Prelude.Int.{pos_part}
use lz.Lz.{Bytes, Error}
use lz.Bytes.Prefix.{AreBytes}
use lz.ParserBuffer
use lz.ParserBuffer.{ParserBuffer, memory}
use lz.ParserBuffer.Text.{Holds, shrink_lem}
use lz.Greedy.{block_size}
use lz.Greedy.SetUp.{buffer_init}
use lz.Greedy.Resets.{buffer_reset}
use lz.Session.Buffer.{shrink-IsReady}
use lz.SuffixParser.{Config, Parser, set_defaults, verify, cleared, init, reset, shrink}
use lz.Suffix.{max_int32}
use lz.SuffixParser.Index.{cleared-IsIndexed}
use lz.SuffixParser.RoundTrip.{Ready}

-- `init` behind that of the buffer
abbrev after_init : Parser → Config → ParserBuffer × Option Error → Parser × Option Error
after_init s cfg x =
    let rest : Parser × Option Error = elim (verify (set_defaults cfg)) [
      | some err ↦ (record s { buffer = x.0 }, some err)
      | none ↦ (
        record {
          buffer = x.0;
          arrays = cleared s.arrays;
          min_match_len = pos_part (set_defaults cfg).min_match_len;
        },
        none,
      )
    ] in
    elim x.1 [ some err ↦ (record s { buffer = x.0 }, some err) | none ↦ rest ]

least_ok : (c : Config) → verify c ≡ none → 2 ≤ pos_part c.min_match_len
unfolding verify
least_ok c ok = ground (arith, ok)

-- Over a memory of bytes, `init` returns an error, or a parser that is empty and ready, unless its buffer may
-- hold more than 31 bits can index.
pub suffix-setup_lem :
    (s : Parser) (cfg : Config)
    → AreBytes (memory s.buffer)
    → ((s' : Parser) × (e : Error) × (init s cfg ≡ (s', some e)))
      ⊎ ((s' : Parser) × (init s cfg ≡ (s', none))
          × Holds [] 0 s'.buffer
          × ((max_int32 < s'.buffer.buffer_size) ⊎ Ready s'))
unfolding init
suffix-setup_lem s cfg bytes = elim (buffer_init s.buffer cfg.buffer bytes) [
  | inl (e, bad) ↦ inl (s, e, ap (after_init s cfg) bad)
  | inr (b, run, ready, holds) ↦ elim (Option-cases (verify (set_defaults cfg))) [
    | inr (e, bad) ↦
        inl (record s { buffer = b }, e, ap (after_init s cfg) run ∙ rw (bad, after_init) refl)
    | inl ok ↦
        let s' : Parser = record {
          buffer = b;
          arrays = cleared s.arrays;
          min_match_len = pos_part (set_defaults cfg).min_match_len;
        } in
        inr (
          s',
          ap (after_init s cfg) run ∙ rw (ok, after_init) refl,
          holds,
          elim (Bool-cases (ltb max_int32 b.buffer_size)) [
            | inl e ↦ inl (ground (arith, e))
            | inr e ↦ inr (record {
              buffer = ready;
              indexes = ground (arith, e);
              least = least_ok (set_defaults cfg) ok;
              arrays = cleared-IsIndexed (b.w + block_size b) s.arrays;
            })
          ],
        )
  ]
]

-- `Reset` behind that of the buffer
abbrev after_reset : Parser → ParserBuffer × Option Error → Parser × Option Error
after_reset s x = elim x.1 [
  | some err ↦ (record s { buffer = x.0 }, some err)
  | none ↦ (record s { buffer = x.0; arrays = cleared s.arrays }, none)
]

pub reset-size :
    (b : ParserBuffer) (p q : Bytes) → (ParserBuffer.reset b p q).0.buffer_size ≡ b.buffer_size
unfolding ParserBuffer.reset
reset-size b p q = ground arith

-- `Reset` of a parser that is ready, with a slice of bytes, returns `ErrDataLen` and changes nothing, or
-- leaves a parser that is ready and holds just the slice.
suffix-reset_lem :
    (s : Parser) (p q : Bytes)
    → Ready s
    → AreBytes p
    → AreBytes q
    → ((s.buffer.buffer_size < length p) × (reset s p q ≡ (s, some Error.err_data_len)))
      ⊎ ((s' : Parser) × (reset s p q ≡ (s', none)) × Ready s' × Holds p 0 s'.buffer)
unfolding reset
suffix-reset_lem s p q r bp bq = elim (buffer_reset s.buffer p q r.buffer bp bq) [
  | inl (long, run) ↦ inl (long, ap (after_reset s) run)
  | inr (b, run, ready, holds) ↦ inr (
    record s { buffer = b; arrays = cleared s.arrays },
    ap (after_reset s) run,
    record {
      buffer = ready;
      indexes = omega (arith, r.indexes, reset-size s.buffer p q, ap (λ x. (x.0).buffer_size) run);
      least = r.least;
      arrays = cleared-IsIndexed (b.w + block_size b) s.arrays;
    },
    holds,
  )
]

pub unmoved :
    (b : ParserBuffer) → b.w ≤ b.shrink_size → ParserBuffer.shrink b ≡ some (b, b.w - b.shrink_size)
unfolding ParserBuffer.shrink
unmoved b le =
    let short : leb b.w b.shrink_size ≡ true = ground (arith, le) in
    rw short (ap_at (λ k. some (b, k)) 0 (b.w - b.shrink_size) (omega (arith, le)))

-- `Shrink` of a parser that is ready never panics; the parser stays ready and holds the same text, with the
-- head at the same place of it.
suffix-shrink_lem :
    (s : Parser) (text : Bytes) (head : ℕ)
    → Ready s
    → Holds text head s.buffer
    → (s' : Parser) × (shrink s ≡ some (s', s.buffer.w - s.buffer.shrink_size))
      × Ready s'
      × Holds text head s'.buffer
unfolding shrink
suffix-shrink_lem s text head r h =
    let d = s.buffer.w - s.buffer.shrink_size in
    let (b, run, holds, w, _, sizes) = shrink_lem h in
    let (ready, _) = shrink-IsReady s.buffer r.buffer text head h (b, d) run in
    elim (Bool-cases (ltb 0 d)) [
      | inl e ↦ (
        record s { buffer = b; arrays = cleared s.arrays },
        rw (run, e) refl,
        record {
          buffer = ready;
          indexes = omega (arith, r.indexes, sizes.buffer_size);
          least = r.least;
          arrays = cleared-IsIndexed (b.w + block_size b) s.arrays;
        },
        holds,
      )
      | inr e ↦ (
        s,
        ap
              (λ o. o >>= (λ (b, delta). some (
                record s {
                  buffer = b;
                  arrays = if ltb 0 delta then cleared s.arrays else s.arrays;
                },
                delta,
              )))
              (unmoved s.buffer (ground (arith, e)))
            ∙ rw e refl,
        r,
        h,
      )
    ]
