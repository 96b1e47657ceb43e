-- ===== src/DoubleParser/Setup.antt =====
-- The double hash dictionary that `init` or `Reset` sets up is ready for `Parse`.
use lz.Prelude.{
  ◌≡◌, ◌<◌, length, refl, ap, ◌∙◌, ◌⊎◌, arith, inl, inr, Option, none, some, [], Option-cases,
}
use lz.Prelude.Int.{pos_part}
use lz.Lz.{Bytes, Error}
use lz.Config.Buffer.{BufConfig}
use lz.Bytes.Prefix.{AreBytes}
use lz.ParserBuffer
use lz.ParserBuffer.{ParserBuffer, memory}
use lz.ParserBuffer.Text.{Holds}
use lz.Greedy.Resets.{buffer_reset}
use lz.Greedy.SetUp.{buffer_init}
use lz.Hash
use lz.HashParser.Setup.{table, table-IsTable, hash_made}
use lz.DoubleHash
use lz.DoubleHash.{DoubleConfig, Tables, Dictionary, init_tables}
use lz.DoubleHash.Segment.{AreTables}
use lz.DoubleParser.{make}
use lz.DoubleParser.RoundTrip.{Ready}

first_ok : (c : DoubleConfig) → DoubleHash.verify c ≡ none → Hash.verify c.c1 ≡ none
unfolding DoubleHash.verify
first_ok c ok = ground (arith, ok)

second_ok : (c : DoubleConfig) → DoubleHash.verify c ≡ none → Hash.verify c.c2 ≡ none
unfolding DoubleHash.verify
second_ok c ok = ground (arith, ok)

shorter_ok :
    (c : DoubleConfig)
    → DoubleHash.verify c ≡ none
    → pos_part c.c1.input_len < pos_part c.c2.input_len
unfolding DoubleHash.verify Hash.verify
shorter_ok c ok = ground (arith, ok)

abbrev made : DoubleConfig → Tables → Tables
made c t = record { h1 = table t.h1 c.c1; h2 = table t.h2 c.c2 }

tables_init :
    (t : Tables) (c : DoubleConfig)
    → ((t' : Tables) × (e : Error) × (init_tables t c ≡ (t', some e)))
      ⊎ ((t' : Tables) × (init_tables t c ≡ (t', none)) × AreTables t')
unfolding init_tables
tables_init t c = elim (Option-cases (DoubleHash.verify c)) [
  | inr (e, bad) ↦ inl (t, e, rw (bad, init_tables) refl)
  | inl ok ↦ inr (
    made c t,
    rw (ok, hash_made t.h1 c.c1 (first_ok c ok), hash_made t.h2 c.c2 (second_ok c ok), init_tables)
        (ap {B = Tables × Option Error} (λ x. (record { h1 = x.0; h2 = table t.h2 c.c2 }, none))
          (hash_made t.h1 c.c1 (first_ok c ok))),
    record {
      first = table-IsTable t.h1 c.c1 (first_ok c ok);
      second = table-IsTable t.h2 c.c2 (second_ok c ok);
      shorter = shorter_ok c ok;
    },
  )
]

-- `init` behind those of the buffer and of the tables
abbrev joined :
    Dictionary → ParserBuffer × Option Error → Tables × Option Error → Dictionary × Option Error
joined f x y = elim x.1 [
  | some err ↦ (record f { buffer = x.0 }, some err)
  | none ↦ (record { buffer = x.0; tables = y.0 }, y.1)
]

init-joined :
    (f : Dictionary) (cfg : DoubleConfig) (bcfg : BufConfig) (x : ParserBuffer × Option Error)
    (y : Tables × Option Error)
    → ParserBuffer.init f.buffer bcfg ≡ x
    → init_tables f.tables (DoubleHash.set_defaults cfg) ≡ y
    → DoubleHash.init f cfg bcfg ≡ joined f x y
unfolding DoubleHash.init
init-joined f cfg bcfg x y p q =
    ap (λ z. joined f z (init_tables f.tables (DoubleHash.set_defaults cfg))) p
    ∙ ap (λ z. joined f x z) q

-- Over a memory of bytes, `init` of the double hash dictionary returns an error, or a parser that is ready and
-- empty.
double-setup_lem :
    (f : Dictionary) (cfg : DoubleConfig) (bcfg : BufConfig)
    → AreBytes (memory f.buffer)
    → ((f' : Dictionary) × (e : Error) × (DoubleHash.init f cfg bcfg ≡ (f', some e)))
      ⊎ ((f' : Dictionary) × (DoubleHash.init f cfg bcfg ≡ (f', none))
          × Ready f'
          × Holds [] 0 f'.buffer)
double-setup_lem f cfg bcfg bytes = elim (buffer_init f.buffer bcfg bytes) [
  | inl (e, bad) ↦ inl (f, e, init-joined f cfg bcfg _ _ bad refl)
  | inr (b, run, ready, holds) ↦ elim (tables_init f.tables (DoubleHash.set_defaults cfg)) [
    | inl (t, e, bad) ↦ inl (make b t, e, init-joined f cfg bcfg _ _ run bad)
    | inr (t, run', ok) ↦ inr (
      make b t,
      init-joined f cfg bcfg _ _ run run',
      record { buffer = ready; tables = ok },
      holds,
    )
  ]
]

-- `Reset` of a parser with two tables that is ready, with a slice of bytes, returns `ErrDataLen` and changes
-- nothing, or leaves a parser that is ready and holds just the slice, with the entries that its tables had.
pub double-reset_lem :
    (f : Dictionary) (p q : Bytes)
    → Ready f
    → AreBytes p
    → AreBytes q
    → ((f.buffer.buffer_size < length p) × (DoubleHash.reset f p q ≡ (f, some Error.err_data_len)))
      ⊎ ((f' : Dictionary) × (DoubleHash.reset f p q ≡ (f', none))
          × Ready f'
          × Holds p 0 f'.buffer
          × (f'.tables ≡ f.tables))
unfolding DoubleHash.reset
double-reset_lem f p q r bp bq = elim (buffer_reset f.buffer p q r.buffer bp bq) [
  | inl (long, run) ↦ inl (long, ap (λ x. (make x.0 f.tables, x.1)) run)
  | inr (b, run, ready, holds) ↦ inr (
    make b f.tables,
    ap (λ x. (make x.0 f.tables, x.1)) run,
    record { buffer = ready; tables = r.tables },
    holds,
    refl,
  )
]
