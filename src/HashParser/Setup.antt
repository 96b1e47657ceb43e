-- ===== src/HashParser/Setup.antt =====
-- The hash dictionary that `init` or `Reset` sets up is ready for `Parse`.
use lz.Prelude.{
  ◌+◌, ◌-◌, ◌≤◌, ◌<◌, length, ◌≡◌, ◌^◌, ◌*◌, ◌%◌, refl, ap, ◌∙◌, ◌⊎◌, arith, inl, inr, Option, none,
  some, [], replicate, length-replicate, Option-cases, ap_at,
}
use lz.Prelude.Int.{pos_part}
use lz.Lz.{Bytes, Error}
use lz.Config.Buffer.{BufConfig}
use lz.Bytes.Prefix.{AreBytes}
use lz.ParserBuffer.{ParserBuffer, memory}
use lz.Hash
use lz.Hash.{Hash, HashConfig, Dictionary, init_dictionary, reset_dictionary, empty}
use lz.Hash.Table.{IsTable}
use lz.Greedy.Resets.{buffer_reset}
use lz.Greedy.SetUp.{buffer_init}
use lz.ParserBuffer.Text.{Holds}
use lz.HashParser.RoundTrip.{Ready}

abbrev pub table : Hash → HashConfig → Hash
table h cfg = record {
  table = replicate (2 ^ pos_part cfg.hash_bits) empty;
  mask = (2 ^ (8 * pos_part cfg.input_len) % 2 ^ 64 + 2 ^ 64 - 1) % 2 ^ 64;
  shift = 64 - pos_part cfg.hash_bits;
  input_len = pos_part cfg.input_len;
}

pub table-IsTable : (h : Hash) (cfg : HashConfig) → Hash.verify cfg ≡ none → IsTable (table h cfg)
unfolding Hash.verify Hash.max_hash_bits
table-IsTable h cfg ok =
    let bits : pos_part cfg.hash_bits ≤ 24 = ground (arith, ok) in
    record {
      size =
          length-replicate (2 ^ pos_part cfg.hash_bits) empty
          ∙ ap_at (λ n. 2 ^ n) (pos_part cfg.hash_bits) (64 - (64 - pos_part cfg.hash_bits))
              (omega (arith, bits));
      shift_in = omega arith;
      input_least = ground (arith, ok);
      input_most = ground (arith, ok);
    }

pub hash_made :
    (h : Hash) (cfg : HashConfig) → Hash.verify cfg ≡ none → Hash.init h cfg ≡ (table h cfg, none)
unfolding Hash.init
hash_made h cfg ok = rw (ok, Hash.init) refl

hash_init :
    (h : Hash) (cfg : HashConfig)
    → ((e : Error) × (Hash.init h cfg ≡ (h, some e)))
      ⊎ ((h' : Hash) × (Hash.init h cfg ≡ (h', none)) × IsTable h')
unfolding Hash.init
hash_init h cfg = elim (Option-cases (Hash.verify cfg)) [
  | inr (e, bad) ↦ inl (e, rw (bad, Hash.init) refl)
  | inl ok ↦ inr (table h cfg, hash_made h cfg ok, table-IsTable h cfg ok)
]

-- Over a memory of bytes, `init` returns an error, or a parser that is ready and empty.
pub setup_lem :
    (f : Dictionary) (cfg : HashConfig) (bcfg : BufConfig)
    → AreBytes (memory f.buffer)
    → ((f' : Dictionary) × (e : Error) × (init_dictionary f cfg bcfg ≡ (f', some e)))
      ⊎ ((f' : Dictionary) × (init_dictionary f cfg bcfg ≡ (f', none))
          × Ready f'
          × Holds [] 0 f'.buffer)
unfolding init_dictionary
setup_lem f cfg bcfg bytes = elim (buffer_init f.buffer bcfg bytes) [
  | inl (e, bad) ↦ inl (
    f,
    e,
    rw (bad, init_dictionary)
        (ap {B = Dictionary × Option Error} (λ x. (record { buffer = x.0; hash = f.hash }, some e))
          bad),
  )
  | inr (b, run, ready, holds) ↦ elim (hash_init f.hash (Hash.set_defaults cfg)) [
    | inl (e, bad) ↦ inl (
      record { buffer = b; hash = f.hash },
      e,
      rw (run, bad, init_dictionary)
          (ap {B = Dictionary × Option Error}
            (λ x. (record { buffer = x.0; hash = f.hash }, some e)) run),
    )
    | inr (h, run', ok) ↦ inr (
      record { buffer = b; hash = h },
      rw (run, run', init_dictionary)
          (ap {B = Dictionary × Option Error} (λ x. (record { buffer = x.0; hash = h }, none)) run),
      record { buffer = ready; table = ok },
      holds,
    )
  ]
]

-- `Reset` behind that of the buffer
abbrev after_reset : Dictionary → ParserBuffer × Option Error → Dictionary × Option Error
after_reset f x = elim x.1 [
  | some err ↦ (record f { buffer = x.0 }, some err)
  | none ↦ (record { buffer = x.0; hash = Hash.reset f.hash }, none)
]

-- `Reset` of a parser that is ready, with a slice of bytes, returns `ErrDataLen` and changes nothing, or leaves
-- a parser that is ready and holds just the slice.
hash-reset_lem :
    (f : Dictionary) (p q : Bytes)
    → Ready f
    → AreBytes p
    → AreBytes q
    → ((f.buffer.buffer_size < length p) × (reset_dictionary f p q ≡ (f, some Error.err_data_len)))
      ⊎ ((f' : Dictionary) × (reset_dictionary f p q ≡ (f', none)) × Ready f' × Holds p 0 f'.buffer)
unfolding reset_dictionary Hash.reset
hash-reset_lem f p q r bp bq = elim (buffer_reset f.buffer p q r.buffer bp bq) [
  | inl (long, run) ↦ inl (long, ap (after_reset f) run)
  | inr (b, run, ready, holds) ↦ inr (
    record { buffer = b; hash = Hash.reset f.hash },
    ap (after_reset f) run,
    record {
      buffer = ready;
      table = record {
        size = length-replicate (length f.hash.table) empty ∙ r.table.size;
        shift_in = r.table.shift_in;
        input_least = r.table.input_least;
        input_most = r.table.input_most;
      };
    },
    holds,
  )
]
