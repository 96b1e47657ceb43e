-- ===== src/BucketParser/Setup.antt =====
-- The bucket dictionary that `init` or `Reset` sets up is ready for `Parse`.
use lz.Prelude.{
  ℕ, zero, suc, ◌+◌, ◌-◌, ◌≤◌, ◌<◌, ◌≡◌, ◌^◌, ◌*◌, ◌%◌, refl, ap, ◌∙◌, ◌⊎◌, arith, inl, inr, Option,
  none, some, [], replicate, length, length-replicate, Option-cases, ap_at,
}
use lz.Prelude.Int.{pos_part}
use lz.Lz.{Bytes, Error}
use lz.Config.Buffer.{BufConfig}
use lz.Bytes.Prefix.{AreBytes}
use lz.ParserBuffer.{ParserBuffer, memory}
use lz.ParserBuffer.Text.{Holds}
use lz.Greedy.Resets.{buffer_reset}
use lz.Greedy.SetUp.{buffer_init}
use lz.Hash.{empty}
use lz.BucketHash
use lz.BucketHash.{BucketHash, BucketConfig, Dictionary, init_dictionary, reset_dictionary}
use lz.BucketHash.Ring.{AllBelow, none_there, below, AreBuckets}
use lz.BucketParser.RoundTrip.{Ready}

zeros-AllBelow : (m n : ℕ) → 0 < m → AllBelow m (replicate n 0)
zeros-AllBelow m zero pos = none_there
zeros-AllBelow m (suc n) pos = below pos (zeros-AllBelow m n pos)

abbrev table : BucketConfig → BucketHash
table c = record {
  buckets = replicate (2 ^ pos_part c.hash_bits * pos_part c.bucket_size) empty;
  indexes = replicate (2 ^ pos_part c.hash_bits) 0;
  mask = (2 ^ (8 * pos_part c.input_len) % 2 ^ 64 + 2 ^ 64 - 1) % 2 ^ 64;
  shift = 64 - pos_part c.hash_bits;
  input_len = pos_part c.input_len;
  bucket_size = pos_part c.bucket_size;
}

table-AreBuckets : (c : BucketConfig) → BucketHash.verify c ≡ none → AreBuckets (table c)
unfolding BucketHash.verify BucketHash.max_hash_bits
table-AreBuckets c ok =
    let n = 2 ^ pos_part c.hash_bits in
    let bits : pos_part c.hash_bits ≤ 23 = ground (arith, ok) in
    let least : 1 ≤ pos_part c.bucket_size = ground (arith, ok) in
    record {
      size =
          length-replicate {A = ℕ} n 0
          ∙ ap_at (λ k. 2 ^ k) (pos_part c.hash_bits) (64 - (64 - pos_part c.hash_bits))
              (omega (arith, bits));
      room =
          length-replicate (n * pos_part c.bucket_size) empty
          ∙ ap_at (λ k. k * pos_part c.bucket_size) n (length (replicate {A = ℕ} n 0))
              (omega (arith, length-replicate {A = ℕ} n 0));
      inside = zeros-AllBelow (pos_part c.bucket_size) n least;
      shift_in = omega arith;
      input_least = ground (arith, ok);
      input_most = ground (arith, ok);
      bucket_least = least;
      bucket_most = ground (arith, ok);
    }

table_init :
    (t : BucketHash) (cfg : BucketConfig)
    → ((e : Error) × (BucketHash.init t cfg ≡ (t, some e)))
      ⊎ ((t' : BucketHash) × (BucketHash.init t cfg ≡ (t', none)) × AreBuckets t')
unfolding BucketHash.init
table_init t cfg = elim (Option-cases (BucketHash.verify (BucketHash.set_defaults cfg))) [
  | inr (e, bad) ↦ inl (e, rw (bad, BucketHash.init) refl)
  | inl ok ↦ inr (
    table (BucketHash.set_defaults cfg),
    rw (ok, BucketHash.init) refl,
    table-AreBuckets (BucketHash.set_defaults cfg) ok,
  )
]

-- Over a memory of bytes, `init` of the bucket dictionary returns an error, or a parser that is ready and
-- empty.
pub bucket-setup_lem :
    (f : Dictionary) (cfg : BucketConfig) (bcfg : BufConfig)
    → AreBytes (memory f.buffer)
    → ((f' : Dictionary) × (e : Error) × (init_dictionary f cfg bcfg ≡ (f', some e)))
      ⊎ ((f' : Dictionary) × (init_dictionary f cfg bcfg ≡ (f', none))
          × Ready f'
          × Holds [] 0 f'.buffer)
unfolding init_dictionary
bucket-setup_lem f cfg bcfg bytes = elim (buffer_init f.buffer bcfg bytes) [
  | inl (e, bad) ↦ inl (
    f,
    e,
    rw (bad, init_dictionary)
        (ap {B = Dictionary × Option Error} (λ x. (record { buffer = x.0; hash = f.hash }, some e))
          bad),
  )
  | inr (b, run, ready, holds) ↦ elim (table_init f.hash cfg) [
    | inl (e, bad) ↦ inl (
      record { buffer = b; hash = f.hash },
      e,
      rw (run, bad, init_dictionary)
          (ap {B = Dictionary × Option Error}
            (λ x. (record { buffer = x.0; hash = f.hash }, some e)) run),
    )
    | inr (t, run', ok) ↦ inr (
      record { buffer = b; hash = t },
      rw (run, run', init_dictionary)
          (ap {B = Dictionary × Option Error} (λ x. (record { buffer = x.0; hash = t }, none)) run),
      record { buffer = ready; table = ok },
      holds,
    )
  ]
]

-- `Reset` behind that of the buffer
abbrev after_reset : Dictionary → ParserBuffer × Option Error → Dictionary × Option Error
after_reset f x = elim x.1 [
  | some err ↦ (record f { buffer = x.0 }, some err)
  | none ↦ (record { buffer = x.0; hash = BucketHash.reset f.hash }, none)
]

reset-AreBuckets : (t : BucketHash) → AreBuckets t → AreBuckets (BucketHash.reset t)
unfolding BucketHash.reset
reset-AreBuckets t ok = record {
  size = length-replicate {A = ℕ} (length t.indexes) 0 ∙ ok.size;
  room =
      length-replicate (length t.buckets) empty
      ∙ ok.room
      ∙ ap_at (λ k. k * t.bucket_size) (length t.indexes)
          (length (replicate {A = ℕ} (length t.indexes) 0))
          (omega (arith, length-replicate {A = ℕ} (length t.indexes) 0));
  inside = zeros-AllBelow t.bucket_size (length t.indexes) ok.bucket_least;
  shift_in = ok.shift_in;
  input_least = ok.input_least;
  input_most = ok.input_most;
  bucket_least = ok.bucket_least;
  bucket_most = ok.bucket_most;
}

-- `Reset` of a parser with buckets that is ready, with a slice of bytes, returns `ErrDataLen` and changes
-- nothing, or leaves a parser that is ready and holds just the slice.
bucket-reset_lem :
    (f : Dictionary) (p q : Bytes)
    → Ready f
    → AreBytes p
    → AreBytes q
    → ((f.buffer.buffer_size < length p) × (reset_dictionary f p q ≡ (f, some Error.err_data_len)))
      ⊎ ((f' : Dictionary) × (reset_dictionary f p q ≡ (f', none)) × Ready f' × Holds p 0 f'.buffer)
unfolding reset_dictionary
bucket-reset_lem f p q r bp bq = elim (buffer_reset f.buffer p q r.buffer bp bq) [
  | inl (long, run) ↦ inl (long, ap (after_reset f) run)
  | inr (b, run, ready, holds) ↦ inr (
    record { buffer = b; hash = BucketHash.reset f.hash },
    ap (after_reset f) run,
    record { buffer = ready; table = reset-AreBuckets f.hash r.table },
    holds,
  )
]
