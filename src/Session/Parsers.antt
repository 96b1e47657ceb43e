-- ===== src/Session/Parsers.antt =====
-- The hash parsers as parsers of a session. Each embeds its dictionary, and this its `ParserBuffer`.
use lz.Prelude.{
  [], ℕ, ◌%◌, ◌^◌, ◌≡◌, refl, arith, inl, inr, Bool, Option, some, ◌++◌, Bool-cases, ltb, ◌==◌,
  if◌then◌else◌,
}
use lz.Lz.{Bytes, Block, Error}
use lz.ParserBuffer.{ParserBuffer}
use lz.ParserBuffer.Text.{Holds}
use lz.Hash
use lz.Hash.{Hash, shift_offsets}
use lz.Greedy.RoundTrip.{IsReady, Parsed}
use lz.HashParser
use lz.HashParser.RoundTrip as Single
use lz.HashParser.Kept.{shift_offsets-IsTable}
use lz.BackwardParser
use lz.BackwardParser.RoundTrip.{backward-parse_lem}
use lz.DoubleHash
use lz.DoubleParser
use lz.DoubleParser.RoundTrip as Double
use lz.BackwardDoubleParser
use lz.BackwardDoubleParser.RoundTrip.{backward_double-parse_lem}
use lz.BucketHash
use lz.BucketHash.Shift.{shift_offsets-AreBuckets}
use lz.BucketParser
use lz.BucketParser.RoundTrip as Bucketed
use lz.Session.{Parser, State, Reaches, write_with, shrink_with}
use lz.Session.Embed.{write_with_lem, shrink_with_lem}
use lz.Session.Run.{Laws, session_lem, session_finishes}

-- `hashParser` and `backwardHashParser`
shifted :
    (f : Hash.Dictionary) (b : ParserBuffer) (d : ℕ)
    → Single.Ready f
    → IsReady b
    → (f' : Hash.Dictionary) × (Hash.after_shrink f b d ≡ some (f', d))
      × Single.Ready f'
      × (f'.buffer ≡ b)
unfolding Hash.after_shrink
shifted f b d r ready = (
  record { buffer = b; hash = if ltb 0 d then shift_offsets f.hash (d % 2 ^ 32) else f.hash },
  refl,
  record {
    buffer = ready;
    table = elim (Bool-cases (ltb 0 d)) [
      | inl e ↦ rw e (shift_offsets-IsTable f.hash (d % 2 ^ 32) r.table)
      | inr e ↦ rw e r.table
    ];
  },
  refl,
)

unfoldable pub single_parser :
    (parse : Hash.Dictionary → Bool → Option (Hash.Dictionary × Block × ℕ × Option Error))
    → Parser Hash.Dictionary
single_parser parse = record {
  buffer = Single.buffer_of;
  parse = parse;
  write = write_with Single.buffer_of (λ f b. record f { buffer = b });
  shrink = Hash.shrink_dictionary;
}

single-Laws :
    (parse : Hash.Dictionary → Bool → Option (Hash.Dictionary × Block × ℕ × Option Error))
    → ((f : Hash.Dictionary)
        → Single.Ready f
        → (no_literals : Bool)
        → (out : Hash.Dictionary × Block × ℕ × Option Error) × (parse f no_literals ≡ some out)
          × Parsed Single.buffer_of Single.Ready f out)
    → Laws (single_parser parse) Single.Ready
unfolding single_parser Hash.shrink_dictionary shrink_with
single-Laws parse law = record {
  buffer_ready = λ f r. r.buffer;
  parses = λ f no_literals r. law f r no_literals;
  writes =
      write_with_lem Single.buffer_of (λ f b. record f { buffer = b }) (λ f b. refl) Single.Ready
        (λ f r. r.buffer) (λ f b r ready. record { buffer = ready; table = r.table });
  shrinks =
      shrink_with_lem Single.buffer_of Hash.after_shrink Single.Ready (λ f r. r.buffer) shifted;
}

pub hash_parser-Laws : Laws (single_parser HashParser.parse) Single.Ready
hash_parser-Laws = single-Laws HashParser.parse Single.parse_lem

pub backward_parser-Laws : Laws (single_parser BackwardParser.parse) Single.Ready
backward_parser-Laws = single-Laws BackwardParser.parse backward-parse_lem

-- `doubleHashParser` and `bdhp`
length-shift : (h : Hash) (delta : ℕ) → (shift_offsets h delta).input_len ≡ h.input_len
unfolding shift_offsets
length-shift h delta = elim (Bool-cases (delta == 0)) [ inl e ↦ rw e refl | inr e ↦ rw e refl ]

double_shifted :
    (f : DoubleHash.Dictionary) (b : ParserBuffer) (d : ℕ)
    → Double.Ready f
    → IsReady b
    → (f' : DoubleHash.Dictionary) × (DoubleHash.after_shrink f b d ≡ some (f', d))
      × Double.Ready f'
      × (f'.buffer ≡ b)
unfolding DoubleHash.after_shrink
double_shifted f b d r ready =
    let k = d % 2 ^ 32 in
    let h1 = f.tables.h1 in
    let h2 = f.tables.h2 in
    (
      record {
        buffer = b;
        tables =
            if ltb 0 d
            then record { h1 = shift_offsets h1 k; h2 = shift_offsets h2 k }
            else f.tables;
      },
      refl,
      record {
        buffer = ready;
        tables = elim (Bool-cases (ltb 0 d)) [
          | inl e ↦ rw e (record {
            first = shift_offsets-IsTable h1 k r.tables.first;
            second = shift_offsets-IsTable h2 k r.tables.second;
            shorter = omega (arith, length-shift h1 k, length-shift h2 k, r.tables.shorter);
          })
          | inr e ↦ rw e r.tables
        ];
      },
      refl,
    )

unfoldable pub double_parser :
    (parse : DoubleHash.Dictionary
      → Bool
      → Option (DoubleHash.Dictionary × Block × ℕ × Option Error))
    → Parser DoubleHash.Dictionary
double_parser parse = record {
  buffer = Double.buffer_of;
  parse = parse;
  write = write_with Double.buffer_of (λ f b. record f { buffer = b });
  shrink = DoubleHash.shrink;
}

double-Laws :
    (parse : DoubleHash.Dictionary
      → Bool
      → Option (DoubleHash.Dictionary × Block × ℕ × Option Error))
    → ((f : DoubleHash.Dictionary)
        → Double.Ready f
        → (no_literals : Bool)
        → (out : DoubleHash.Dictionary × Block × ℕ × Option Error) × (parse f no_literals
            ≡ some out)
          × Parsed Double.buffer_of Double.Ready f out)
    → Laws (double_parser parse) Double.Ready
unfolding double_parser DoubleHash.shrink shrink_with
double-Laws parse law = record {
  buffer_ready = λ f r. r.buffer;
  parses = λ f no_literals r. law f r no_literals;
  writes =
      write_with_lem Double.buffer_of (λ f b. record f { buffer = b }) (λ f b. refl) Double.Ready
        (λ f r. r.buffer) (λ f b r ready. record { buffer = ready; tables = r.tables });
  shrinks =
      shrink_with_lem Double.buffer_of DoubleHash.after_shrink Double.Ready (λ f r. r.buffer)
        double_shifted;
}

pub double_parser-Laws : Laws (double_parser DoubleParser.parse) Double.Ready
double_parser-Laws = double-Laws DoubleParser.parse Double.double-parse_lem

pub backward_double_parser-Laws : Laws (double_parser BackwardDoubleParser.parse) Double.Ready
backward_double_parser-Laws = double-Laws BackwardDoubleParser.parse backward_double-parse_lem

-- `bucketParser`
bucket_shifted :
    (f : BucketHash.Dictionary) (b : ParserBuffer) (d : ℕ)
    → Bucketed.Ready f
    → IsReady b
    → (f' : BucketHash.Dictionary) × (BucketHash.after_shrink f b d ≡ some (f', d))
      × Bucketed.Ready f'
      × (f'.buffer ≡ b)
unfolding BucketHash.after_shrink
bucket_shifted f b d r ready =
    let (t, run, ok) = shift_offsets-AreBuckets f.hash (d % 2 ^ 32) r.table in
    elim (Bool-cases (ltb 0 d)) [
      | inl e ↦ (
        record { buffer = b; hash = t },
        rw (e, run) refl,
        record { buffer = ready; table = ok },
        refl,
      )
      | inr e ↦ (
        record { buffer = b; hash = f.hash },
        rw e refl,
        record { buffer = ready; table = r.table },
        refl,
      )
    ]

unfoldable pub bucket_parser : Parser BucketHash.Dictionary
bucket_parser = record {
  buffer = Bucketed.buffer_of;
  parse = BucketParser.parse;
  write = write_with Bucketed.buffer_of (λ f b. record f { buffer = b });
  shrink = BucketHash.shrink_dictionary;
}

pub bucket_parser-Laws : Laws bucket_parser Bucketed.Ready
unfolding bucket_parser BucketHash.shrink_dictionary shrink_with
bucket_parser-Laws = record {
  buffer_ready = λ f r. r.buffer;
  parses = λ f no_literals r. Bucketed.bucket-parse_lem f r no_literals;
  writes =
      write_with_lem Bucketed.buffer_of (λ f b. record f { buffer = b }) (λ f b. refl)
        Bucketed.Ready (λ f r. r.buffer)
        (λ f b r ready. record { buffer = ready; table = r.table });
  shrinks =
      shrink_with_lem Bucketed.buffer_of BucketHash.after_shrink Bucketed.Ready (λ f r. r.buffer)
        bucket_shifted;
}

-- After any number of calls of `Write`, of `Parse` with a block, and of `Shrink`, of a hash parser that is ready and
-- empty, in any order, what a decoder has made of its blocks is the front of the text that was written to it.
pub hash-session_lem :
    (f : Hash.Dictionary) (t : State Hash.Dictionary)
    → Single.Ready f
    → Holds [] 0 f.buffer
    → Reaches (single_parser HashParser.parse) (record { parser = f; written = []; decoded = [] }) t
    → (rest : Bytes) × (t.decoded ++ rest ≡ t.written)
unfolding single_parser
hash-session_lem = session_lem (single_parser HashParser.parse) Single.Ready hash_parser-Laws

-- After any number of calls of `Write`, of `Parse` with a block, and of `Shrink`, of a backward double hash parser that is ready and
-- empty, in any order, what a decoder has made of its blocks is the front of the text that was written to it.
pub backward_double-session_lem :
    (f : DoubleHash.Dictionary) (t : State DoubleHash.Dictionary)
    → Double.Ready f
    → Holds [] 0 f.buffer
    → Reaches
        (double_parser BackwardDoubleParser.parse)
        (record { parser = f; written = []; decoded = [] })
        t
    → (rest : Bytes) × (t.decoded ++ rest ≡ t.written)
unfolding double_parser
backward_double-session_lem =
    session_lem (double_parser BackwardDoubleParser.parse) Double.Ready backward_double_parser-Laws

-- After any number of calls of `Write`, of `Parse` with a block, and of `Shrink`, of a bucket parser that is ready and
-- empty, in any order, what a decoder has made of its blocks is the front of the text that was written to it.
pub bucket-session_lem :
    (f : BucketHash.Dictionary) (t : State BucketHash.Dictionary)
    → Bucketed.Ready f
    → Holds [] 0 f.buffer
    → Reaches bucket_parser (record { parser = f; written = []; decoded = [] }) t
    → (rest : Bytes) × (t.decoded ++ rest ≡ t.written)
unfolding bucket_parser
bucket-session_lem = session_lem bucket_parser Bucketed.Ready bucket_parser-Laws

-- From every state that calls of `Write`, of `Parse` with a block, and of `Shrink`, of a hash parser that is ready and empty
-- lead to, further such calls lead to a state where nothing more is written and a decoder has made all of the written text of its blocks.
pub hash-session_finishes :
    (f : Hash.Dictionary) (t : State Hash.Dictionary)
    → Single.Ready f
    → Holds [] 0 f.buffer
    → Reaches (single_parser HashParser.parse) (record { parser = f; written = []; decoded = [] }) t
    → (c : State Hash.Dictionary) × Reaches (single_parser HashParser.parse) t c
      × (c.written ≡ t.written)
      × (c.decoded ≡ c.written)
unfolding single_parser
hash-session_finishes =
    session_finishes (single_parser HashParser.parse) Single.Ready hash_parser-Laws
