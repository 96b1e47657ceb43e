-- ===== src/Tests/Parsers.antt =====
-- Parsers with two tables of four entries, and with four buckets of two, at the third of eight bytes.
use lz.Prelude.{ℕ, ◌≡◌, ◌<◌, refl, arith, true, false, Option, some, none, ◌⊎◌, List, [], ◌∷◌}
use lz.Lz.{Block, Error}
use lz.Hash.{Hash, Entry, empty}
use lz.Hash as Single
use lz.Greedy.RoundTrip.{Parsed}
use lz.HashParser.RoundTrip as Hashed
use lz.BackwardParser
use lz.BackwardParser.RoundTrip.{backward-parse_lem}
use lz.DoubleHash
use lz.DoubleHash.{Dictionary}
use lz.DoubleParser.Setup.{double-reset_lem}
use lz.Bytes.Prefix.{none_left, byte}
use lz.DoubleParser
use lz.DoubleParser.RoundTrip.{Ready, buffer_of, double-parse_lem}
use lz.DoubleParser.Skip.{Stays, double-skip_lem}
use lz.BackwardDoubleParser
use lz.BackwardDoubleParser.RoundTrip.{backward_double-parse_lem}
use lz.BucketHash
use lz.BucketHash.{BucketHash, BucketConfig, init_dictionary, shift_offsets}
use lz.BucketHash.Ring.{AreBuckets, none_there, below}
use lz.BucketParser
use lz.BucketParser.RoundTrip as Bucketed
use lz.BucketParser.RoundTrip.{bucket-parse_lem}
use lz.ParserBuffer.Text.{Holds}
use lz.Prelude.Int.{pos}
use lz.Tests.HashParser.{sample, sample-IsReady, sample-Ready}

backward-parse_lem_example :
    (out : Single.Dictionary × Block × ℕ × Option Error) × (BackwardParser.parse sample true
      ≡ some out)
    × Parsed Hashed.buffer_of Hashed.Ready sample out
backward-parse_lem_example = backward-parse_lem sample sample-Ready true

abbrev three_bytes : Hash
three_bytes = record {
  table = empty ∷ empty ∷ empty ∷ empty ∷ [];
  mask = 16777215;
  shift = 62;
  input_len = 3;
}

abbrev pub double : Dictionary
double = record { buffer = sample.buffer; tables = record { h1 = sample.hash; h2 = three_bytes } }

pub double-Ready : Ready double
double-Ready = record {
  buffer = sample-IsReady;
  tables = record {
    first = sample-Ready.table;
    second = record {
      size = refl;
      shift_in = omega arith;
      input_least = omega arith;
      input_most = omega arith;
    };
    shorter = omega arith;
  };
}

double-parse_lem_example :
    (out : Dictionary × Block × ℕ × Option Error) × (DoubleParser.parse double false ≡ some out)
    × Parsed buffer_of Ready double out
double-parse_lem_example = double-parse_lem double double-Ready false

double-skip_lem_example :
    (out : Dictionary × ℕ × Option Error) × (DoubleParser.skip double ≡ some out) × Stays double out
double-skip_lem_example = double-skip_lem double double-Ready

backward_double-parse_lem_example :
    (out : Dictionary × Block × ℕ × Option Error) × (BackwardDoubleParser.parse double false
      ≡ some out)
    × Parsed buffer_of Ready double out
backward_double-parse_lem_example = backward_double-parse_lem double double-Ready false

abbrev pub four_buckets : BucketHash
four_buckets = record {
  buckets =
      empty
      ∷ empty
      ∷ empty
      ∷ empty
      ∷ record { position = 1; value = 7 }
      ∷ empty
      ∷ empty
      ∷ empty
      ∷ [];
  indexes = 0 ∷ 0 ∷ 1 ∷ 0 ∷ [];
  mask = 65535;
  shift = 62;
  input_len = 2;
  bucket_size = 2;
}

pub four_buckets-AreBuckets : AreBuckets four_buckets
four_buckets-AreBuckets = record {
  size = refl;
  room = refl;
  inside =
      below (omega arith)
        (below (omega arith) (below (omega arith) (below (omega arith) none_there)));
  shift_in = omega arith;
  input_least = omega arith;
  input_most = omega arith;
  bucket_least = omega arith;
  bucket_most = omega arith;
}

abbrev bucketed : BucketHash.Dictionary
bucketed = record { buffer = sample.buffer; hash = four_buckets }

bucketed-Ready : Bucketed.Ready bucketed
bucketed-Ready = record { buffer = sample-IsReady; table = four_buckets-AreBuckets }

bucket-parse_lem_example :
    (out : BucketHash.Dictionary × Block × ℕ × Option Error) × (BucketParser.parse bucketed false
      ≡ some out)
    × Parsed Bucketed.buffer_of Bucketed.Ready bucketed out
bucket-parse_lem_example = bucket-parse_lem bucketed bucketed-Ready false

abbrev two_entries : List Entry
two_entries = record { position = 5; value = 7 } ∷ record { position = 2; value = 8 } ∷ []

abbrev small_buckets : BucketConfig
small_buckets = record { input_len = pos 2; hash_bits = pos 3; bucket_size = pos 4 }

double-reset_lem_example :
    ((8 < 3)
      × (DoubleHash.reset double (4 ∷ 5 ∷ 6 ∷ []) (7 ∷ []) ≡ (double, some Error.err_data_len)))
    ⊎ ((f' : Dictionary) × (DoubleHash.reset double (4 ∷ 5 ∷ 6 ∷ []) (7 ∷ []) ≡ (f', none))
        × Ready f'
        × Holds (4 ∷ 5 ∷ 6 ∷ []) 0 f'.buffer
        × (f'.tables ≡ double.tables))
double-reset_lem_example =
    double-reset_lem double (4 ∷ 5 ∷ 6 ∷ []) (7 ∷ []) double-Ready
      (byte (omega arith) (byte (omega arith) (byte (omega arith) none_left)))
      (byte (omega arith) none_left)
