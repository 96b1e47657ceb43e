-- ===== src/Tests/HashParser.antt =====
-- A hash parser with a table of four entries, at the third of eight bytes.
use lz.Prelude.{◌⊎◌, ℕ, ◌≡◌, refl, arith, inr, false, Option, none, some, [], ◌∷◌}
use lz.Prelude.Int.{pos}
use lz.Lz.{Block, Error}
use lz.Bytes.Prefix.{AreBytes, none_left, byte}
use lz.ParserBuffer.{memory}
use lz.ParserBuffer.Text.{IsValid, Holds}
use lz.Hash.{Hash, HashConfig, Dictionary, empty, process_segment}
use lz.Hash.Table.{IsTable, process_segment_lem}
use lz.HashParser.{parse, skip}
use lz.HashParser.Kept.{skip_lem}
use lz.HashParser.Config as HPConfig
use lz.HashParser.Config.{Config, hp-init_lem}
use lz.Config.Buffer.{BufConfig}
use lz.Greedy.RoundTrip.{IsReady, Parsed, Skipped}
use lz.HashParser.RoundTrip.{Ready, buffer_of, parse_lem}

abbrev pub sample : Dictionary
sample = record {
  buffer = record {
    data_bytes = 1 ∷ 2 ∷ 3 ∷ 1 ∷ 2 ∷ 3 ∷ 1 ∷ 2 ∷ [];
    spare = 0 ∷ 0 ∷ 0 ∷ 0 ∷ 0 ∷ 0 ∷ 0 ∷ [];
    w = 2;
    off = pos 0;
    shrink_size = 4;
    buffer_size = 8;
    window_size = 8;
    block_size = 6;
  };
  hash = record {
    table = empty ∷ empty ∷ empty ∷ empty ∷ [];
    mask = 65535;
    shift = 62;
    input_len = 2;
  };
}

sample-IsValid : IsValid sample.buffer
sample-IsValid = record {
  head_in = omega arith;
  in_size = omega arith;
  margin = inr (omega arith);
  shrink_in = omega arith;
}

sample-IsTable : IsTable sample.hash
sample-IsTable = record {
  size = refl;
  shift_in = omega arith;
  input_least = omega arith;
  input_most = omega arith;
}

pub sample-AreBytes : AreBytes (memory sample.buffer)
sample-AreBytes = byte (omega arith) (
    byte (omega arith) (
      byte (omega arith) (
        byte (omega arith) (
          byte (omega arith) (
            byte (omega arith) (
              byte (omega arith) (
                byte (omega arith) (
                  byte (omega arith) (
                    byte (omega arith) (
                      byte (omega arith) (
                        byte (omega arith) (
                          byte (omega arith)
                            (byte (omega arith) (byte (omega arith) (none_left)))))))))))))))

pub sample-IsReady : IsReady sample.buffer
sample-IsReady = record {
  valid = sample-IsValid;
  bytes = sample-AreBytes;
  blocks = omega arith;
  small = omega arith;
}

pub sample-Ready : Ready sample
sample-Ready = record { buffer = sample-IsReady; table = sample-IsTable }

parse_lem_example :
    (out : Dictionary × Block × ℕ × Option Error) × (parse sample false ≡ some out)
    × Parsed buffer_of Ready sample out
parse_lem_example = parse_lem sample sample-Ready false

process_segment_lem_example :
    (h : Hash) × (process_segment sample 0 5 ≡ some (record sample { hash = h })) × IsTable h
process_segment_lem_example =
    process_segment_lem sample 0 5 sample-IsTable sample-AreBytes (inr (omega arith))

abbrev short_input : HashConfig
short_input = record { input_len = pos 2; hash_bits = pos 8 }

skip_lem_example :
    (out : Dictionary × ℕ × Option Error) × (skip sample ≡ some out)
    × Skipped buffer_of Ready sample out
skip_lem_example = skip_lem sample sample-Ready

abbrev pub small_buffer : BufConfig
small_buffer = record {
  shrink_size = pos 4;
  buffer_size = pos 8;
  window_size = pos 8;
  block_size = pos 6;
}

abbrev hp_config : Config
hp_config = record { buffer = small_buffer; hash = short_input }

hp-init_lem_example :
    ((e : Error) × (HPConfig.verify (HPConfig.set_defaults hp_config) ≡ some e)
      × (HPConfig.init sample hp_config ≡ (sample, some e)))
    ⊎ ((HPConfig.verify (HPConfig.set_defaults hp_config) ≡ none)
        × (((s' : Dictionary) × (e : Error) × (HPConfig.init sample hp_config ≡ (s', some e)))
            ⊎ ((s' : Dictionary) × (HPConfig.init sample hp_config ≡ (s', none))
                × Ready s'
                × Holds [] 0 s'.buffer)))
hp-init_lem_example = hp-init_lem sample hp_config sample-AreBytes
