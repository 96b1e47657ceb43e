-- ===== src/Tests/Session.antt =====
-- A session of a hash parser: four bytes are written, and parsed in one block with a match.
use lz.Prelude.{◌≡◌, refl, arith, inl, false, some, none, [], ◌∷◌, ◌++◌}
use lz.Lz.{Bytes, Block}
use lz.Hash.{Dictionary, empty}
use lz.Bytes.Prefix.{AreBytes, byte, none_left}
use lz.Spec.{decode, expand_all, expand, copy, literals_left}
use lz.ParserBuffer.Text.{Holds}
use lz.HashParser.RoundTrip.{Ready}
use lz.Session.Parsers.{single_parser, hash-session_lem, hash-session_finishes}
use lz.HashParser
use lz.ParserBuffer
use lz.ParserBuffer.{ParserBuffer}
use lz.Session.{Parser, State, Reaches, here, then, wrote, parsed, write_with}
use lz.Tests.Data.{tight}
use lz.Tests.HashParser.{sample, sample-Ready, sample-AreBytes}

abbrev pub idle : Dictionary
idle = record sample {
  buffer = record sample.buffer {
    data_bytes = [];
    spare = 1 ∷ 2 ∷ 3 ∷ 1 ∷ 2 ∷ 3 ∷ 1 ∷ 2 ∷ 0 ∷ 0 ∷ 0 ∷ 0 ∷ 0 ∷ 0 ∷ 0 ∷ [];
    w = 0;
  };
}

abbrev filled : Dictionary
filled = record idle {
  buffer = record idle.buffer {
    data_bytes = 5 ∷ 5 ∷ 5 ∷ 5 ∷ [];
    spare = 2 ∷ 3 ∷ 1 ∷ 2 ∷ 0 ∷ 0 ∷ 0 ∷ 0 ∷ 0 ∷ 0 ∷ 0 ∷ [];
  };
}

abbrev done : Dictionary
done = record {
  buffer = record filled.buffer { w = 4 };
  hash = record filled.hash {
    table = record { position = 2; value = 1285 } ∷ empty ∷ empty ∷ empty ∷ [];
  };
}

abbrev block : Block
block = record {
  sequences = record { lit_len = 1; match_len = 3; offset = 1; aux = 0 } ∷ [];
  literals = 5 ∷ [];
}

abbrev five : Bytes
five = 5 ∷ 5 ∷ 5 ∷ 5 ∷ []

five-AreBytes : AreBytes five
five-AreBytes =
    byte (omega arith) (byte (omega arith) (byte (omega arith) (byte (omega arith) none_left)))

abbrev session : Parser Dictionary
session = single_parser HashParser.parse

write_runs : session.write tight idle five ≡ some (filled, 4, none)
unfolding single_parser write_with ParserBuffer.write ParserBuffer.ensure ParserBuffer.put
write_runs = refl

parse_runs : HashParser.parse filled false ≡ some (done, block, 4, none)
unfolding HashParser.parse HashParser.parse_with HashParser.search HashParser.searcher
    HashParser.find HashParser.fill lz.Greedy.parse lz.Greedy.block_size lz.Greedy.single
    lz.Greedy.scan lz.Greedy.emit lz.Greedy.trailing lz.Greedy.min_match_len lz.Hash.process_segment
    lz.Hash.hash_value lz.Hash.store lz.Hash.add lz.Hash.add_range lz.Hash.masked lz.Slices.slice_to
    lz.Slices.slice_from lz.Matching.word_at lz.Matching.look_up lz.Matching.candidate
    lz.Matching.match_with lz.Matching.match_len lz.Matching.extend lz.Matching.add_up_to
    lz.Bytes.get_le64_fast lz.Bytes.trailing_zeros
parse_runs = refl

pub idle-Ready : Ready idle
idle-Ready = record {
  buffer = record {
    valid = record {
      head_in = omega arith;
      in_size = omega arith;
      margin = inl refl;
      shrink_in = omega arith;
    };
    bytes = sample-AreBytes;
    blocks = omega arith;
    small = omega arith;
  };
  table = sample-Ready.table;
}

pub idle-Holds : Holds [] 0 idle.buffer
idle-Holds = record {
  gone = [];
  whole = refl;
  offset = refl;
  at_head = refl;
  valid = idle-Ready.buffer.valid;
}

abbrev begin : State Dictionary
begin = record { parser = idle; written = []; decoded = [] }

abbrev end : State Dictionary
end = record { parser = done; written = five; decoded = five }

two_calls : Reaches session begin end
unfolding decode expand_all expand copy literals_left single_parser
two_calls = then (then here (wrote five-AreBytes write_runs)) (parsed parse_runs)

hash-session_lem_example : (rest : Bytes) × (five ++ rest ≡ five)
hash-session_lem_example = hash-session_lem idle end idle-Ready idle-Holds two_calls

hash-session_finishes_example :
    (c : State Dictionary) × Reaches session end c × (c.written ≡ five) × (c.decoded ≡ c.written)
hash-session_finishes_example = hash-session_finishes idle end idle-Ready idle-Holds two_calls
