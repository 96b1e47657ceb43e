-- ===== src/Tests/Sessions.antt =====
-- Sessions of two other parsers: five bytes are written, parsed in one block with a match, and one of them is dropped.
use lz.Prelude.{ℕ, ◌≡◌, refl, arith, false, some, none, [], ◌∷◌, ◌++◌}
use lz.Prelude.Int.{pos}
use lz.Lz.{Bytes, Block}
use lz.Bytes.Prefix.{AreBytes, byte, none_left}
use lz.Spec.{decode, expand_all, expand, copy, literals_left}
use lz.ParserBuffer
use lz.ParserBuffer.{ParserBuffer}
use lz.Hash.{empty}
use lz.DoubleHash
use lz.BucketHash
use lz.BackwardDoubleParser
use lz.BucketParser
use lz.Session.{Parser, Reaches, here, then, wrote, parsed, shrunk, write_with}
use lz.Session.Parsers.{
  double_parser, bucket_parser, backward_double-session_lem, bucket-session_lem,
}
use lz.Tests.Data.{tight}
use lz.Tests.Session.{idle, idle-Ready, idle-Holds}
use lz.Tests.Parsers.{double, double-Ready, four_buckets, four_buckets-AreBuckets}

abbrev fives : Bytes
fives = 5 ∷ 5 ∷ 5 ∷ 5 ∷ 5 ∷ []

fives-AreBytes : AreBytes fives
fives-AreBytes =
    byte (omega arith)
      (byte (omega arith) (byte (omega arith) (byte (omega arith) (byte (omega arith) none_left))))

abbrev filled : ParserBuffer
filled = record idle.buffer {
  data_bytes = fives;
  spare = 3 ∷ 1 ∷ 2 ∷ 0 ∷ 0 ∷ 0 ∷ 0 ∷ 0 ∷ 0 ∷ 0 ∷ [];
}

abbrev dropped : ParserBuffer
dropped = record idle.buffer {
  data_bytes = 5 ∷ 5 ∷ 5 ∷ 5 ∷ [];
  spare = 5 ∷ 3 ∷ 1 ∷ 2 ∷ 0 ∷ 0 ∷ 0 ∷ 0 ∷ 0 ∷ 0 ∷ 0 ∷ [];
  w = 4;
  off = pos 1;
}

abbrev block : Block
block = record {
  sequences = record { lit_len = 1; match_len = 4; offset = 1; aux = 0 } ∷ [];
  literals = 5 ∷ [];
}

abbrev idle_double : DoubleHash.Dictionary
idle_double = record { buffer = idle.buffer; tables = double.tables }

-- its tables with the last positions that were added
abbrev tables : (first second : ℕ) → DoubleHash.Tables
tables first second = record {
  h1 = record double.tables.h1 {
    table = record { position = first; value = 1285 } ∷ empty ∷ empty ∷ empty ∷ [];
  };
  h2 = record double.tables.h2 {
    table = empty ∷ empty ∷ empty ∷ record { position = second; value = 328965 } ∷ [];
  };
}

abbrev backward_session : Parser DoubleHash.Dictionary
backward_session = double_parser BackwardDoubleParser.parse

backward_write :
    backward_session.write tight idle_double fives
    ≡ some (record { buffer = filled; tables = double.tables }, 5, none)
unfolding double_parser write_with ParserBuffer.write ParserBuffer.ensure ParserBuffer.put
backward_write = refl

backward_parse :
    BackwardDoubleParser.parse (record { buffer = filled; tables = double.tables }) false
    ≡ some (record { buffer = record filled { w = 5 }; tables = tables 3 1 }, block, 5, none)
unfolding lz.BackwardDoubleParser.backward lz.BackwardDoubleParser.fill_first
    lz.BackwardDoubleParser.first_searcher lz.BackwardDoubleParser.second_searcher
    lz.BackwardDoubleParser.parse lz.DoubleParser.find_both lz.DoubleParser.find_one
    lz.DoubleParser.add_both lz.DoubleParser.limit lz.DoubleParser.fill_rest
    lz.DoubleParser.fill_both lz.DoubleParser.fill_one lz.DoubleParser.first_searcher
    lz.DoubleParser.second_searcher lz.DoubleParser.search lz.DoubleParser.parse_with
    lz.DoubleHash.put_entry lz.DoubleHash.segment_both lz.DoubleHash.segment_one
    lz.DoubleHash.segment_end lz.DoubleHash.process_segment lz.Matching.word_at lz.Matching.extend
    lz.Matching.match_len lz.Matching.look_up lz.Matching.match_with lz.Matching.candidate
    lz.Matching.add_up_to lz.Matching.extend_back lz.Matching.go_back lz.Greedy.emit lz.Greedy.scan
    lz.Greedy.trailing lz.Greedy.block_size lz.Greedy.parse lz.Greedy.min_match_len lz.Greedy.single
    lz.Bytes.get_le64_fast lz.Bytes.get_le32_fast lz.Bytes.get_le64 lz.Bytes.trailing_zeros
    lz.Bytes.lcp_tail lz.Bytes.lcp_half lz.Bytes.lcp_loop lz.Bytes.lcp lz.Bytes.leading_zeros
    lz.Bytes.lcs_head lz.Bytes.lcs_loop lz.Bytes.lcs_ordered lz.Bytes.lcs lz.Hash.hash_value
    lz.Hash.store lz.Hash.add lz.Hash.add_range lz.Hash.masked lz.Hash.process_segment
    lz.Slices.slice_to lz.Slices.slice_from lz.Slices.slice_last
backward_parse = refl

backward_shrink :
    DoubleHash.shrink (record { buffer = record filled { w = 5 }; tables = tables 3 1 })
    ≡ some (record { buffer = dropped; tables = tables 2 0 }, 1)
unfolding lz.DoubleHash.shrink lz.DoubleHash.after_shrink lz.Hash.shift_offsets
    lz.ParserBuffer.shrink lz.Slices.slice_from lz.Prelude.Int.◌+ℤ◌
backward_shrink = refl

backward_calls :
    Reaches backward_session
      (record { parser = idle_double; written = []; decoded = [] })
      (record {
        parser = record { buffer = dropped; tables = tables 2 0 };
        written = fives;
        decoded = fives;
      })
unfolding decode expand_all expand copy literals_left double_parser
backward_calls =
    then (then (then here (wrote fives-AreBytes backward_write)) (parsed backward_parse))
      (shrunk backward_shrink)

backward_double-session_lem_example : (rest : Bytes) × (fives ++ rest ≡ fives)
backward_double-session_lem_example =
    backward_double-session_lem idle_double
      (record {
        parser = record { buffer = dropped; tables = tables 2 0 };
        written = fives;
        decoded = fives;
      })
      (record { buffer = idle-Ready.buffer; tables = double-Ready.tables }) idle-Holds
      backward_calls

abbrev idle_buckets : BucketHash.Dictionary
idle_buckets = record { buffer = idle.buffer; hash = four_buckets }

-- the table with two positions of the word, and one that was there
abbrev entries : (first second other : ℕ) → BucketHash.BucketHash
entries first second other = record four_buckets {
  buckets =
      record { position = first; value = 1285 }
      ∷ record { position = second; value = 1285 }
      ∷ empty
      ∷ empty
      ∷ record { position = other; value = 7 }
      ∷ empty
      ∷ empty
      ∷ empty
      ∷ [];
}

bucket_write :
    bucket_parser.write tight idle_buckets fives
    ≡ some (record { buffer = filled; hash = four_buckets }, 5, none)
unfolding bucket_parser write_with ParserBuffer.write ParserBuffer.ensure ParserBuffer.put
bucket_write = refl

bucket_parse :
    BucketParser.parse (record { buffer = filled; hash = four_buckets }) false
    ≡ some (record { buffer = record filled { w = 5 }; hash = entries 2 3 1 }, block, 5, none)
unfolding lz.BucketParser.same_byte lz.BucketParser.longer lz.BucketParser.round
    lz.BucketParser.search_bucket lz.BucketParser.find lz.BucketParser.fill lz.BucketParser.searcher
    lz.BucketParser.search lz.BucketParser.parse lz.BucketHash.bucket lz.BucketHash.add
    lz.BucketHash.add_word lz.BucketHash.add_range lz.BucketHash.process_segment lz.Matching.word_at
    lz.Matching.extend lz.Matching.match_len lz.Matching.look_up lz.Matching.match_with
    lz.Matching.candidate lz.Matching.add_up_to lz.Matching.extend_back lz.Matching.go_back
    lz.Greedy.emit lz.Greedy.scan lz.Greedy.trailing lz.Greedy.block_size lz.Greedy.parse
    lz.Greedy.min_match_len lz.Greedy.single lz.Bytes.get_le64_fast lz.Bytes.get_le32_fast
    lz.Bytes.get_le64 lz.Bytes.trailing_zeros lz.Bytes.lcp_tail lz.Bytes.lcp_half lz.Bytes.lcp_loop
    lz.Bytes.lcp lz.Bytes.leading_zeros lz.Bytes.lcs_head lz.Bytes.lcs_loop lz.Bytes.lcs_ordered
    lz.Bytes.lcs lz.Hash.hash_value lz.Hash.store lz.Hash.add lz.Hash.add_range lz.Hash.masked
    lz.Hash.process_segment lz.Slices.slice_to lz.Slices.slice_from lz.Slices.slice_last
bucket_parse = refl

bucket_shrink :
    BucketHash.shrink_dictionary (record { buffer = record filled { w = 5 }; hash = entries 2 3 1 })
    ≡ some (record { buffer = dropped; hash = entries 1 2 0 }, 1)
unfolding lz.BucketHash.bucket lz.BucketHash.moved lz.BucketHash.shift_bucket
    lz.BucketHash.shift_buckets lz.BucketHash.shift_offsets lz.BucketHash.after_shrink
    lz.BucketHash.shrink_dictionary lz.ParserBuffer.shrink lz.Slices.slice_from lz.Slices.slice_to
    lz.Prelude.Int.◌+ℤ◌
bucket_shrink = refl

bucket_calls :
    Reaches bucket_parser
      (record { parser = idle_buckets; written = []; decoded = [] })
      (record {
        parser = record { buffer = dropped; hash = entries 1 2 0 };
        written = fives;
        decoded = fives;
      })
unfolding decode expand_all expand copy literals_left bucket_parser
bucket_calls =
    then (then (then here (wrote fives-AreBytes bucket_write)) (parsed bucket_parse))
      (shrunk bucket_shrink)

bucket-session_lem_example : (rest : Bytes) × (fives ++ rest ≡ fives)
bucket-session_lem_example =
    bucket-session_lem idle_buckets
      (record {
        parser = record { buffer = dropped; hash = entries 1 2 0 };
        written = fives;
        decoded = fives;
      })
      (record { buffer = idle-Ready.buffer; table = four_buckets-AreBuckets }) idle-Holds
      bucket_calls
