-- ===== src/Tests/Data.antt =====
-- The inputs of the tests: a decoder buffer with a window of four bytes that holds the end of a text
-- of four, a writer that keeps what it gets, and a parser buffer.
use lz.Prelude.{refl, sym, ap, arith, none, [], ◌∷◌, ◌++◌, length, take-all}
use lz.Prelude.Int.{pos}
use lz.Lz.{Bytes, Block}
use lz.Slices.{Growth}
use lz.Decoder.Buffer.{Buffer, Writer, IsWriter}
use lz.Decoder.Buffer.Shrink.{Holds}
use lz.Decoder.Stream.{Decoder}
use lz.Decoder.Stream.Loops.{Serves}
use lz.ParserBuffer.{ParserBuffer}
use lz.ParserBuffer.Text as Parser

-- grows to just what is needed
abbrev pub tight : Growth
tight = record { grow = λ old needed. needed; grow_room = λ old needed. omega arith }

abbrev pub four : Bytes
four = 9 ∷ 1 ∷ 2 ∷ 3 ∷ []

abbrev pub small : Buffer
small = record {
  slice = record { bytes = 1 ∷ 2 ∷ 3 ∷ []; cap = 8 };
  r = 2;
  off = pos 4;
  window_size = 3;
  buffer_size = 8;
}

-- its first byte is gone
pub small-Holds : Holds four 3 small
small-Holds = record {
  gone = 9 ∷ [];
  whole = refl;
  reads = omega arith;
  kept = ground arith;
  valid = ground arith;
}

abbrev pub keep : Writer
keep = record { State = Bytes; write = λ st p. (length p, none, st ++ p) }

abbrev pub keep-IsWriter : IsWriter keep
keep-IsWriter = record {
  received = λ st. st;
  front = λ st p. omega arith;
  short = λ st p ok. refl;
  took = λ st p. ap (λ q. st ++ q) (sym (take-all (length p) p (omega arith)));
}

abbrev pub stream : Decoder keep
stream = record { buf = small; sink = 9 ∷ 1 ∷ 2 ∷ [] }

pub stream-Serves : Serves keep keep-IsWriter four stream
stream-Serves = record { holds = small-Holds; sent = refl }

-- two literals, a match that overlaps itself, and a literal behind
abbrev pub overlapping : Block
overlapping = record {
  sequences = record { lit_len = 2; match_len = 3; offset = 2; aux = 0 } ∷ [];
  literals = 7 ∷ 8 ∷ 5 ∷ [];
}

abbrev pub window : ParserBuffer
window = record {
  data_bytes = 1 ∷ 2 ∷ 3 ∷ [];
  spare = 0 ∷ 0 ∷ 0 ∷ 0 ∷ 0 ∷ 0 ∷ 0 ∷ 0 ∷ [];
  w = 2;
  off = pos 1;
  shrink_size = 1;
  buffer_size = 5;
  window_size = 4;
  block_size = 2;
}

pub window-IsValid : Parser.IsValid window
window-IsValid = ground arith

abbrev pub window-Holds : Parser.Holds four 3 window
window-Holds = record {
  gone = 9 ∷ [];
  whole = refl;
  offset = refl;
  at_head = omega arith;
  valid = window-IsValid;
}
