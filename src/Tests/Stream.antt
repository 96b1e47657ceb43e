-- ===== src/Tests/Stream.antt =====
-- The decoder in front of a writer that keeps what it gets.
use lz.Prelude.{◌≡◌, refl, arith, [], ◌∷◌, ◌++◌}
use lz.Lz.{Bytes}
use lz.Decoder.Stream.{unfinished, write}
use lz.Decoder.Stream.Loops.{WriteRun, stream-write_lem, stream-write_hangs}
use lz.Tests.Data.{tight, four, keep, keep-IsWriter, stream, stream-Serves}

abbrev five : Bytes
five = 1 ∷ 2 ∷ 3 ∷ 4 ∷ 5 ∷ []

stream-write_lem_example :
    WriteRun keep keep-IsWriter four stream five 0 (write keep tight 2 stream five 0)
stream-write_lem_example =
    stream-write_lem keep keep-IsWriter tight 0 five 0 stream-Serves (omega arith)

stream-write_hangs_example : write keep tight 100 stream (five ++ five) 0 ≡ unfinished
stream-write_hangs_example =
    stream-write_hangs keep keep-IsWriter tight (λ st q. refl) 100 (five ++ five) 0 stream-Serves
      (omega arith) (omega arith)
