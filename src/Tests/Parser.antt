-- ===== src/Tests/Parser.antt =====
-- The parser buffer that holds the end of four bytes.
use lz.Prelude.{◌≡◌, none, some, [], ◌∷◌, ◌++◌}
use lz.Prelude.Int.{pos}
use lz.Lz.{Error}
use lz.ParserBuffer.{ParserBuffer, write, shrink, byte_at, cap_of}
use lz.ParserBuffer.Text.{Holds, SameSizes, buffer-write_lem, shrink_lem}
use lz.ParserBuffer.Lookup.{byte_at-end}
use lz.Tests.Data.{tight, four, window, window-Holds}

buffer-write_lem_example :
    (b' : ParserBuffer) × (write tight window (4 ∷ 5 ∷ 6 ∷ [])
      ≡ some (b', 2, some Error.err_full_buffer))
    × Holds (four ++ 4 ∷ 5 ∷ []) 3 b'
    × SameSizes window b'
buffer-write_lem_example = buffer-write_lem tight (4 ∷ 5 ∷ 6 ∷ []) window-Holds

shrink_lem_example :
    (b' : ParserBuffer) × (shrink window ≡ some (b', 1))
    × Holds four 3 b'
    × (b'.w ≡ 1)
    × (cap_of b' ≡ 11)
    × SameSizes window b'
shrink_lem_example = shrink_lem window-Holds

byte_at-end_example : byte_at window (pos 4) ≡ none
byte_at-end_example = byte_at-end window-Holds
