-- ===== src/Session.antt =====
-- The methods of the interface `Parser` of lz.go together: what a user of a parser may do with it, in any
-- order. The methods that move data are those of the embedded `ParserBuffer`, with the changes that a
-- parser makes to them.
pub mod Buffer
pub mod Run
pub mod Embed
pub mod Parsers
use lz.Prelude.{ℕ, Bool, Option, none, some, ◌++◌, take, ◌≡◌, ◌>>=◌}
use lz.Lz.{Bytes, Block, Error}
use lz.Slices.{Growth}
use lz.Bytes.Prefix.{AreBytes}
use lz.Spec.{decode}
use lz.ParserBuffer
use lz.ParserBuffer.{ParserBuffer}

-- `Parse` with a block, `Write` and `Shrink` of the interface `Parser`
pub record Parser (F : Type 0) : Type 0 where
  pub buffer : F → ParserBuffer
  pub parse : F → Bool → Option (F × Block × ℕ × Option Error)
  pub write : Growth → F → Bytes → Option (F × ℕ × Option Error)
  pub shrink : F → Option (F × ℕ)

-- A parser, the text that was written to it, and what a decoder has made of its blocks.
pub record State (F : Type 0) : Type 0 where
  pub parser : F
  pub written : Bytes
  pub decoded : Bytes

-- One call: `Write` accepts the front of a slice, `Parse` gives the next block or reports the end of
-- the data, `Shrink` drops data.
pub data Step {F : Type 0} (s : Parser F) : State F → State F → Type 0 where
  wrote :
      {f f' : F} {text out : Bytes} {gr : Growth} {p : Bytes} {n : ℕ} {e : Option Error}
      → AreBytes p
      → s.write gr f p ≡ some (f', n, e)
      → Step s
          (record { parser = f; written = text; decoded = out })
          (record { parser = f'; written = text ++ take n p; decoded = out })
  parsed :
      {f f' : F} {text out : Bytes} {no_literals : Bool} {blk : Block} {n : ℕ}
      → s.parse f no_literals ≡ some (f', blk, n, none)
      → Step s
          (record { parser = f; written = text; decoded = out })
          (record { parser = f'; written = text; decoded = decode blk out })
  refused :
      {f f' : F} {text out : Bytes} {no_literals : Bool} {blk : Block} {n : ℕ} {e : Error}
      → s.parse f no_literals ≡ some (f', blk, n, some e)
      → Step s
          (record { parser = f; written = text; decoded = out })
          (record { parser = f'; written = text; decoded = out })
  shrunk :
      {f f' : F} {text out : Bytes} {n : ℕ}
      → s.shrink f ≡ some (f', n)
      → Step s
          (record { parser = f; written = text; decoded = out })
          (record { parser = f'; written = text; decoded = out })

-- Any number of calls
pub data Reaches {F : Type 0} (s : Parser F) (a : State F) : State F → Type 0 where
  here : Reaches s a a
  then : {b c : State F} → Reaches s a b → Step s b c → Reaches s a c

-- `Write` of a parser that embeds its buffer
unfoldable pub write_with :
    {F : Type 0}
    → (buffer : F → ParserBuffer) → (set : F → ParserBuffer → F) → Growth
    → F
    → Bytes
    → Option (F × ℕ × Option Error)
write_with buffer set gr f p =
    ParserBuffer.write gr (buffer f) p >>= (λ (b, n, e). some (set f b, n, e))

-- `Shrink` of a parser that embeds its buffer: `after` does the rest, with the new buffer and `delta`.
unfoldable pub shrink_with :
    {F : Type 0}
    → (buffer : F → ParserBuffer) → (after : F → ParserBuffer → ℕ → Option (F × ℕ)) → F
    → Option (F × ℕ)
shrink_with buffer after f = ParserBuffer.shrink (buffer f) >>= (λ (b, delta). after f b delta)
