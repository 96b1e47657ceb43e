-- ===== src/Lib.antt =====
-- A verification library for the Lempel-Ziv 77 package lz: its decoder, and its
-- parsers with the buffer that they share.
--
-- Parsers turn text into blocks, that is sequences (literals to copy, then a match to copy from the
-- window) with their literals; decoders turn blocks back into the text. A block's meaning is
-- `Spec.decode`: byte-by-byte decoding over the whole text so far, with no window and no buffer.
--
-- Prelude      shared names, operators, lists, options, signed integers.
-- Bits         laws of the bit operations on numbers.
-- Ints         ints.go: `doz` and `min` on signed integers, with their bit mask.
-- Lz           lz.go: `Seq`, `Block`, the lengths, the error values.
-- Spec         what a block means, and the laws of copying.
-- Slices       Go slices: slice expressions that panic, `append` and capacities.
-- Config       lz.go: `BufConfig` with its defaults and its check.
-- Bytes        bytes.go: words of bytes, and the common prefix of two slices.
-- Hash         hash.go: the hash table, its configuration, and a parser buffer with a table.
-- Greedy       hp.go, bhp.go, dhp.go, bdhp.go, bup.go: the frame, the main loop and the written sequences
--              that the `Parse` methods share, over the search for a match as a parameter.
-- Matching     the same files: reading an entry, comparing the bytes, adding entries.
-- HashParser   hp.go: the greedy `Parse` over one table.
-- BackwardParser  bhp.go: the same, with matches that are made longer at the front.
-- DoubleHash   hash.go: the parser buffer with two tables.
-- DoubleParser dhp.go: the greedy `Parse` over two tables, in two loops.
-- BackwardDoubleParser  bdhp.go: the same, with matches that are made longer at the front.
-- BucketHash   bucket_hash.go: the table of buckets, and a parser buffer with one.
-- BucketParser bup.go: the greedy `Parse` over buckets.
-- Decoder      decoder_buffer.go: `DecoderConfig` (Config), `DecoderBuffer` (Buffer), `Decoder` (Stream).
--              `WriteMatch` and `WriteBlock` share their copying loop (`copy_match`) and the making of room
--              (`reserve`); `WriteByte`, `Write` and the end of `WriteBlock` share the test `fit`.
-- ParserBuffer parser_buffer.go: the buffer that the parsers embed, with the memory behind its data.
-- Bitset       bitset.go: a set of numbers as words, with the array that the slices share.
-- Suffix       suffix/lcp.go: the inverse of a suffix array and the table of common prefixes.
-- Segments     suffix/segments.go: the stack of the groups of suffixes with bytes in common.
-- OptSuffixParser  osap.go: the parser that chooses among the matches of all segments by their costs.
-- SuffixParser gsap.go: the greedy parser over a suffix array, which is a parameter.
-- Session      lz.go: the interface `Parser`; calls of `Write`, of `Parse` with a block and of `Shrink`
--              in any order, as a step relation on the parser, the text written to it and the text decoded from its blocks.
-- Tests        the theorems at concrete inputs, and runs of the functions.
--
-- A method that changes its receiver returns the new state beside its results. A panic is `none`, and
-- `panicked` in the loops of `Decoder`, which tell it from the end of the fuel. An error is a value of `Lz.Error`; errors made by `fmt.Errorf` are told apart by the setting they name.
-- A Go `int` is a number where it cannot be negative, else an integer; sizes stay far below 2 ^ 63
-- (the configurations refuse more than 2 ^ 32 - 1), so that sums do not overflow. `uint32` fields
-- of a sequence are only compared and added after conversion to 64 bits, so that they do not wrap.
--
-- A buffer is related to the text that was written to it by a record `Holds`: the data are an end of
-- the text, and long enough to contain the window. The copying loop of a match of length m takes fuel
-- m + 1, since each round copies a byte at least. The retry loops of `Decoder` take fuel too: two rounds
-- are enough for what fits beside the window, and no fuel is enough for a slice that is larger than
-- the buffer. The loops of `lcp`, of `lcs` and of the extension of a match take eight bytes off a slice in each
-- round, with its length as fuel; the main loop of `Parse` raises its index, with the size of the block
-- as fuel. The path of `shortestPath`
-- is traced back with one round more than the block has bytes, since each step goes back by a byte at
-- least. `ReadFrom` takes fuel since a reader may return nothing for ever.
--
-- The writer behind a `Decoder` and the reader of `ReadFrom` are parameters, with the documented
-- behaviour of `io.Writer` and `io.Reader` as a record of laws. So is the runtime's choice of a
-- capacity when `append` grows a slice, and so are `suffix.Sort` and `slices.Sort`.
--
-- Not modelled: `WrappedParser`, suffix sorting, and the JSON form of configurations, which goes through reflection.
pub mod Prelude
pub mod Bits
pub mod Ints
pub mod Lz
pub mod Spec
pub mod Slices
pub mod Config
pub mod Bytes
pub mod ParserBuffer
pub mod Hash
pub mod Greedy
pub mod Matching
pub mod HashParser
pub mod BackwardParser
pub mod DoubleHash
pub mod DoubleParser
pub mod BackwardDoubleParser
pub mod BucketHash
pub mod BucketParser
pub mod Bitset
pub mod Suffix
pub mod Segments
pub mod SuffixParser
pub mod OptSuffixParser
pub mod Session
pub mod Decoder
pub mod Tests
