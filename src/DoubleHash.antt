-- ===== src/DoubleHash.antt =====
-- `doubleHashDictionary` of hash.go: a `ParserBuffer` with two hash tables, for two input lengths. A panic is
-- `none`.
pub mod Segment
use Prim.Native.Nat.{bit_and}
use lz.Prelude.{
  ℕ, zero, suc, ◌+◌, ◌-◌, ◌%◌, ◌^◌, Bool, not, Option, none, some, ◌>>=◌, length, take, ltb,
  if◌then◌else◌,
}
use lz.Prelude.Int.{ℤ, pos, ltb_ℤ}
use lz.Lz.{Bytes, Error, Setting}
use lz.Config.{is_zero}
use lz.Config.Buffer.{BufConfig}
use lz.ParserBuffer
use lz.ParserBuffer.{ParserBuffer, memory}
use lz.Hash
use lz.Hash.{Hash, Entry, HashConfig, hash_value, store, shift_offsets}
use lz.Matching.{word_at}

-- `dhConfig`
pub record DoubleConfig : Type 0 where
  pub c1 : HashConfig
  pub c2 : HashConfig

unfoldable pub set_defaults : DoubleConfig → DoubleConfig
set_defaults cfg =
    let c1 = Hash.set_defaults cfg.c1 in
    let longer = if ltb_ℤ c1.input_len (pos 5) then pos 6 else pos 8 in
    let c2 = if is_zero cfg.c2.input_len then record cfg.c2 { input_len = longer } else cfg.c2 in
    record { c1 = c1; c2 = Hash.set_defaults c2 }

unfoldable pub verify : DoubleConfig → Option Error
verify cfg =
    let lengths =
      if not (ltb_ℤ cfg.c1.input_len cfg.c2.input_len)
      then some (Error.err_range Setting.input_lens)
      else none in
    let second : Option Error = elim (Hash.verify cfg.c2) [ some e ↦ some e | none ↦ lengths ] in
    elim (Hash.verify cfg.c1) [ some e ↦ some e | none ↦ second ]

pub record Tables : Type 0 where
  pub h1 : Hash
  pub h2 : Hash

pub record Dictionary : Type 0 where
  pub buffer : ParserBuffer
  pub tables : Tables

unfoldable pub init_tables : Tables → DoubleConfig → Tables × Option Error
init_tables t cfg =
    let (h1, e1) = Hash.init t.h1 cfg.c1 in
    let (h2, e2) = Hash.init t.h2 cfg.c2 in
    let second : Tables × Option Error = elim e1 [
      | some e ↦ (record t { h1 = h1 }, some e)
      | none ↦ (record { h1 = h1; h2 = h2 }, e2)
    ] in
    elim (verify cfg) [ some e ↦ (t, some e) | none ↦ second ]

unfoldable pub init : Dictionary → DoubleConfig → BufConfig → Dictionary × Option Error
init f cfg bcfg =
    let (b, e) = ParserBuffer.init f.buffer bcfg in
    let (t, e') = init_tables f.tables (set_defaults cfg) in
    elim e [
      | some err ↦ (record f { buffer = b }, some err)
      | none ↦ (record { buffer = b; tables = t }, e')
    ]

-- `Reset`, which is that of the embedded `ParserBuffer`. The tables stay as they are.
unfoldable pub reset : Dictionary → Bytes → Bytes → Dictionary × Option Error
reset f p q = let (b, e) = ParserBuffer.reset f.buffer p q in (record f { buffer = b }, e)

-- `Shrink` behind that of the buffer, where `delta` bytes were dropped
unfoldable pub after_shrink : Dictionary → ParserBuffer → (delta : ℕ) → Option (Dictionary × ℕ)
after_shrink f b delta = some (
  record {
    buffer = b;
    tables =
        if ltb 0 delta
        then record {
          h1 = shift_offsets f.tables.h1 (delta % 2 ^ 32);
          h2 = shift_offsets f.tables.h2 (delta % 2 ^ 32);
        }
        else f.tables;
  },
  delta,
)

unfoldable pub shrink : Dictionary → Option (Dictionary × ℕ)
shrink f = ParserBuffer.shrink f.buffer >>= (λ (b, delta). after_shrink f b delta)

-- `table[hashValue(x & mask, shift)] = e`
unfoldable pub put_entry : Hash → (x : ℕ) → Entry → Option Hash
put_entry h x e =
    store h.table (hash_value (bit_and x h.mask) h.shift) e >>= (λ t. some (record h { table = t }))

-- The entry of the whole word, whose bytes behind the input are not masked
abbrev pub whole : (i x : ℕ) → Entry
whole i x = record { position = i % 2 ^ 32; value = x % 2 ^ 32 }

-- The first loop of `processSegment` puts each word in both tables, the second one in the first.
unfoldable pub segment_both : Tables → Bytes → (i n : ℕ) → Option Tables
segment_both t p i zero = some t
segment_both t p i (suc n) = word_at p i >>= (λ x. put_entry t.h1 x (whole i x) >>= (λ h1.
    put_entry t.h2 x (whole i x)
    >>= (λ h2. segment_both (record { h1 = h1; h2 = h2 }) p (i + 1) n)))

unfoldable pub segment_one : Hash → Bytes → (i n : ℕ) → Option Hash
segment_one h p i zero = some h
segment_one h p i (suc n) =
    word_at p i >>= (λ x. put_entry h x (whole i x) >>= (λ h'. segment_one h' p (i + 1) n))

-- the end of the words of a segment up to `b`, for inputs of `l` bytes in `size` bytes
unfoldable pub segment_end : (size b l : ℕ) → ℕ
segment_end size b l = if ltb (size + 1 - l) b then size + 1 - l else b

-- `processSegment`, from `a` (0 where the source's is negative) to `b`. `f.Data[:b1+7]` may reach over the
-- data into the memory behind them.
unfoldable pub process_segment : Dictionary → (a b : ℕ) → Option Tables
process_segment f a b =
    let size = length f.buffer.data_bytes in
    let b1 = segment_end size b f.tables.h1.input_len in
    let b2 = segment_end size b f.tables.h2.input_len in
    let p = take (b1 + 7) (memory f.buffer) in
    let run =
      segment_both f.tables p a (b2 - a)
      >>= (λ t. segment_one t.h1 p b2 (b1 - b2) >>= (λ h1. some (record t { h1 = h1 }))) in
    if ltb (length (memory f.buffer)) (b1 + 7) then none else run
