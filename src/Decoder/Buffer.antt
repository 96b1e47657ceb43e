-- ===== src/Decoder/Buffer.antt =====
-- `DecoderBuffer` of decoder_buffer.go. A method that updates `*b` returns the new buffer beside its
-- results; `none` is a panic.
pub mod Shrink
pub mod Room
pub mod Write
pub mod Refine
pub mod Sequences
pub mod Blocks
pub mod Read
use lz.Prelude.{
  ℕ, zero, suc, ◌+◌, ◌-◌, ◌*◌, ◌≤◌, ◌<◌, ◌≡◌, Bool, true, false, ◌&&◌, Option, none, some, ◌>>=◌,
  List, [], ◌∷◌, ◌++◌, length, take, drop, get_or, ltb, leb, ◌==◌, if◌then◌else◌,
}
use lz.Prelude.Int.{ℤ, pos, negsuc, ◌+ℤ◌, ◌-ℤ◌, pos_part}
use lz.Ints.{doz}
use lz.Lz.{Bytes, Seq, Block, Error}
use lz.Slices.{Growth, Slice, append, slice_from, slice_to, slice_last}
use lz.Decoder.Config
use lz.Decoder.Config.{Config}

-- `slice.bytes` is `Data` and `slice.cap` its capacity. The sizes of the embedded `DecoderConfig` are
-- not negative once `Verify` has passed them, hence numbers. `Off` is an `int64` that counts bytes.
pub record Buffer : Type 0 where
  pub slice : Slice
  pub r : ℕ
  pub off : ℤ
  pub window_size : ℕ
  pub buffer_size : ℕ

abbrev pub data_of : Buffer → Bytes
data_of b = b.slice.bytes

-- what `Init` and `Reset` make of the old slice and the sizes
unfoldable pub fresh : Slice → ℕ → ℕ → Buffer
fresh s window size = record {
  slice = record { bytes = []; cap = s.cap };
  r = 0;
  off = pos 0;
  window_size = window;
  buffer_size = if ltb size s.cap then s.cap else size;
}

-- The buffer is unchanged where an error is returned.
unfoldable pub init : Buffer → Config → Buffer × Option Error
init b cfg =
    let c = Config.set_defaults cfg in
    elim (Config.verify c) [
      | some e ↦ (b, some e)
      | none ↦ (fresh b.slice (pos_part c.window_size) (pos_part c.buffer_size), none)
    ]

unfoldable pub reset : Buffer → Buffer
reset b = fresh b.slice b.window_size b.buffer_size

-- `i := len(b.Data) - off` is negative if `off` exceeds the length, and the length if `off` is
-- not positive; both give 0.
unfoldable pub byte_at_end : Buffer → ℤ → ℕ
byte_at_end b (pos zero) = 0
byte_at_end b (pos (suc n)) =
    if leb (suc n) (length (data_of b))
    then get_or (data_of b) (length (data_of b) - suc n) 0
    else 0
byte_at_end b (negsuc n) = 0

-- `Read`, into a slice of length `len`: the bytes copied, whose number is the `n` returned.
unfoldable pub read : Buffer → ℕ → Option (Buffer × Bytes)
read b len = do
  rest ← slice_from b.r (data_of b)
  let p = take len rest
  some (record b { r = b.r + length p }, p)

-- An `io.Writer`: the state it is in, and what it answers to a `Write`.
pub record Writer : Type 1 where
  pub State : Type 0
  pub write : State → Bytes → ℕ × Option Error × State

unfoldable pub write_to :
    (w : Writer) → Buffer → w.State → Option (Buffer × ℕ × Option Error × w.State)
write_to w b st = do
  p ← slice_from b.r (data_of b)
  let out = w.write st p
  some (record b { r = b.r + out.0 }, out.0, out.1, out.2)

-- What the documentation of `io.Writer` says of a writer, with the bytes that it took so far: it
-- takes a front part of what it is given, and all of it if it returns no error.
pub record IsWriter (w : Writer) : Type 0 where
  pub received : w.State → Bytes
  pub front : (st : w.State) (p : Bytes) → (w.write st p).0 ≤ length p
  pub short : (st : w.State) (p : Bytes) → (w.write st p).1 ≡ none → (w.write st p).0 ≡ length p
  pub took :
      (st : w.State) (p : Bytes)
      → received ((w.write st p).2) ≡ received st ++ take (w.write st p).0 p

-- the second half of `shrink`: bytes that were read and lie before the window go
unfoldable pub slide : Buffer → Buffer × ℕ
slide b =
    let d = pos_part (doz (pos (length (data_of b))) (pos b.window_size)) in
    let delta = if ltb b.r d then b.r else d in
    if delta == 0 then (b, 0) else (
      record b {
        slice = record { bytes = drop delta (data_of b); cap = b.slice.cap };
        r = b.r - delta;
      },
      delta,
    )

unfoldable pub shrink : Buffer → ℕ → Buffer × ℕ
shrink b g =
    if ltb b.buffer_size b.slice.cap
    then (let b' = record b { buffer_size = b.slice.cap } in
        if leb g b'.buffer_size then (b', 0) else slide b')
    else slide b

-- `b.Data = append(b.Data, p...)`
unfoldable pub put : Growth → Buffer → Bytes → Buffer
put gr b p = record b { slice = append gr b.slice p }

-- The test of `WriteByte` and `Write`, for a total length `g`: the buffer, shrunk if need be, and
-- whether the bytes fit. `g -= b.shrink(g)` is compared with the size that `shrink` leaves.
unfoldable pub fit : Buffer → ℕ → Buffer × Bool
fit b g =
    if ltb b.buffer_size g
    then (let (b', delta) = shrink b g in (b', leb (g - delta) b'.buffer_size))
    else (b, true)

unfoldable pub write_byte : Growth → Buffer → ℕ → Buffer × Option Error
write_byte gr b c =
    let (b', ok) = fit b (length (data_of b) + 1) in
    if ok
    then (record (put gr b' (c ∷ [])) { off = b'.off +ℤ pos 1 }, none)
    else (b', some Error.err_full_buffer)

unfoldable pub write : Growth → Buffer → Bytes → Buffer × ℕ × Option Error
write gr b p =
    let (b', ok) = fit b (length (data_of b) + length p) in
    if ok
    then (record (put gr b' p) { off = b'.off +ℤ pos (length p) }, length p, none)
    else (b', 0, some Error.err_full_buffer)

-- `j := len(b.Data) - off; b.Data = append(b.Data, b.Data[j:j+n]...)`, for `n <= off`
unfoldable pub copy_rest : Growth → Buffer → ℕ → ℕ → Option Buffer
copy_rest gr b n off = do p ← slice_last off (data_of b); q ← slice_to n p; some (put gr b q)

-- The copying loop of `WriteMatch` and `WriteBlock`. In each round the last `off` bytes are appended
-- once more and `off` doubles; the rest, `n <= off` bytes, is appended in one piece. A round takes
-- at least one byte off `n`.
unfoldable pub copy_match : ℕ → Growth → Buffer → ℕ → ℕ → Option Buffer
copy_match zero gr b n off = none
copy_match (suc fuel) gr b n off =
    let round = slice_last off (data_of b) >>= (λ p.
      let b' = put gr b p in
      let more = copy_match fuel gr b' (n - off) (2 * off) in
      if leb (n - off) off then copy_rest gr b' (n - off) off else more) in
    if ltb off n then round else copy_rest gr b n off

-- The room that `WriteMatch` and `WriteBlock` make for `g` bytes. Their `a` is what is left of
-- `BufferSize`, taken before `shrink`: `g > a` is `BufferSize < g + len`, and after `a += delta` it is
-- `BufferSize + delta < g + len` with the old size and length.
unfoldable pub reserve : Buffer → ℕ → Buffer × Option Error
reserve b g =
    if ltb b.buffer_size (g + length (data_of b))
    then if ltb b.window_size g
      then (b, some Error.err_match_len)
      else (let (b', delta) = shrink b (g + length (data_of b)) in
          if ltb (b.buffer_size + delta) (g + length (data_of b))
          then (b', some Error.err_full_buffer)
          else (b', none))
    else (b, none)

-- `winLen`, for `len` bytes of text
unfoldable pub win_len : Buffer → ℕ → ℕ
win_len b len = if ltb b.window_size len then b.window_size else len

-- `n` is 0 where an error is returned.
unfoldable pub write_match : Growth → Buffer → ℕ → ℕ → Option (Buffer × ℕ × Option Error)
write_match gr b m o =
    if o == 0 && ltb 0 m
    then some (b, 0, some Error.err_offset)
    else if ltb (win_len b (length (data_of b))) o
    then some (b, 0, some Error.err_offset)
    else let (b', e) = reserve b m in
      elim e [
        | some err ↦ some (b', 0, some err)
        | none ↦
            copy_match (suc m) gr b' m o
            >>= (λ b''. some (record b'' { off = b''.off +ℤ pos m }, m, none))
      ]

-- One round of the loop of `WriteBlock`: the buffer, the literals that are left, and the error.
unfoldable pub write_seq : Growth → Buffer → Bytes → Seq → Option (Buffer × Bytes × Option Error)
write_seq gr b lits s =
    if ltb (length lits) s.lit_len
    then some (b, lits, some Error.err_lit_len)
    else if s.offset == 0 && ltb 0 s.match_len
    then some (b, lits, some Error.err_offset)
    else if ltb (win_len b (length (data_of b) + s.lit_len)) s.offset
    then some (b, lits, some Error.err_offset)
    else let (b', e) = reserve b (s.lit_len + s.match_len) in
      elim e [
        | some err ↦ some (b', lits, some err)
        | none ↦ do
          p ← slice_to s.lit_len lits
          rest ← slice_from s.lit_len lits
          b'' ← copy_match (suc s.match_len) gr (put gr b' p) s.match_len s.offset
          some (b'', rest, none)
      ]

-- The loop: `k` counts the sequences written.
unfoldable pub write_seqs :
    Growth → Buffer → Bytes → List Seq → ℕ → Option (Buffer × Bytes × ℕ × Option Error)
write_seqs gr b lits [] k = some (b, lits, k, none)
write_seqs gr b lits (s ∷ ss) k = do
  (b', lits', e) ← write_seq gr b lits s
  elim e [ some err ↦ some (b', lits', k, some err) | none ↦ write_seqs gr b' lits' ss (k + 1) ]

-- What `WriteBlock` returns beside the buffer: bytes, sequences and literals written, and the error.
pub record Written : Type 0 where
  pub n : ℤ
  pub k : ℕ
  pub l : ℕ
  pub error : Option Error

-- the part behind the label `end`: `ld` and `ll` are the lengths of the data and the literals at the
-- start, `b` and `lits` the state reached
unfoldable pub finish : ℕ → ℕ → Buffer → Bytes → ℕ → Option Error → Buffer × Written
finish ld ll b lits k e =
    let n = pos (length (data_of b)) -ℤ pos ld in
    (record b { off = b.off +ℤ n }, record { n = n; k = k; l = ll - length lits; error = e })

unfoldable pub write_block : Growth → Buffer → Block → Option (Buffer × Written)
write_block gr b blk = write_seqs gr b blk.literals blk.sequences 0 >>= (λ out.
    let (b', lits, k, e) = out in
    let end = finish (length (data_of b)) (length blk.literals) in
    elim e [
      | some err ↦ some (end b' lits k (some err))
      | none ↦
          let (b'', ok) = fit b' (length (data_of b') + length lits) in
          if ok
          then some (end (put gr b'' lits) [] k none)
          else some (end b'' lits k (some Error.err_full_buffer))
    ])
