-- ===== src/ParserBuffer.antt =====
-- `ParserBuffer` of parser_buffer.go. A method that updates `*b` returns the new buffer beside its
-- results; `none` is a panic. The hash parsers read up to seven bytes behind the data, so the memory
-- there is part of the state.
pub mod Text
pub mod Lookup
pub mod Start
use lz.Prelude.{
  ℕ, zero, suc, ◌+◌, ◌-◌, ◌*◌, ◌^◌, ◌≤◌, ◌≡◌, Bool, true, false, not, ◌&&◌, Option, none, some,
  ◌>>=◌, List, [], ◌∷◌, ◌++◌, length, take, drop, replicate, get_elem?, ltb, leb, ◌==◌,
  if◌then◌else◌,
}
use lz.Prelude.Int.{ℤ, pos, negsuc, ◌+ℤ◌, ◌-ℤ◌, ltb_ℤ, pos_part}
use lz.Ints
use lz.Lz.{Bytes, Error}
use lz.Slices.{Growth, slice_from, slice_to}
use lz.Config.{le_ℤ}
use lz.Config.Buffer as BufConfig
use lz.Config.Buffer.{BufConfig}

-- `data` is `Data`, and `spare` the rest of the array behind it, up to the capacity. The sizes of the
-- embedded `BufConfig` are not negative once `Verify` has passed them. `Off` is an `int64`.
pub record ParserBuffer : Type 0 where
  pub data_bytes : Bytes
  pub spare : Bytes
  pub w : ℕ
  pub off : ℤ
  pub shrink_size : ℕ
  pub buffer_size : ℕ
  pub window_size : ℕ
  pub block_size : ℕ

-- `cap(b.Data)`
abbrev pub cap_of : ParserBuffer → ℕ
cap_of b = length b.data_bytes + length b.spare

-- the array, whatever part of it `Data` is
abbrev pub memory : ParserBuffer → Bytes
memory b = b.data_bytes ++ b.spare

unfoldable pub init : ParserBuffer → BufConfig → ParserBuffer × Option Error
init b cfg =
    let c = BufConfig.set_defaults cfg in
    elim (BufConfig.verify c) [
      | some e ↦ (b, some e)
      | none ↦ (
        record {
          data_bytes = [];
          spare = memory b;
          w = 0;
          off = pos 0;
          shrink_size = pos_part c.shrink_size;
          buffer_size = pos_part c.buffer_size;
          window_size = pos_part c.window_size;
          block_size = pos_part c.block_size;
        },
        none,
      )
    ]

-- `Reset`, with a slice that holds `p` and has the bytes `q` behind it up to its capacity
unfoldable pub reset : ParserBuffer → Bytes → Bytes → ParserBuffer × Option Error
reset b p q =
    if ltb b.buffer_size (length p)
    then (b, some Error.err_data_len)
    else if length p == 0
    then (record b { data_bytes = []; spare = memory b; w = 0; off = pos 0 }, none)
    else if ltb (length p + length q) (length p + 7)
    then if ltb (cap_of b) (length p + 7)
      then (record b { data_bytes = p; spare = replicate 7 0; w = 0; off = pos 0 }, none)
      else (
        record b { data_bytes = p; spare = drop (length p) (memory b); w = 0; off = pos 0 },
        none,
      )
    else (record b { data_bytes = p; spare = q; w = 0; off = pos 0 }, none)

-- `copy(b.Data, b.Data[delta:])` leaves the last `delta` bytes as they were behind the data.
unfoldable pub shrink : ParserBuffer → Option (ParserBuffer × ℕ)
shrink b =
    if leb b.w b.shrink_size
    then some (b, 0)
    else slice_from (b.w - b.shrink_size) b.data_bytes >>= (λ rest. some (
      record b {
        data_bytes = rest;
        spare = drop (length rest) b.data_bytes ++ b.spare;
        w = b.shrink_size;
        off = b.off +ℤ pos (b.w - b.shrink_size);
      },
      b.w - b.shrink_size,
    ))

-- `c`, the capacity that `grow` allocates
unfoldable pub grow_cap : ParserBuffer → ℕ → ℕ
grow_cap b t =
    let c = 2 * t + 7 in
    let c' = if ltb c 1024 then 1024 else c in
    if leb (b.buffer_size + 7) c' then b.buffer_size + 7 else c'

-- `make([]byte, len, c)` panics if `len` exceeds `c`.
unfoldable pub grow : ParserBuffer → ℕ → Option ParserBuffer
unfolding grow_cap
grow b t =
    if leb (t + 7) (cap_of b)
    then some b
    else if ltb (grow_cap b t) (length b.data_bytes)
    then none
    else some (record b { spare = replicate (grow_cap b t - length b.data_bytes) 0 })

-- `if t+7 > cap(b.Data) { b.grow(t) }`
unfoldable pub ensure : ParserBuffer → ℕ → Option ParserBuffer
unfolding grow
ensure b t = if ltb (cap_of b) (t + 7) then grow b t else some b

-- `b.Data = append(b.Data, p...)`
unfoldable pub put : Growth → ParserBuffer → Bytes → ParserBuffer
put gr b p =
    let needed = length b.data_bytes + length p in
    record b {
      data_bytes = b.data_bytes ++ p;
      spare =
          if leb needed (cap_of b)
          then drop (length p) b.spare
          else replicate (gr.grow (cap_of b) needed - needed) 0;
    }

-- `p = p[:available]` panics if `available` is negative.
unfoldable pub write : Growth → ParserBuffer → Bytes → Option (ParserBuffer × ℕ × Option Error)
unfolding ensure put
write gr b p =
    if ltb b.buffer_size (length b.data_bytes + length p)
    then if ltb b.buffer_size (length b.data_bytes) then none else (do
      q ← slice_to (b.buffer_size - length b.data_bytes) p
      b' ← ensure b (length b.data_bytes + length q)
      some (put gr b' q, length q, some Error.err_full_buffer))
    else (do b' ← ensure b (length b.data_bytes + length p); some (put gr b' p, length p, none))

-- An `io.Reader`: from its state and the slice it may fill, what the slice then holds, how many bytes
-- of it were read, the error, and the new state.
pub record Reader : Type 1 where
  pub State : Type 0
  pub read : State → Bytes → Bytes × ℕ × Option Error × State

pub record IsReader (r : Reader) : Type 0 where
  pub same : (st : r.State) (p : Bytes) → length ((r.read st p).0) ≡ length p
  pub front : (st : r.State) (p : Bytes) → (r.read st p).1 ≤ length p

abbrev pub chunk_size : ℕ
chunk_size = 32 * 2 ^ 10

-- One round of `ReadFrom` on a buffer that is not full: `p` is what lies between the data and seven
-- bytes before the capacity (a capacity below that panics).
unfoldable pub read_round :
    (r : Reader) → ParserBuffer → r.State → Option (ParserBuffer × Option Error × r.State)
unfolding ensure
read_round r b st = do
  b' ← ensure b (pos_part (Ints.min (pos (length b.data_bytes + chunk_size)) (pos b.buffer_size)))
  p ← (if ltb (length b'.spare) 7 then none else some (take (length b'.spare - 7) b'.spare))
  let out = r.read st p
  got ← slice_to out.1 out.0
  some (
    record b' {
      data_bytes = b'.data_bytes ++ got;
      spare = drop out.1 out.0 ++ drop (length b'.spare - 7) b'.spare;
    },
    out.2,
    out.3,
  )

-- A reader may return nothing and no error for ever, so the loop takes fuel.
unfoldable pub read_loop :
    (r : Reader) → ℕ → ParserBuffer → r.State → Option (ParserBuffer × Option Error × r.State)
unfolding read_round
read_loop r zero b st = none
read_loop r (suc fuel) b st =
    let round = read_round r b st >>= (λ (b', e, st'). elim e [
      | some err ↦ some (b', some err, st')
      | none ↦ read_loop r fuel b' st'
    ]) in
    if leb b.buffer_size (length b.data_bytes)
    then some (b, some Error.err_full_buffer, st)
    else round

-- `n` is the growth of the data.
unfoldable pub read_from :
    (r : Reader) → ℕ → ParserBuffer → r.State → Option (ParserBuffer × ℕ × Option Error × r.State)
unfolding read_loop
read_from r fuel b st =
    read_loop r fuel b st
    >>= (λ (b', e, st'). some (b', length b'.data_bytes - length b.data_bytes, e, st'))

-- The whole rest of the data from the total offset `off` on, and an error if it is shorter than `n`.
unfoldable pub peek_at : ParserBuffer → ℕ → ℤ → Bytes × Option Error
peek_at b n off =
    let i = off -ℤ b.off in
    if not (le_ℤ (pos 0) i && ltb_ℤ i (pos (length b.data_bytes)))
    then ([], some Error.err_out_of_buffer)
    else (let p = drop (pos_part i) b.data_bytes in
        (p, if ltb (length p) n then some Error.err_end_of_buffer else none))

-- `ReadAt`, into a slice of length `len`: the bytes copied
unfoldable pub read_at : ParserBuffer → ℕ → ℤ → Bytes × Option Error
unfolding peek_at
read_at b len off = let (q, e) = peek_at b len off in (take len q, e)

-- An index equal to the length passes the test and panics.
unfoldable pub byte_at : ParserBuffer → ℤ → Option (ℕ × Option Error)
byte_at b off =
    let i = off -ℤ b.off in
    let n = pos (length b.data_bytes) in
    if not (le_ℤ (pos 0) i && le_ℤ i n)
    then if le_ℤ i n && le_ℤ n i
      then some (0, some Error.err_end_of_buffer)
      else some (0, some Error.err_out_of_buffer)
    else get_elem? b.data_bytes (pos_part i) >>= (λ c. some (c, none))
