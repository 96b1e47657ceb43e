-- ===== src/Hash.antt =====
-- hash.go: the hash table of a match finder, its configuration, and a `ParserBuffer` with a table. An
-- index out of range is a panic, `none`.
pub mod Config
pub mod Table
use Prim.Native.Nat.{bit_and}
use lz.Prelude.{
  ℕ, zero, suc, ◌+◌, ◌-◌, ◌*◌, ◌/◌, ◌%◌, ◌^◌, Bool, true, false, not, ◌&&◌, Option, none, some,
  ◌>>=◌, List, [], ◌∷◌, length, take, drop, replicate, get_elem?, ltb, leb, ◌==◌, if◌then◌else◌,
}
use lz.Prelude.Int.{ℤ, pos, negsuc, ltb_ℤ, pos_part}
use lz.Lz.{Bytes, Error, Setting}
use lz.Slices.{slice_from}
use lz.Config.{is_zero, in_range}
use lz.Config.Buffer.{BufConfig}
use lz.Bytes.{get_le64_fast}
use lz.ParserBuffer
use lz.ParserBuffer.{ParserBuffer, memory}

abbrev pub prime : ℕ
prime = 9920624304325388887

-- `hashValue`, with the product wrapped to 64 bits and the result to 32
unfoldable pub hash_value : ℕ → ℕ → ℕ
hash_value x shift = x * prime % 2 ^ 64 / 2 ^ shift % 2 ^ 32

-- `hashEntry`
pub record Entry : Type 0 where
  pub position : ℕ
  pub value : ℕ

abbrev pub empty : Entry
empty = record { position = 0; value = 0 }

pub record Hash : Type 0 where
  pub table : List Entry
  pub mask : ℕ
  pub shift : ℕ
  pub input_len : ℕ

-- `hashConfig`
pub record HashConfig : Type 0 where
  pub input_len : ℤ
  pub hash_bits : ℤ

unfoldable pub set_defaults : HashConfig → HashConfig
set_defaults cfg = record {
  input_len = if is_zero cfg.input_len then pos 3 else cfg.input_len;
  hash_bits = if is_zero cfg.hash_bits then pos 18 else cfg.hash_bits;
}

-- `maxHashBits`, for an input length in its range
unfoldable pub max_hash_bits : ℕ → ℕ
max_hash_bits n = if ltb (8 * n) 24 then 8 * n else 24

unfoldable pub verify : HashConfig → Option Error
unfolding max_hash_bits
verify cfg =
    if not (in_range (pos 2) cfg.input_len (pos 8))
    then some (Error.err_range Setting.input_len)
    else if not (in_range (pos 0) cfg.hash_bits (pos (max_hash_bits (pos_part cfg.input_len))))
    then some (Error.err_range Setting.hash_bits)
    else none

-- `hash.init` checks like `Verify`. Whether the old table is cleared or a new one made, it is empty.
-- `1<<(uint(inputLen)*8) - 1` on 64 bits
unfoldable pub init : Hash → HashConfig → Hash × Option Error
init h cfg = elim (verify cfg) [
  | some e ↦ (h, some e)
  | none ↦ (
    record {
      table = replicate (2 ^ pos_part cfg.hash_bits) empty;
      mask = (2 ^ (8 * pos_part cfg.input_len) % 2 ^ 64 + 2 ^ 64 - 1) % 2 ^ 64;
      shift = 64 - pos_part cfg.hash_bits;
      input_len = pos_part cfg.input_len;
    },
    none,
  )
]

unfoldable pub reset : Hash → Hash
reset h = record h { table = replicate (length h.table) empty }

-- the loop of `shiftOffsets`
unfoldable pub shift_entries : ℕ → List Entry → List Entry
shift_entries delta [] = []
shift_entries delta (e ∷ es) =
    (if ltb e.position delta then empty else record e { position = e.position - delta })
    ∷ shift_entries delta es

unfoldable pub shift_offsets : Hash → ℕ → Hash
unfolding shift_entries
shift_offsets h delta = if delta == 0 then h else record h { table = shift_entries delta h.table }

-- `table[i] = e`
unfoldable pub store {ℓ} : {A : Type ℓ} → List A → ℕ → A → Option (List A)
store [] i e = none
store (x ∷ t) zero e = some (e ∷ t)
store (x ∷ t) (suc i) e = store t i e >>= (λ t'. some (x ∷ t'))

-- The word at `i` of the slice `p`, masked: what is hashed, and the low half of which is kept.
unfoldable pub masked : Hash → Bytes → ℕ → Option ℕ
masked h p i = slice_from i p >>= (λ q. get_le64_fast q >>= (λ y. some (bit_and y h.mask)))

-- `x := _getLE64(_p[i:]) & mask; table[hashValue(x, shift)] = hashEntry{pos: i, value: x}`
unfoldable pub add : Hash → Bytes → ℕ → Option Hash
unfolding masked hash_value store
add h p i = masked h p i >>= (λ x.
    store h.table (hash_value x h.shift) (record { position = i % 2 ^ 32; value = x % 2 ^ 32 })
    >>= (λ t. some (record h { table = t })))

-- `for i := a; i < a+n; i++`, the loops that add the entries of a segment
unfoldable pub add_range : Hash → Bytes → ℕ → ℕ → Option Hash
unfolding add
add_range h p i zero = some h
add_range h p i (suc n) = add h p i >>= (λ h'. add_range h' p (i + 1) n)

-- `hashDictionary`
pub record Dictionary : Type 0 where
  pub buffer : ParserBuffer
  pub hash : Hash

unfoldable pub init_dictionary : Dictionary → HashConfig → BufConfig → Dictionary × Option Error
init_dictionary f cfg bcfg =
    let (b, e) = ParserBuffer.init f.buffer bcfg in
    let c = set_defaults cfg in
    let (h, e') = init f.hash c in
    elim e [
      | some err ↦ (record f { buffer = b }, some err)
      | none ↦ (record { buffer = b; hash = h }, e')
    ]

-- The slice has the bytes `q` behind it up to its capacity.
unfoldable pub reset_dictionary : Dictionary → Bytes → Bytes → Dictionary × Option Error
reset_dictionary f p q =
    let (b, e) = ParserBuffer.reset f.buffer p q in
    elim e [
      | some err ↦ (record f { buffer = b }, some err)
      | none ↦ (record { buffer = b; hash = reset f.hash }, none)
    ]

-- `Shrink` behind that of the buffer, where `delta` bytes were dropped
unfoldable pub after_shrink : Dictionary → ParserBuffer → (delta : ℕ) → Option (Dictionary × ℕ)
after_shrink f b delta = some (
  record {
    buffer = b;
    hash = if ltb 0 delta then shift_offsets f.hash (delta % 2 ^ 32) else f.hash;
  },
  delta,
)

unfoldable pub shrink_dictionary : Dictionary → Option (Dictionary × ℕ)
shrink_dictionary f = ParserBuffer.shrink f.buffer >>= (λ (b, delta). after_shrink f b delta)

-- `processSegment`, from `a` (0 where the source's is negative) to `b`. `f.Data[:b+7]` may reach over
-- the data into the memory behind them.
unfoldable pub process_segment : Dictionary → ℕ → ℕ → Option Dictionary
process_segment f a b =
    let c = length f.buffer.data_bytes + 1 - f.hash.input_len in
    let b' = if ltb c b then c else b in
    let scan =
      (if ltb (length (memory f.buffer)) (b' + 7)
        then none
        else some (take (b' + 7) (memory f.buffer)))
      >>= (λ p. add_range f.hash p a (b' - a) >>= (λ h. some (record f { hash = h }))) in
    if b' == 0 then some f else scan
