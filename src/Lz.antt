-- ===== src/Lz.antt =====
-- lz.go: sequences, blocks and the errors of the package. A byte is a number.
use lz.Prelude.{ℕ, ◌+◌, ◌-◌, ◌^◌, List, [], ◌∷◌, length}

abbrev pub Bytes : Type 0
Bytes = List ℕ

-- `Seq`: four `uint32` fields.
pub record Seq : Type 0 where
  pub lit_len : ℕ
  pub match_len : ℕ
  pub offset : ℕ
  pub aux : ℕ

-- `Seq.Len`, a sum of two `uint32` in an `int64`
unfoldable pub seq_len : Seq → ℕ
seq_len s = s.match_len + s.lit_len

pub record Block : Type 0 where
  pub sequences : List Seq
  pub literals : Bytes

-- its loop over the sequences
unfoldable pub match_total : List Seq → ℕ
match_total [] = 0
match_total (s ∷ ss) = s.match_len + match_total ss

-- `Block.Len`
unfoldable pub block_len : Block → ℕ
unfolding match_total
block_len b = length b.literals + match_total b.sequences

-- The settings that a configuration error is about.
pub data Setting : Type 0 where
  buffer_size window_size shrink_size block_size input_len hash_bits bucket_size : Setting
  input_lens min_match_len cost : Setting

-- The error values of the package, those of `Verify` by the setting that they report, and those of
-- a reader or a writer (`other`).
pub data Error : Type 0 where
  err_empty_buffer err_full_buffer err_lit_len err_match_len err_offset : Error
  err_out_of_buffer err_end_of_buffer err_data_len : Error
  err_range : Setting → Error
  other : ℕ → Error

abbrev pub kib : ℕ
kib = 2 ^ 10

abbrev pub mib : ℕ
mib = 2 ^ 20

abbrev pub max_uint32 : ℕ
max_uint32 = 2 ^ 32 - 1
