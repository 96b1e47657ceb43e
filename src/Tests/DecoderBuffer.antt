-- ===== src/Tests/DecoderBuffer.antt =====
-- The decoder buffer: its theorems at the inputs of `Data`, and a block that is written out.
use lz.Prelude.{
  ℕ, ◌+◌, ◌≡◌, ◌≢◌, refl, arith, ◌⊎◌, inl, Option, none, some, [], ◌∷◌, ◌++◌, length, take, drop,
}
use lz.Prelude.Int.{pos, ◌+ℤ◌, ◌-ℤ◌}
use lz.Lz.{Bytes, Error}
use lz.Spec.{copy, decode, expand, expand_all, literals_left}
use lz.Slices.{append, slice_from, slice_to, slice_last}
use lz.Ints.{doz, iverson, and_int}
use lz.Decoder.Buffer
use lz.Decoder.Buffer.{
  Buffer, data_of, write, write_byte, write_match, copy_match, write_seqs, write_block, read,
  write_to, byte_at_end, reset, write_seq, win_len, reserve, copy_rest, finish, fit, shrink, slide,
  Written,
}
use lz.Decoder.Buffer.Shrink.{Holds}
use lz.Decoder.Buffer.Write.{EndsIn, copy_match-Has}
use lz.Decoder.Buffer.Refine.{Took, Refused, Matched, write_lem, write_match_lem}
use lz.Decoder.Buffer.Sequences.{SeqsRun, write_seqs_lem}
use lz.Decoder.Buffer.Blocks.{BlockRun, write_block_lem, write_block-n}
use lz.Decoder.Buffer.Read.{read_lem, write_to_lem}
use lz.Tests.Data.{tight, four, small, small-Holds, keep, keep-IsWriter, overlapping}

write_block_lem_example : BlockRun four 3 small overlapping (write_block tight small overlapping)
write_block_lem_example = write_block_lem tight overlapping small-Holds

write_match_lem_example :
    (b' : Buffer) × (n : ℕ) × (e : Option Error) × (write_match tight small 3 1 ≡ some (b', n, e))
    × Matched four 3 3 1 small b' n e
write_match_lem_example = write_match_lem tight 3 1 small-Holds

copy_match-Has_example : EndsIn (copy_match 5 tight small 4 1) (copy 4 1 (1 ∷ 2 ∷ 3 ∷ [])) small
copy_match-Has_example =
    copy_match-Has 5 tight small 4 1 (omega arith) (inl (omega arith)) (omega arith)

write_seqs_lem_example :
    SeqsRun four 3 small overlapping.literals overlapping.sequences 0
      (write_seqs tight small overlapping.literals overlapping.sequences 0)
write_seqs_lem_example =
    write_seqs_lem tight overlapping.sequences overlapping.literals 0 small-Holds

write_lem_example :
    let (b', n, e) = write tight small (5 ∷ 6 ∷ []) in
    ((e ≡ none) × Took (four ++ 5 ∷ 6 ∷ []) 3 small 2 b' n)
    ⊎ ((e ≡ some Error.err_full_buffer) × Refused four 3 small b' n)
write_lem_example = write_lem tight (5 ∷ 6 ∷ []) small-Holds

read_lem_example :
    (b' : Buffer) × (p : Bytes) × (read small 2 ≡ some (b', p))
    × (p ≡ take 2 (drop 3 four))
    × Holds four (3 + length p) b'
read_lem_example = read_lem 2 small-Holds

write_to_lem_example :
    (b' : Buffer) × (write_to keep small [] ≡ some (b', 1, none, 3 ∷ []))
    × Holds four 4 b'
    × (b'.off ≡ small.off)
    × (b'.window_size ≡ 3)
    × (b'.buffer_size ≡ 8)
    × (b'.slice.cap ≡ 8)
write_to_lem_example = write_to_lem keep keep-IsWriter [] small-Holds

-- The block makes the text longer by six bytes. Two bytes of the buffer are dropped for its last literal.
abbrev after : Buffer
after = record {
  slice = record { bytes = 3 ∷ 7 ∷ 8 ∷ 7 ∷ 8 ∷ 7 ∷ 5 ∷ []; cap = 8 };
  r = 0;
  off = pos 8;
  window_size = 3;
  buffer_size = 8;
}

abbrev report : Written
report = record { n = pos 4; k = 1; l = 3; error = none }

after-run : write_block tight small overlapping ≡ some (after, report)
unfolding write_block write_seqs write_seq win_len reserve copy_match copy_rest Buffer.put append
    finish fit shrink slide doz iverson and_int slice_from slice_to slice_last ◌+ℤ◌ ◌-ℤ◌
after-run = refl

write_block-n_example :
    (b' : Buffer) × (w : Written) × (text' : Bytes) × (write_block tight small overlapping
      ≡ some (b', w))
    × (((w.error ≡ none) × (text' ≡ decode overlapping four))
        ⊎ ((w.error ≢ none)
            × (text' ≡ expand_all (take w.k overlapping.sequences) overlapping.literals four)))
    × Holds text' 3 b'
    × (w.n +ℤ pos (length four) +ℤ pos 2 ≡ pos (length text' + b'.r))
    × (b'.off ≡ small.off +ℤ w.n)
write_block-n_example = write_block-n tight overlapping small-Holds

-- Three bytes more fit as they are.
shrunk : Buffer.write tight (record small { buffer_size = 8 }) (1 ∷ 2 ∷ 3 ∷ []) ≡ (
  record small { slice = record { bytes = 1 ∷ 2 ∷ 3 ∷ 1 ∷ 2 ∷ 3 ∷ []; cap = 8 }; off = pos 7 },
  3,
  none,
)
unfolding Buffer.write Buffer.fit Buffer.put append ◌+ℤ◌
shrunk = refl

overlap : decode overlapping four ≡ 9 ∷ 1 ∷ 2 ∷ 3 ∷ 7 ∷ 8 ∷ 7 ∷ 8 ∷ 7 ∷ 5 ∷ []
unfolding decode expand_all expand copy literals_left
overlap = refl
