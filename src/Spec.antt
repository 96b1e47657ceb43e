-- ===== src/Spec.antt =====
-- What a block means: Lempel-Ziv 77 decoding over the whole text written so far, with no window, no
-- buffer and no doubling.
pub mod Copy
pub mod Literals
use lz.Prelude.{ℕ, zero, suc, ◌-◌, ◌+◌, List, [], ◌∷◌, ◌++◌, length, get_or, take, drop}
use lz.Lz.{Bytes, Seq, Block}

-- `n` times, the byte `off` places before the end is appended.
unfoldable pub copy : ℕ → ℕ → Bytes → Bytes
copy zero off h = h
copy (suc n) off h = copy n off (h ++ get_or h (length h - off) 0 ∷ [])

-- One sequence: its literals, then its match.
unfoldable pub expand : Seq → Bytes → Bytes → Bytes
expand s lits h = copy s.match_len s.offset (h ++ take s.lit_len lits)

-- The sequences in order, and the literals that they leave.
unfoldable pub expand_all : List Seq → Bytes → Bytes → Bytes
expand_all [] lits h = h
expand_all (s ∷ ss) lits h = expand_all ss (drop s.lit_len lits) (expand s lits h)

unfoldable pub literals_left : List Seq → Bytes → Bytes
literals_left [] lits = lits
literals_left (s ∷ ss) lits = literals_left ss (drop s.lit_len lits)

-- A block: its sequences, then the literals that are left.
unfoldable pub decode : Block → Bytes → Bytes
decode blk h = expand_all blk.sequences blk.literals h ++ literals_left blk.sequences blk.literals
