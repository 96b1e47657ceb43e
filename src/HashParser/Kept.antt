-- ===== src/HashParser/Kept.antt =====
-- A hash parser that is ready stays so when it skips data; its table keeps its size when positions are
-- shifted.
use lz.Prelude.{
  ℕ, suc, ◌+◌, ◌≡◌, refl, ap, ◌∙◌, inl, inr, Option, some, List, [], ◌∷◌, length, Bool-cases, ◌==◌,
}
use lz.Lz.{Error}
use lz.Hash.{Hash, Entry, Dictionary, shift_entries, shift_offsets}
use lz.Hash.Table.{IsTable}
use lz.Greedy.{block_size}
use lz.Greedy.RoundTrip.{Skipped, skip_frame}
use lz.HashParser.{make, prepare, skip}
use lz.HashParser.RoundTrip.{Ready, buffer_of, prepare_lem, keeps}

length-shift_entries : (delta : ℕ) (es : List Entry) → length (shift_entries delta es) ≡ length es
unfolding shift_entries
length-shift_entries delta [] = refl
length-shift_entries delta (e ∷ es) = ap suc (length-shift_entries delta es)

pub shift_offsets-IsTable : (h : Hash) (delta : ℕ) → IsTable h → IsTable (shift_offsets h delta)
unfolding shift_offsets
shift_offsets-IsTable h delta ok = elim (Bool-cases (delta == 0)) [
  | inl e ↦ rw e ok
  | inr e ↦ rw e (record {
    size = length-shift_entries delta h.table ∙ ok.size;
    shift_in = ok.shift_in;
    input_least = ok.input_least;
    input_most = ok.input_most;
  })
]

-- Without a block `Parse` of a parser that is ready ends without a panic. At the end of the data it
-- returns `ErrEmptyBuffer` and changes nothing. Else it moves the head by `n` bytes, from one to
-- `BlockSize`, and the parser is ready for the next call.
pub skip_lem :
    (f : Dictionary)
    → Ready f
    → (out : Dictionary × ℕ × Option Error) × (skip f ≡ some out) × Skipped buffer_of Ready f out
unfolding skip
skip_lem f r =
    let b = f.buffer.w + block_size f.buffer in
    skip_frame buffer_of make (λ b h. refl) Ready IsTable f r.buffer (λ k t from. keeps f r k t)
      (prepare f b) (λ e. prepare_lem f b r)
