-- ===== src/Greedy/Reads.antt =====
-- The slice that the words are read from: the data up to the end of the block, and up to six bytes of
-- memory behind them, so that a word can be read wherever an input of `l` bytes lies in the block.
use lz.Prelude.{
  ℕ, ◌+◌, ◌-◌, ◌≤◌, ◌≡◌, ◌≢◌, sym, ap, ◌∙◌, arith, some, ◌++◌, length, take, drop, length-take,
  length-append, take-append_le, take_add,
}
use mathlib.Core.Path.{subst}
use lz.Lz.{Bytes}
use lz.Slices.{slice_to}
use lz.Slices.Laws.{slice_to_lem}
use lz.Bytes.Prefix.{AreBytes, take-AreBytes}
use lz.ParserBuffer.{ParserBuffer, memory}
use lz.Greedy.{block_size}
use lz.Greedy.RoundTrip.{IsReady, n-bounds, block_data}

module _ (b : ParserBuffer) (r : IsReady b) (l : ℕ) (least : 2 ≤ l) (most : l ≤ 8) where
  abbrev w : ℕ
  w = b.w

  abbrev n : ℕ
  n = block_size b

  -- what lies behind the block
  abbrev pub extra : Bytes
  extra = take (8 - l) (drop (w + n) (memory b))

  full : take (w + n + 8 - l) (memory b) ≡ block_data b r ++ extra
  full =
      sym (take_add (w + n) (8 - l) (w + n + 8 - l) (memory b) (omega (arith, most)))
      ∙ ap (λ t. t ++ extra) (take-append_le (w + n) b.data_bytes b.spare ((n-bounds b r).0))

  room : n ≢ 0 → w + n + 8 - l ≤ length (memory b)
  room e = omega (arith, e, n-bounds b r, r.valid.margin, least, length-append b.data_bytes b.spare)

  pub reads : n ≢ 0 → slice_to (w + n + 8 - l) (memory b) ≡ some (block_data b r ++ extra)
  reads e = slice_to_lem (w + n + 8 - l) (memory b) (room e) ∙ ap some full

  pub reads-length : n ≢ 0 → length (block_data b r ++ extra) ≡ w + n + 8 - l
  reads-length e = omega (arith, room e, ap length full, length-take (w + n + 8 - l) (memory b))

  pub block-AreBytes : AreBytes (block_data b r)
  block-AreBytes =
      subst AreBytes (take-append_le (w + n) b.data_bytes b.spare ((n-bounds b r).0))
        (take-AreBytes (w + n) (memory b) r.bytes)

  pub reads-AreBytes : AreBytes (block_data b r ++ extra)
  reads-AreBytes = subst AreBytes full (take-AreBytes (w + n + 8 - l) (memory b) r.bytes)
