-- ===== src/DoubleHash/Segment.antt =====
-- The two tables: adding the words of a segment stays in range.
use Prim.Native.Nat.{bit_and}
use lz.Prelude.{
  ℕ, zero, suc, ◌+◌, ◌-◌, ◌≤◌, ◌<◌, ◌≡◌, ◌⊎◌, refl, arith, some, length, take, drop, length-take,
  length-append, ltb, false,
}
use lz.Lz.{Bytes}
use lz.Bytes.Prefix.{AreBytes, little_endian, take-AreBytes}
use lz.ParserBuffer.{memory}
use lz.Hash.{Hash, Entry}
use lz.Hash.Table.{IsTable, replace_lem}
use lz.Matching.First.{word_at_lem}
use lz.DoubleHash.{
  Tables, Dictionary, put_entry, whole, segment_both, segment_one, segment_end, process_segment,
}

-- Both tables have their sizes, and the first one hashes the shorter inputs.
pub record AreTables (t : Tables) : Type 0 where
  pub first : IsTable t.h1
  pub second : IsTable t.h2
  pub shorter : t.h1.input_len < t.h2.input_len

put_entry_lem :
    (h : Hash) (x : ℕ) (e : Entry)
    → IsTable h
    → (h' : Hash) × (put_entry h x e ≡ some h') × IsTable h' × (h'.input_len ≡ h.input_len)
unfolding put_entry
put_entry_lem h x e ok =
    let (t, run, ok') = replace_lem h (bit_and x h.mask) e ok in
    (record h { table = t }, rw run refl, ok', refl)

segment_one_lem :
    (n : ℕ) (h : Hash) (p : Bytes) (i : ℕ)
    → IsTable h
    → AreBytes p
    → (n ≡ 0) ⊎ (i + n + 7 ≤ length p)
    → (h' : Hash) × (segment_one h p i n ≡ some h') × IsTable h' × (h'.input_len ≡ h.input_len)
unfolding segment_one
segment_one_lem zero h p i ok bytes l = (h, refl, ok, refl)
segment_one_lem (suc n) h p i ok bytes l =
    let x = little_endian (take 8 (drop i p)) in
    let (h', run, ok', same) = put_entry_lem h x (whole i x) ok in
    let (h'', run', ok'', same') = segment_one_lem n h' p (i + 1) ok' bytes (omega (arith, l)) in
    (h'', rw (word_at_lem p i bytes (omega (arith, l)), run) run', ok'', omega (arith, same, same'))

segment_both_lem :
    (n : ℕ) (t : Tables) (p : Bytes) (i : ℕ)
    → AreTables t
    → AreBytes p
    → (n ≡ 0) ⊎ (i + n + 7 ≤ length p)
    → (t' : Tables) × (segment_both t p i n ≡ some t') × AreTables t'
unfolding segment_both
segment_both_lem zero t p i ok bytes l = (t, refl, ok)
segment_both_lem (suc n) t p i ok bytes l =
    let x = little_endian (take 8 (drop i p)) in
    let (h1, run1, ok1, same1) = put_entry_lem t.h1 x (whole i x) ok.first in
    let (h2, run2, ok2, same2) = put_entry_lem t.h2 x (whole i x) ok.second in
    let both : AreTables (record { h1 = h1; h2 = h2 }) = record {
      first = ok1;
      second = ok2;
      shorter = omega (arith, ok.shorter, same1, same2);
    } in
    let (t', run, ok') = segment_both_lem n _ p (i + 1) both bytes (omega (arith, l)) in
    (t', rw (word_at_lem p i bytes (omega (arith, l)), run1, run2) run, ok')

-- For two tables of the right sizes and a memory of bytes with seven of them behind the data,
-- `processSegment` of the double hash dictionary never panics, and both tables keep their sizes.
pub double-process_segment_lem :
    (f : Dictionary) (a b : ℕ)
    → AreTables f.tables
    → AreBytes (memory f.buffer)
    → 7 ≤ length f.buffer.spare
    → (t : Tables) × (process_segment f a b ≡ some t) × AreTables t
unfolding process_segment segment_end
double-process_segment_lem f a b ok bytes margin =
    let size = length f.buffer.data_bytes in
    let b1 = segment_end size b f.tables.h1.input_len in
    let b2 = segment_end size b f.tables.h2.input_len in
    let p = take (b1 + 7) (memory f.buffer) in
    let order : b2 ≤ b1 = ground (arith, ok.shorter) in
    let inside : b1 ≤ size = ground (arith, ok.first.input_least) in
    let room : b1 + 7 ≤ length (memory f.buffer) =
      omega (arith, inside, margin, length-append f.buffer.data_bytes f.buffer.spare) in
    let fits : ltb (length (memory f.buffer)) (b1 + 7) ≡ false = ground (arith, room) in
    let long : length p ≡ b1 + 7 = omega (arith, room, length-take (b1 + 7) (memory f.buffer)) in
    let bytes' = take-AreBytes (b1 + 7) (memory f.buffer) bytes in
    let (t, run, ok') =
      segment_both_lem (b2 - a) f.tables p a ok bytes' (omega (arith, long, order)) in
    let (h1, run', ok1, same) =
      segment_one_lem (b1 - b2) t.h1 p b2 ok'.first bytes' (omega (arith, long, order)) in
    (
      record t { h1 = h1 },
      rw (fits, run, run') refl,
      record { first = ok1; second = ok'.second; shorter = omega (arith, ok'.shorter, same) },
    )
