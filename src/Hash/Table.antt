-- ===== src/Hash/Table.antt =====
-- The table: look-ups and updates stay in range.
use Prim.Native.Nat.{bit_and}
use native.Mathlib.Nat.{div-lt_iff_lt-mul, one-le-pow}
use lz.Prelude.{
  ℕ, zero, suc, ◌+◌, ◌-◌, ◌*◌, ◌/◌, ◌%◌, ◌^◌, ◌≤◌, ◌<◌, ◌≡◌, refl, ap, ◌∙◌, ◌⊎◌, inl, inr, arith,
  some, List, [], ◌∷◌, length, drop, take, length-drop, length-take, length-append, Bool-cases, ltb,
  ◌==◌, false, if◌then◌else◌,
}
use lz.Lz.{Bytes}
use lz.Slices.Laws.{slice_from_lem}
use lz.Bytes.Prefix.{AreBytes, little_endian, drop-AreBytes, take-AreBytes}
use lz.Bytes.Lcp.{word_64}
use lz.Bytes.Leading.{pow_sum}
use lz.Hash.{Hash, Entry, hash_value, store, masked, add, add_range, Dictionary, process_segment}
use lz.ParserBuffer.{memory}

-- The table has an entry for each value that is left after the shift, and the inputs that are hashed
-- have from two to eight bytes.
pub record IsTable (h : Hash) : Type 0 where
  pub size : length h.table ≡ 2 ^ (64 - h.shift)
  pub shift_in : h.shift ≤ 64
  pub input_least : 2 ≤ h.input_len
  pub input_most : h.input_len ≤ 8

-- What is left of a product after the shift
pub hash_value-small : (x shift : ℕ) → shift ≤ 64 → hash_value x shift < 2 ^ (64 - shift)
unfolding hash_value
hash_value-small x shift h =
    let v = x * 9920624304325388887 % 2 ^ 64 in
    let split : 2 ^ 64 ≡ 2 ^ (64 - shift) * 2 ^ shift =
      pow_sum (64 - shift) shift 64 (omega (arith, h)) in
    let small : v / 2 ^ shift < 2 ^ (64 - shift) =
      (div-lt_iff_lt-mul (one-le-pow shift 2 (omega arith))).1 (omega (arith, split)) in
    omega (arith, small)

pub hash_value-bound : (h : Hash) (x : ℕ) → IsTable h → hash_value x h.shift < length h.table
hash_value-bound h x t = omega (arith, hash_value-small x h.shift t.shift_in, t.size)

pub store_lem {ℓ} :
    {A : Type ℓ} (t : List A) (i : ℕ) (e : A)
    → i < length t
    → (t' : List A) × (store t i e ≡ some t') × (length t' ≡ length t)
unfolding store
store_lem [] i e h = absurd (omega arith)
store_lem (x ∷ t) zero e h = (e ∷ t, refl, refl)
store_lem (x ∷ t) (suc i) e h =
    let (t', run, size) = store_lem t i e (omega arith) in (x ∷ t', rw run refl, ap suc size)

-- An entry is replaced.
pub replace_lem :
    (h : Hash) (x : ℕ) (e : Entry)
    → IsTable h
    → (t : List Entry) × (store h.table (hash_value x h.shift) e ≡ some t)
      × IsTable (record h { table = t })
replace_lem h x e ok =
    let (t, run, size) = store_lem h.table (hash_value x h.shift) e (hash_value-bound h x ok) in
    (
      t,
      run,
      record {
        size = size ∙ ok.size;
        shift_in = ok.shift_in;
        input_least = ok.input_least;
        input_most = ok.input_most;
      },
    )

pub add_lem :
    (h : Hash) (p : Bytes) (i : ℕ)
    → IsTable h
    → AreBytes p
    → i + 8 ≤ length p
    → (h' : Hash) × (add h p i ≡ some h') × IsTable h' × (h'.input_len ≡ h.input_len)
unfolding add masked
add_lem h p i ok bytes l =
    let x = bit_and (little_endian (take 8 (drop i p))) h.mask in
    let (t, run, ok') = replace_lem h x (record { position = i % 2 ^ 32; value = x % 2 ^ 32 }) ok in
    (
      record h { table = t },
      rw
          (
            slice_from_lem i p (omega (arith, l)),
            word_64 (drop i p) (drop-AreBytes i p bytes) (omega (arith, l, length-drop i p)),
            run,
          )
          refl,
      ok',
      refl,
    )

-- Adding a range of entries whose words lie in the slice never panics.
pub add_range_lem :
    (n : ℕ) (h : Hash) (p : Bytes) (i : ℕ)
    → IsTable h
    → AreBytes p
    → (n ≡ 0) ⊎ (i + n + 7 ≤ length p)
    → (h' : Hash) × (add_range h p i n ≡ some h') × IsTable h' × (h'.input_len ≡ h.input_len)
unfolding add_range
add_range_lem zero h p i ok bytes l = (h, refl, ok, refl)
add_range_lem (suc n) h p i ok bytes l =
    let (h', run, ok', same) = add_lem h p i ok bytes (omega (arith, l)) in
    let (h'', run', ok'', same') = add_range_lem n h' p (i + 1) ok' bytes (omega (arith, l)) in
    (h'', rw run run', ok'', same' ∙ same)

-- For a table of the right size and a memory of bytes, `processSegment` never panics where seven bytes
-- lie behind the data, or the data are empty. It changes the table only, and keeps its size.
pub process_segment_lem :
    (f : Dictionary) (a b : ℕ)
    → IsTable f.hash
    → AreBytes (memory f.buffer)
    → (length f.buffer.data_bytes ≡ 0) ⊎ (7 ≤ length f.buffer.spare)
    → (h : Hash) × (process_segment f a b ≡ some (record f { hash = h })) × IsTable h
unfolding process_segment
process_segment_lem f a b ok bytes margin =
    let c = length f.buffer.data_bytes + 1 - f.hash.input_len in
    let b' = if ltb c b then c else b in
    elim (Bool-cases (b' == 0)) [
      | inl e ↦ (f.hash, rw e refl, ok)
      | inr e ↦
          let some_bytes : 0 < b' = ground (arith, e) in
          let inside : b' ≤ c = ground arith in
          let room : b' + 7 ≤ length (memory f.buffer) = omega (
            arith,
            some_bytes,
            inside,
            margin,
            ok.input_least,
            length-append f.buffer.data_bytes f.buffer.spare,
          ) in
          let fits : ltb (length (memory f.buffer)) (b' + 7) ≡ false = ground (arith, room) in
          let (h, run, ok', _) =
            add_range_lem (b' - a) f.hash (take (b' + 7) (memory f.buffer)) a ok
              (take-AreBytes (b' + 7) (memory f.buffer) bytes)
              (omega (arith, room, length-take (b' + 7) (memory f.buffer))) in
          (h, rw (e, fits, run) refl, ok')
    ]
