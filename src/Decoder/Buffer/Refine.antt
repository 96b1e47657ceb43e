-- ===== src/Decoder/Buffer/Refine.antt =====
-- `WriteByte`, `Write` and `WriteMatch` against the text that a buffer holds.
use lz.Prelude.{
  ℕ, zero, suc, ◌+◌, ◌≤◌, ◌<◌, ◌≡◌, refl, ap, ◌∙◌, ◌⊎◌, inl, inr, ◌≢◌, ◌↔◌, true, false, Option,
  none, some, ◌>>=◌, [], ◌∷◌, ◌++◌, append_assoc, arith, length, length-append, ltb, Bool-cases,
  ◌==◌, ◌&&◌,
}
use Prim.Native.Nat.{min}
use lz.Prelude.Int.{ℤ, pos, ◌+ℤ◌}
use lz.Lz.{Bytes, Error}
use lz.Slices.{Growth}
use lz.Spec.{copy}
use lz.Spec.Copy.{length-copy, copy-append}
use lz.Decoder.Buffer.{
  Buffer, data_of, put, copy_match, fit, reserve, win_len, write_byte, write, write_match,
}
use lz.Decoder.Buffer.Shrink.{Holds}
use lz.Decoder.Buffer.Room.{fit-Kept, fit-room, reserve-Kept, reserve-room, reserve-error}
use lz.Decoder.Buffer.Write.{Has, put-Has, copy_match-Has, Has-Holds}

-- `Off` is no part of what a buffer holds.
pub Holds-off :
    {text : Bytes} {out : ℕ} {b : Buffer} (x : ℤ)
    → Holds text out b
    → Holds text out (record b { off = x })
Holds-off x h = record {
  gone = h.gone;
  whole = h.whole;
  reads = h.reads;
  kept = h.kept;
  valid = record {
    read_in = h.valid.read_in;
    in_cap = h.valid.in_cap;
    in_size = h.valid.in_size;
    window_in = h.valid.window_in;
  };
}

-- Appended bytes are appended to the text.
pub put-Holds :
    (gr : Growth) (p : Bytes) {text : Bytes} {out : ℕ} {b : Buffer}
    → Holds text out b
    → length (data_of b) + length p ≤ b.buffer_size
    → Holds (text ++ p) out (put gr b p)
put-Holds gr p {text} {b = b} h room = rw same (
    Has-Holds h (put-Has gr b p) (omega (arith, length-append (data_of b) p))
      (omega (arith, length-append (data_of b) p)))
  where
    same : text ++ p ≡ h.gone ++ (data_of b ++ p)
    same = rw (← h.whole) (append_assoc h.gone (data_of b) p)

none_copied : {n : ℕ} (off : ℕ) → n ≡ 0 → (g d : Bytes) → copy n off (g ++ d) ≡ g ++ copy n off d
unfolding copy
none_copied off z g d = rw z refl

-- A match from within the data is a match from the end of the text.
pub copy-Holds :
    (n off : ℕ) {text : Bytes} {out : ℕ} {b b' : Buffer}
    → (0 < off) ⊎ (n ≡ 0)
    → off ≤ length (data_of b)
    → length (data_of b) + n ≤ b.buffer_size
    → Holds text out b
    → Has (copy n off (data_of b)) b b'
    → Holds (copy n off text) out b'
copy-Holds n off {text} {b = b} {b' = b'} p q room h k = rw same (
    Has-Holds h k (omega (arith, length-copy n off (data_of b)))
      (omega (arith, length-copy n off (data_of b))))
  where
    same : copy n off text ≡ h.gone ++ copy n off (data_of b)
    same = rw (← h.whole) (elim p [
      | inl pos' ↦ copy-append n off h.gone (data_of b) pos' q
      | inr z ↦ none_copied off z h.gone (data_of b)
    ])

-- A write that takes `n` bytes and makes `text'` of the text, or is refused and changes nothing.
pub record Took (text' : Bytes) (out : ℕ) (b : Buffer) (n : ℕ) (b' : Buffer) (n' : ℕ) : Type 0 where
  pub holds : Holds text' out b'
  pub count : n' ≡ n
  pub off : b'.off ≡ b.off +ℤ pos n
  pub window : b'.window_size ≡ b.window_size
  pub size : b.buffer_size ≤ b'.buffer_size

pub record Refused (text : Bytes) (out : ℕ) (b : Buffer) (b' : Buffer) (n' : ℕ) : Type 0 where
  pub holds : Holds text out b'
  pub count : n' ≡ 0
  pub off : b'.off ≡ b.off
  pub window : b'.window_size ≡ b.window_size
  pub size : b.buffer_size ≤ b'.buffer_size

-- On a buffer that holds a text, `Write` appends all of `p` to the text, or returns 0 and
-- `ErrFullBuffer` and keeps the text.
pub write_lem :
    (gr : Growth) (p : Bytes) {text : Bytes} {out : ℕ} {b : Buffer}
    → Holds text out b
    → let (b', n, e) = write gr b p in
      ((e ≡ none) × Took (text ++ p) out b (length p) b' n)
      ⊎ ((e ≡ some Error.err_full_buffer) × Refused text out b b' n)
unfolding write
write_lem gr p {text} {out} {b} h = elim (Bool-cases (fit b (length (data_of b) + length p)).1) [
  | inl ok ↦ rw ok (
      inl (
        refl,
        record {
          holds = Holds-off _ (put-Holds gr p (fit-Kept h _).holds (fit-room h (length p) ok));
          count = refl;
          off = ap (λ t. t +ℤ pos (length p)) (fit-Kept h _).off;
          window = (put-Has gr _ p).window ∙ (fit-Kept h _).window;
          size = omega (
            arith,
            (put-Has gr (fit b (length (data_of b) + length p)).0 p).size,
            (fit-Kept h (length (data_of b) + length p)).size,
          );
        },
      ))
  | inr full ↦ rw full (
      inr (
        refl,
        record {
          holds = (fit-Kept h _).holds;
          count = refl;
          off = (fit-Kept h _).off;
          window = (fit-Kept h _).window;
          size = (fit-Kept h (length (data_of b) + length p)).size;
        },
      ))
]

-- `Write` follows the test for room.
pub write-fits :
    (gr : Growth) (b : Buffer) (p : Bytes)
    → (fit b (length (data_of b) + length p)).1 ≡ true
    → (write gr b p).2 ≡ none
unfolding write
write-fits gr b p ok = rw ok refl

pub write-full :
    (gr : Growth) (b : Buffer) (p : Bytes)
    → (fit b (length (data_of b) + length p)).1 ≡ false
    → write gr b p ≡ ((fit b (length (data_of b) + length p)).0, 0, some Error.err_full_buffer)
unfolding write
write-full gr b p full = rw full refl

pub write_byte-fits :
    (gr : Growth) (b : Buffer) (c : ℕ)
    → (fit b (length (data_of b) + 1)).1 ≡ true
    → (write_byte gr b c).1 ≡ none
unfolding write_byte
write_byte-fits gr b c ok = rw ok refl

-- On a buffer that holds a text, `WriteByte` appends the byte, or returns `ErrFullBuffer` and keeps the
-- text.
pub write_byte_lem :
    (gr : Growth) (c : ℕ) {text : Bytes} {out : ℕ} {b : Buffer}
    → Holds text out b
    → let (b', e) = write_byte gr b c in
      ((e ≡ none) × Took (text ++ c ∷ []) out b 1 b' 1)
      ⊎ ((e ≡ some Error.err_full_buffer) × Refused text out b b' 0)
unfolding write_byte
write_byte_lem gr c {text} {out} {b} h = elim (Bool-cases (fit b (length (data_of b) + 1)).1) [
  | inl ok ↦ rw ok (
      inl (
        refl,
        record {
          holds = Holds-off _ (put-Holds gr (c ∷ []) (fit-Kept h _).holds (fit-room h 1 ok));
          count = refl;
          off = ap (λ t. t +ℤ pos 1) (fit-Kept h _).off;
          window = (put-Has gr _ (c ∷ [])).window ∙ (fit-Kept h _).window;
          size = omega (
            arith,
            (put-Has gr (fit b (length (data_of b) + 1)).0 (c ∷ [])).size,
            (fit-Kept h (length (data_of b) + 1)).size,
          );
        },
      ))
  | inr full ↦ rw full (
      inr (
        refl,
        record {
          holds = (fit-Kept h _).holds;
          count = refl;
          off = (fit-Kept h _).off;
          window = (fit-Kept h _).window;
          size = (fit-Kept h (length (data_of b) + 1)).size;
        },
      ))
]

-- `WriteMatch` never panics and its loop ends. It appends `m` bytes, each a copy of the one `o` places
-- before it, or returns 0 and an error and keeps the text. An offset is refused exactly if it is 0
-- for a match that is not empty, or reaches behind the window or the text.
pub record Matched (text : Bytes) (out : ℕ) (m o : ℕ) (b : Buffer) (b' : Buffer) (n : ℕ)
    (e : Option Error) : Type 0 where
  pub result :
      ((e ≡ none) × Took (copy m o text) out b m b' n) ⊎ ((e ≢ none) × Refused text out b b' n)
  pub offset :
      (e ≡ some Error.err_offset) ↔ (((o ≡ 0) × (0 < m)) ⊎ (min (length text) b.window_size < o))

-- An offset that is refused at once.
offset-Refused :
    {text : Bytes} {out : ℕ} {m o : ℕ} {b : Buffer}
    → Holds text out b
    → ((o ≡ 0) × (0 < m)) ⊎ (min (length text) b.window_size < o)
    → Matched text out m o b b 0 (some Error.err_offset)
offset-Refused h bad = record {
  result = inr (
    ground arith,
    record { holds = h; count = refl; off = refl; window = refl; size = omega arith },
  );
  offset = (λ e. bad, λ _. refl);
}

-- An offset that was not refused as 0.
pub offset-cases : {m : ℕ} (o : ℕ) → (o ≡ 0 → m ≡ 0) → (0 < o) ⊎ (m ≡ 0)
offset-cases zero p = inr (p refl)
offset-cases (suc o) p = inl (omega arith)

-- the length of the window, for any length that the buffer holds the end of
window_of :
    {text : Bytes} {out : ℕ} {b : Buffer}
    → Holds text out b
    → win_len b (length (data_of b)) ≡ min (length text) b.window_size
unfolding win_len
window_of {text} {b = b} h =
    ground (arith, h.kept, ap length h.whole, length-append h.gone (data_of b))

-- An error of `reserve` ends the call.
reserve-Refused :
    {text : Bytes} {out : ℕ} {m o : ℕ} {b : Buffer} {e : Error}
    → Holds text out b
    → (o ≡ 0 → m ≡ 0)
    → o ≤ min (length text) b.window_size
    → e ≢ Error.err_offset
    → Matched text out m o b (reserve b m).0 0 (some e)
reserve-Refused {m = m} {b = b} h p q r = record {
  result = inr (
    ground arith,
    record {
      holds = (reserve-Kept h m).holds;
      count = refl;
      off = (reserve-Kept h m).off;
      window = (reserve-Kept h m).window;
      size = (reserve-Kept h m).size;
    },
  );
  offset = (λ x. ground arith, λ x. ground (arith, x));
}

-- what `WriteMatch` does behind the test for room
abbrev after_reserve : Growth → Buffer × Option Error → ℕ → ℕ → Option (Buffer × ℕ × Option Error)
after_reserve gr r m o = elim r.1 [
  | some err ↦ some (r.0, 0, some err)
  | none ↦
      copy_match (suc m) gr r.0 m o
      >>= (λ b''. some (record b'' { off = b''.off +ℤ pos m }, m, none))
]

-- On a buffer that holds a text, `WriteMatch` never panics. It appends to the text the whole match, copied byte by byte from `o` back,
-- or returns 0 and an error and keeps the text. The error is the one for the offset exactly if the
-- offset is 0 for a match of some length, or reaches behind the window or the text.
pub write_match_lem :
    (gr : Growth) (m o : ℕ) {text : Bytes} {out : ℕ} {b : Buffer}
    → Holds text out b
    → (b' : Buffer) × (n : ℕ) × (e : Option Error) × (write_match gr b m o ≡ some (b', n, e))
      × Matched text out m o b b' n e
unfolding write_match
write_match_lem gr m o {text} {out} {b} h = elim (Bool-cases (o == 0 && ltb 0 m)) [
  | inl none' ↦ rw none' (b, 0, some Error.err_offset, refl, offset-Refused h (inl (ground arith)))
  | inr some' ↦ elim (Bool-cases (ltb (win_len b (length (data_of b))) o)) [
    | inl far ↦
        rw (some', far)
          (b, 0, some Error.err_offset, refl, offset-Refused h (inr (ground (arith, window_of h))))
    | inr near ↦
        rw (some', near) (go (ground arith) (ground (arith, window_of h)) (reserve-error b m))
  ]
]
  where
    go :
        (o ≡ 0 → m ≡ 0)
        → o ≤ min (length text) b.window_size
        → ((reserve b m).1 ≡ none)
          ⊎ ((reserve b m).1 ≡ some Error.err_match_len)
          ⊎ ((reserve b m).1 ≡ some Error.err_full_buffer)
        → (b' : Buffer) × (n : ℕ) × (e : Option Error) × (after_reserve gr (reserve b m) m o
            ≡ some (b', n, e))
          × Matched text out m o b b' n e
    go p q (inl ok) =
        let k = reserve-Kept h m in
        let near : o ≤ length (data_of ((reserve b m).0)) = omega (arith, k.holds.kept, k.window) in
        let (b', e, c) =
          copy_match-Has (suc m) gr (reserve b m).0 m o (omega arith) (offset-cases o p) near in
        rw (ok, e)
          (
            record b' { off = b'.off +ℤ pos m },
            m,
            none,
            refl,
            record {
              result = inl (
                refl,
                record {
                  holds =
                      Holds-off _
                        (copy-Holds m o (offset-cases o p) near (reserve-room h m ok) k.holds c);
                  count = refl;
                  off = ap (λ t. t +ℤ pos m) (c.off ∙ k.off);
                  window = c.window ∙ k.window;
                  size = omega (arith, c.size, k.size);
                },
              );
              offset = (λ x. ground arith, λ x. ground (arith, x));
            },
          )
    go p q (inr (inl long)) = rw long (
      (reserve b m).0,
      0,
      some Error.err_match_len,
      refl,
      reserve-Refused h p q (λ x. ground arith),
    )
    go p q (inr (inr full)) = rw full (
      (reserve b m).0,
      0,
      some Error.err_full_buffer,
      refl,
      reserve-Refused h p q (λ x. ground arith),
    )
