-- ===== src/Decoder/Buffer/Sequences.antt =====
-- The loop of `WriteBlock` against the decoding of its sequences.
use lz.Prelude.{
  ℕ, suc, ◌+◌, ◌≤◌, ◌<◌, ◌≡◌, refl, ap, ◌∙◌, ◌⊎◌, inl, inr, ◌≢◌, false, Option, none, some, ◌>>=◌,
  List, [], ◌∷◌, arith, length, take, drop, length-append, length-take, ltb, Bool-cases, ap_at,
  length-drop, ◌==◌, ◌&&◌,
}
use Prim.Native.Nat.{min}
use lz.Lz.{Bytes, Error, Seq}
use lz.Slices.{Growth, slice_to, slice_from}
use lz.Slices.Laws.{slice_to_lem, slice_from_lem}
use lz.Spec.{expand, expand_all, literals_left}
use lz.Decoder.Buffer.{Buffer, data_of, put, copy_match, reserve, win_len, write_seq, write_seqs}
use lz.Decoder.Buffer.Shrink.{Holds}
use lz.Decoder.Buffer.Room.{reserve-Kept, reserve-room, reserve-error}
use lz.Decoder.Buffer.Write.{put-Has, copy_match-Has}
use lz.Decoder.Buffer.Refine.{put-Holds, copy-Holds, offset-cases}

-- What one round leaves: the sequence is written whole, or not at all.
pub record SeqResult (text : Bytes) (out : ℕ) (b : Buffer) (lits : Bytes) (s : Seq) (b' : Buffer)
    (lits' : Bytes) (e : Option Error) : Type 0 where
  pub result :
      ((e ≡ none)
        × (s.lit_len ≤ length lits)
        × (lits' ≡ drop s.lit_len lits)
        × Holds (expand s lits text) out b')
      ⊎ ((e ≢ none) × (lits' ≡ lits) × Holds text out b')
  pub off : b'.off ≡ b.off
  pub window : b'.window_size ≡ b.window_size

abbrev after_reserve :
    Growth → Buffer × Option Error → Bytes → Seq → Option (Buffer × Bytes × Option Error)
after_reserve gr r lits s = elim r.1 [
  | some err ↦ some (r.0, lits, some err)
  | none ↦ slice_to s.lit_len lits >>= (λ p. slice_from s.lit_len lits >>= (λ rest.
      copy_match (suc s.match_len) gr (put gr r.0 p) s.match_len s.offset
      >>= (λ b''. some (b'', rest, none))))
]

-- A run of the round ends, with such a result.
abbrev pub SeqRun :
    Bytes → ℕ → Buffer → Bytes → Seq → Option (Buffer × Bytes × Option Error) → Type 0
SeqRun text out b lits s run =
    (b' : Buffer) × (lits' : Bytes) × (e : Option Error) × (run ≡ some (b', lits', e))
    × SeqResult text out b lits s b' lits' e

module _ (gr : Growth) (s : Seq) {text : Bytes} {out : ℕ} {b : Buffer} (lits : Bytes)
    (h : Holds text out b) where
  stopped : (e : Error) → SeqRun text out b lits s (some (b, lits, some e))
  stopped e = (
    b,
    lits,
    some e,
    refl,
    record { result = inr (ground arith, refl, h); off = refl; window = refl },
  )

  refused :
      (e : Error)
      → (reserve b (s.lit_len + s.match_len)).1 ≡ some e
      → SeqRun text out b lits s (after_reserve gr (reserve b (s.lit_len + s.match_len)) lits s)
  refused e p = rw p (
    (reserve b (s.lit_len + s.match_len)).0,
    lits,
    some e,
    refl,
    record {
      result = inr (ground arith, refl, (reserve-Kept h (s.lit_len + s.match_len)).holds);
      off = (reserve-Kept h (s.lit_len + s.match_len)).off;
      window = (reserve-Kept h (s.lit_len + s.match_len)).window;
    },
  )

  accepted :
      s.lit_len ≤ length lits
      → (s.offset ≡ 0 → s.match_len ≡ 0)
      → s.offset ≤ min (length (data_of b) + s.lit_len) b.window_size
      → (reserve b (s.lit_len + s.match_len)).1 ≡ none
      → SeqRun text out b lits s (after_reserve gr (reserve b (s.lit_len + s.match_len)) lits s)
  unfolding expand
  accepted fits p near ok =
      let g = s.lit_len + s.match_len in
      let k = reserve-Kept h g in
      let lit = take s.lit_len lits in
      let b1 = put gr (reserve b g).0 lit in
      let room = reserve-room h g ok in
      let had = put-Has gr (reserve b g).0 lit in
      let long : length lit ≡ s.lit_len = omega (arith, length-take s.lit_len lits) in
      let total : length (data_of b1) ≡ length (data_of ((reserve b g).0)) + s.lit_len =
        omega (arith, ap length had.bytes, length-append (data_of ((reserve b g).0)) lit) in
      let near' : s.offset ≤ length (data_of b1) = omega (
        arith,
        total,
        k.holds.kept,
        k.window,
        ap length h.whole,
        length-append h.gone (data_of b),
        h.kept,
      ) in
      let more : length (data_of b1) + s.match_len ≤ b1.buffer_size =
        omega (arith, total, room, had.size) in
      let (b', e, c) =
        copy_match-Has (suc s.match_len) gr b1 s.match_len s.offset (omega arith)
          (offset-cases s.offset p) near' in
      rw (ok, slice_to_lem s.lit_len lits fits, slice_from_lem s.lit_len lits fits, e)
        (
          b',
          drop s.lit_len lits,
          none,
          refl,
          record {
            result = inl (
              refl,
              fits,
              refl,
              copy-Holds s.match_len s.offset (offset-cases s.offset p) near' more
                  (put-Holds gr lit k.holds (omega (arith, room))) c,
            );
            off = c.off ∙ had.off ∙ k.off;
            window = c.window ∙ had.window ∙ k.window;
          },
        )

within : (b : Buffer) (n : ℕ) {o : ℕ} → ltb (win_len b n) o ≡ false → o ≤ min n b.window_size
unfolding win_len
within b n h = ground arith

pub write_seq_lem :
    (gr : Growth) (s : Seq) (lits : Bytes) {text : Bytes} {out : ℕ} {b : Buffer}
    → Holds text out b
    → SeqRun text out b lits s (write_seq gr b lits s)
unfolding write_seq
write_seq_lem gr s lits {b = b} h = elim (Bool-cases (ltb (length lits) s.lit_len)) [
  | inl short ↦ rw short (stopped gr s lits h Error.err_lit_len)
  | inr enough ↦ elim (Bool-cases (s.offset == 0 && ltb 0 s.match_len)) [
    | inl none' ↦ rw (enough, none') (stopped gr s lits h Error.err_offset)
    | inr some' ↦ elim (Bool-cases (ltb (win_len b (length (data_of b) + s.lit_len)) s.offset)) [
      | inl far ↦ rw (enough, some', far) (stopped gr s lits h Error.err_offset)
      | inr near ↦
          rw (enough, some', near)
            (elim (reserve-error b (s.lit_len + s.match_len)) [
              | inl ok ↦
                  accepted gr s lits h (ground arith) (ground arith)
                    (within b (length (data_of b) + s.lit_len) near) ok
              | inr (inl long) ↦ refused gr s lits h _ long
              | inr (inr full) ↦ refused gr s lits h _ full
            ])
    ]
  ]
]

-- What the loop leaves: the first `k - k0` sequences are written whole, and no other.
pub record SeqsResult (text : Bytes) (out : ℕ) (b : Buffer) (lits : Bytes) (ss : List Seq)
    (b' : Buffer) (lits' : Bytes) (done : ℕ) (e : Option Error) : Type 0 where
  pub ended : ((e ≡ none) × (done ≡ length ss)) ⊎ ((e ≢ none) × (done < length ss))
  pub left : lits' ≡ literals_left (take done ss) lits
  pub fits : length lits' ≤ length lits
  pub holds : Holds (expand_all (take done ss) lits text) out b'
  pub off : b'.off ≡ b.off
  pub window : b'.window_size ≡ b.window_size

abbrev pub SeqsRun :
    Bytes → ℕ → Buffer → Bytes → List Seq → ℕ → Option (Buffer × Bytes × ℕ × Option Error) → Type 0
SeqsRun text out b lits ss k run =
    (b' : Buffer) × (lits' : Bytes) × (done : ℕ) × (e : Option Error) × (run
      ≡ some (b', lits', k + done, e))
    × SeqsResult text out b lits ss b' lits' done e

-- After a round without an error the loop goes on.
seqs-more :
    {text : Bytes} {out : ℕ} {b b1 : Buffer} {lits lits1 : Bytes} {s : Seq} {e1 : Option Error}
    → (ss : List Seq) (k : ℕ) → (run : Option (Buffer × Bytes × ℕ × Option Error))
    → SeqResult text out b lits s b1 lits1 e1
    → lits1 ≡ drop s.lit_len lits
    → SeqsRun (expand s lits text) out b1 lits1 ss (k + 1) run
    → SeqsRun text out b lits (s ∷ ss) k run
unfolding expand_all literals_left
seqs-more {lits = lits} {lits1} {s = s} ss k run res left (b', lits', done, e, go, r) = (
  b',
  lits',
  suc done,
  e,
  go ∙ ap_at (λ j. some (b', lits', j, e)) (k + 1 + done) (k + suc done) (omega arith),
  record {
    ended = ground (arith, r.ended);
    left = rw left at r.left;
    fits = omega (arith, r.fits, ap length left, length-drop s.lit_len lits);
    holds = rw left at r.holds;
    off = r.off ∙ res.off;
    window = r.window ∙ res.window;
  },
)

seqs-stop :
    {text : Bytes} {out : ℕ} {b b1 : Buffer} {lits lits1 : Bytes} {s : Seq} {e1 : Option Error}
    → (ss : List Seq) (k : ℕ) → SeqResult text out b lits s b1 lits1 e1
    → e1 ≢ none
    → lits1 ≡ lits
    → Holds text out b1
    → SeqsRun text out b lits (s ∷ ss) k (some (b1, lits1, k, e1))
unfolding expand_all literals_left
seqs-stop {b1 = b1} {lits1 = lits1} {e1 = e1} ss k res bad left h = (
  b1,
  lits1,
  0,
  e1,
  ap_at (λ j. some (b1, lits1, j, e1)) k (k + 0) (omega arith),
  record {
    ended = inr (bad, omega arith);
    left = left;
    fits = omega (arith, ap length left);
    holds = h;
    off = res.off;
    window = res.window;
  },
)

seqs-round :
    {text : Bytes} {out : ℕ} {b b1 : Buffer} {lits lits1 : Bytes} {s : Seq} (e1 : Option Error)
    → (gr : Growth) (ss : List Seq) (k : ℕ) → SeqResult text out b lits s b1 lits1 e1
    → (Holds (expand s lits text) out b1
        → SeqsRun (expand s lits text) out b1 lits1 ss (k + 1) (write_seqs gr b1 lits1 ss (k + 1)))
    → SeqsRun text out b lits (s ∷ ss) k (elim e1 [
      | some err ↦ some (b1, lits1, k, some err)
      | none ↦ write_seqs gr b1 lits1 ss (k + 1)
    ])
seqs-round none gr ss k res rest = elim res.result [
  | inl (ok, enough, left, holds) ↦ seqs-more ss k _ res left (rest holds)
  | inr (bad, same, holds) ↦ absurd (bad refl)
]
seqs-round (some err) gr ss k res rest = elim res.result [
  | inl (ok, enough, left, holds) ↦ cc
  | inr (bad, same, holds) ↦ seqs-stop ss k res bad same holds
]

-- On a buffer that holds a text, the loop over the sequences never panics. It writes the sequences in order up to the first error.
pub write_seqs_lem :
    (gr : Growth) (ss : List Seq) (lits : Bytes) (k : ℕ) {text : Bytes} {out : ℕ} {b : Buffer}
    → Holds text out b
    → SeqsRun text out b lits ss k (write_seqs gr b lits ss k)
unfolding write_seqs expand_all literals_left
write_seqs_lem gr [] lits k {b = b} h = (
  b,
  lits,
  0,
  none,
  ap_at (λ j. some (b, lits, j, none)) k (k + 0) (omega arith),
  record {
    ended = inl (refl, refl);
    left = refl;
    fits = omega arith;
    holds = h;
    off = refl;
    window = refl;
  },
)
write_seqs_lem gr (s ∷ ss) lits k {b = b} h =
    let (b1, lits1, e1, run, res) = write_seq_lem gr s lits h in
    rw run (seqs-round e1 gr ss k res (λ hold. write_seqs_lem gr ss lits1 (k + 1) hold))
