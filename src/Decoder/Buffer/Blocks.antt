-- ===== src/Decoder/Buffer/Blocks.antt =====
-- `WriteBlock` against the decoding of a block, and what its results count.
use lz.Prelude.{
  ℕ, ◌+◌, ◌-◌, ◌≤◌, ◌≡◌, refl, ap, ◌∙◌, ◌⊎◌, inl, inr, ◌≢◌, Option, none, some, [], ◌++◌, arith,
  length, take, take-all, length-append, Bool-cases, if◌then◌else◌,
}
use native.Mathlib.Nat.{zero-add}
use lz.Prelude.Int.{pos, ◌+ℤ◌, ◌-ℤ◌, int_laws}
use lz.Lz.{Bytes, Error, Block}
use lz.Slices.{Growth}
use lz.Spec.{expand_all, literals_left, decode}
use lz.Decoder.Buffer.{Buffer, data_of, put, fit, finish, Written, write_block}
use lz.Decoder.Buffer.Shrink.{Holds}
use lz.Decoder.Buffer.Room.{fit-Kept, fit-room}
use lz.Decoder.Buffer.Write.{put-Has}
use lz.Decoder.Buffer.Refine.{Holds-off, put-Holds}
use lz.Decoder.Buffer.Sequences.{SeqsResult, write_seqs_lem}

-- The text behind a call that wrote `k` sequences, and all the literals if there was no error.
pub record BlockResult (text : Bytes) (out : ℕ) (b : Buffer) (blk : Block) (b' : Buffer)
    (w : Written) : Type 0 where
  pub ended :
      ((w.error ≡ none)
        × (w.k ≡ length blk.sequences)
        × (w.l ≡ length blk.literals)
        × Holds (decode blk text) out b')
      ⊎ ((w.error ≢ none)
          × (w.k ≤ length blk.sequences)
          × (w.l + length (literals_left (take w.k blk.sequences) blk.literals)
              ≡ length blk.literals)
          × Holds (expand_all (take w.k blk.sequences) blk.literals text) out b')
  pub n : w.n ≡ pos (length (data_of b')) -ℤ pos (length (data_of b))
  pub off : b'.off ≡ b.off +ℤ w.n
  pub window : b'.window_size ≡ b.window_size

-- A call ends, with such a result.
abbrev pub BlockRun : Bytes → ℕ → Buffer → Block → Option (Buffer × Written) → Type 0
BlockRun text out b blk run =
    (b' : Buffer) × (w : Written) × (run ≡ some (b', w)) × BlockResult text out b blk b' w

abbrev after_seqs :
    Growth → Buffer → Block → Buffer × Bytes × ℕ × Option Error → Option (Buffer × Written)
after_seqs gr b blk out =
    let (b', lits, k, e) = out in
    let end = finish (length (data_of b)) (length blk.literals) in
    elim e [
      | some err ↦ some (end b' lits k (some err))
      | none ↦
          let (b'', ok) = fit b' (length (data_of b') + length lits) in
          if ok
          then some (end (put gr b'' lits) [] k none)
          else some (end b'' lits k (some Error.err_full_buffer))
    ]

module _ (blk : Block) {text : Bytes} {out : ℕ} {b b1 : Buffer} {lits : Bytes} {k : ℕ}
    {e : Option Error} (r : SeqsResult text out b blk.literals blk.sequences b1 lits k e) where
  all_written : e ≡ none → k ≡ length blk.sequences
  all_written ok = elim r.ended [ inl (_, done) ↦ done | inr (bad, _) ↦ absurd (bad ok) ]

  some_written : k ≤ length blk.sequences
  some_written = elim r.ended [ inl (_, done) ↦ omega arith | inr (_, less) ↦ omega arith ]

  counted :
      length blk.literals - length lits + length (literals_left (take k blk.sequences) blk.literals)
      ≡ length blk.literals
  counted = omega (arith, r.fits, ap length r.left)

  whole : e ≡ none → expand_all (take k blk.sequences) blk.literals text ++ lits ≡ decode blk text
  unfolding decode
  whole ok =
      ap (λ t. expand_all (take k blk.sequences) blk.literals text ++ t) r.left
      ∙ ap (λ ss. expand_all ss blk.literals text ++ literals_left ss blk.literals)
          (take-all k blk.sequences (omega (arith, all_written ok)))

module _ (gr : Growth) (blk : Block) {text : Bytes} {out : ℕ} {b b1 : Buffer} {lits : Bytes}
    {k : ℕ} where
  -- the literals behind the last sequence
  last_literals :
      SeqsResult text out b blk.literals blk.sequences b1 lits k none
      → BlockRun text out b blk (after_seqs gr b blk (b1, lits, k, none))
  unfolding finish
  last_literals r = elim (Bool-cases (fit b1 (length (data_of b1) + length lits)).1) [
    | inl ok ↦
        let b2 = (fit b1 (length (data_of b1) + length lits)).0 in
        let p = put-Has gr b2 lits in
        rw ok (
          _,
          _,
          refl,
          record {
            ended = inl (
              refl,
              all_written blk r refl,
              omega arith,
              Holds-off _ (
                  rw (whole blk r refl) at (
                    put-Holds gr lits (fit-Kept r.holds _).holds
                      (fit-room r.holds (length lits) ok))),
            );
            n = refl;
            off =
                ap (λ t. t +ℤ (pos (length (data_of (put gr b2 lits))) -ℤ pos (length (data_of b))))
                  (p.off ∙ (fit-Kept r.holds _).off ∙ r.off);
            window = p.window ∙ (fit-Kept r.holds _).window ∙ r.window;
          },
        )
    | inr full ↦
        let b2 = (fit b1 (length (data_of b1) + length lits)).0 in
        rw full (
          _,
          _,
          refl,
          record {
            ended = inr (
              ground arith,
              some_written blk r,
              counted blk r,
              Holds-off _ (fit-Kept r.holds _).holds,
            );
            n = refl;
            off =
                ap (λ t. t +ℤ (pos (length (data_of b2)) -ℤ pos (length (data_of b))))
                  ((fit-Kept r.holds _).off ∙ r.off);
            window = (fit-Kept r.holds _).window ∙ r.window;
          },
        )
  ]

  failed :
      (e : Error)
      → SeqsResult text out b blk.literals blk.sequences b1 lits k (some e)
      → BlockRun text out b blk (after_seqs gr b blk (b1, lits, k, some e))
  unfolding finish
  failed e r = (
    _,
    _,
    refl,
    record {
      ended = inr (ground arith, some_written blk r, counted blk r, Holds-off _ r.holds);
      n = refl;
      off = ap (λ t. t +ℤ (pos (length (data_of b1)) -ℤ pos (length (data_of b)))) r.off;
      window = r.window;
    },
  )

  ended_with :
      (e : Option Error)
      → SeqsResult text out b blk.literals blk.sequences b1 lits k e
      → BlockRun text out b blk (after_seqs gr b blk (b1, lits, k, e))
  ended_with none r = last_literals r
  ended_with (some e) r = failed e r

-- On a buffer that holds a text, `WriteBlock` never panics. Without an error the text grows by the whole block, and `k` and `l` count
-- all its sequences and literals. With one it grows by the first `k` sequences, which took `l`
-- literals. No byte that was not read is lost.
pub write_block_lem :
    (gr : Growth) (blk : Block) {text : Bytes} {out : ℕ} {b : Buffer}
    → Holds text out b
    → BlockRun text out b blk (write_block gr b blk)
unfolding write_block
write_block_lem gr blk {b = b} h =
    let (b1, lits, k, e, run, r) = write_seqs_lem gr blk.sequences blk.literals 0 h in
    rw (run, zero-add) (ended_with gr blk e r)

-- The count for a call with such a result
growth :
    {text text' : Bytes} {out : ℕ} {b b' : Buffer} {blk : Block} {w : Written}
    → Holds text out b
    → Holds text' out b'
    → BlockResult text out b blk b' w
    → w.n +ℤ pos (length text) +ℤ pos b.r ≡ pos (length text' + b'.r)
growth {b = b} {b' = b'} h h' r = rw r.n (
    omega (
      int_laws,
      ap length h.whole,
      ap length h'.whole,
      length-append h.gone (data_of b),
      length-append h'.gone (data_of b'),
      h.reads,
      h'.reads,
    ))

-- On a buffer that holds a text, `WriteBlock` ends without a panic, and holds a longer text: that with the decoded block,
-- or, with an error, that with the first `k` sequences decoded. The count `n` of bytes that it returns, and adds to
-- `Off`, is not the growth of the text, but that less the bytes that `shrink` took off the buffer meanwhile, `b.r - b'.r`.
pub write_block-n :
    (gr : Growth) (blk : Block) {text : Bytes} {out : ℕ} {b : Buffer}
    → Holds text out b
    → (b' : Buffer) × (w : Written) × (text' : Bytes) × (write_block gr b blk ≡ some (b', w))
      × (((w.error ≡ none) × (text' ≡ decode blk text))
          ⊎ ((w.error ≢ none) × (text' ≡ expand_all (take w.k blk.sequences) blk.literals text)))
      × Holds text' out b'
      × (w.n +ℤ pos (length text) +ℤ pos b.r ≡ pos (length text' + b'.r))
      × (b'.off ≡ b.off +ℤ w.n)
write_block-n gr blk {text} {b = b} h =
    let (b', w, run, r) = write_block_lem gr blk h in
    elim r.ended [
      | inl (ok, _, _, h') ↦ (b', w, decode blk text, run, inl (ok, refl), h', growth h h' r, r.off)
      | inr (bad, _, _, h') ↦ (
        b',
        w,
        expand_all (take w.k blk.sequences) blk.literals text,
        run,
        inr (bad, refl),
        h',
        growth h h' r,
        r.off,
      )
    ]
