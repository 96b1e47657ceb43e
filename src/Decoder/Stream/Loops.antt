-- ===== src/Decoder/Stream/Loops.antt =====
-- The write methods of a `Decoder`: when their loops end, and what reaches the writer.
use lz.Prelude.{
  ℕ, zero, suc, ◌+◌, ◌≤◌, ◌<◌, ◌≡◌, refl, sym, ap, ◌∙◌, ◌⊎◌, inl, inr, ◌≢◌, Option, none, some, [],
  ◌∷◌, ◌++◌, arith, length, take, drop, length-take, length-drop, take-all, take_add,
  take-append_le,
}
use native.Mathlib.Nat.{add-zero}
use lz.Lz.{Bytes, Error}
use lz.Slices.{Growth, slice_from}
use lz.Slices.Laws.{slice_from_lem}
use lz.Decoder.Buffer
use lz.Decoder.Buffer.{Buffer, data_of, fit, Writer, IsWriter, write_to}
use lz.Decoder.Buffer.Shrink.{Holds}
use lz.Decoder.Buffer.Room.{fit-succeeds, fit-fails, fit-Kept}
use lz.Decoder.Buffer.Refine.{
  Took, Refused, write_lem, write_byte_lem, write-fits, write-full, write_byte-fits,
}
use lz.Decoder.Buffer.Read.{write_to_lem}
use lz.Decoder.Stream.{
  Decoder, Outcome, returned, unfinished, or_panic, is_full, flush, write, write_byte,
}

module _ (w : Writer) (law : IsWriter w) where
  open law use {received}

  -- A decoder that was written `text`: its writer has a front part of it, and its buffer holds an end
  -- from which exactly that part counts as read.
  pub record Serves (text : Bytes) (d : Decoder w) : Type 0 where
    pub holds : Holds text (length (received d.sink)) d.buf
    pub sent : received d.sink ≡ take (length (received d.sink)) text

  -- What the writer answers to a flush: the bytes it takes, its error, and its state
  abbrev pub answered : Bytes → w.State → ℕ × Option Error × w.State
  answered text st = w.write st (drop (length (received st)) text)

  module _ {text : Bytes} {d : Decoder w} (s : Serves text d) where
    out : ℕ
    out = length (received d.sink)

    answer : ℕ × Option Error × w.State
    answer = w.write d.sink (drop (length (received d.sink)) text)

    -- the writer has a longer front part
    delivered : received (answer.2) ≡ take (out + answer.0) text
    unfolding answer out
    delivered =
        law.took d.sink (drop out text)
        ∙ ap (λ t. t ++ take answer.0 (drop out text)) s.sent
        ∙ take_add out answer.0 (out + answer.0) text refl

    delivered-length : length (received (answer.2)) ≡ out + answer.0
    unfolding answer out
    delivered-length = omega (
      arith,
      ap length delivered,
      length-take (out + answer.0) text,
      law.front d.sink (drop out text),
      length-drop out text,
      ap length s.sent,
      length-take out text,
    )

    flushed :
        (d' : Decoder w) × (e : Option Error) × (flush w d ≡ some (d', e))
        × Serves text d'
        × (e ≡ none → received d'.sink ≡ text)
        × (d'.buf.window_size ≡ d.buf.window_size)
        × (d'.buf.buffer_size ≡ d.buf.buffer_size)
        × (d'.buf.slice.cap ≡ d.buf.slice.cap)
        × (e ≡ (answered text d.sink).1)
        × (d'.sink ≡ (answered text d.sink).2)
    unfolding flush answer out
    flushed =
        let (b', run, holds, _, window, size, cap) = write_to_lem w law d.sink s.holds in
        (
          record { buf = b'; sink = answer.2 },
          answer.1,
          rw run,
          record { holds = rw delivered-length holds; sent = rw delivered-length delivered },
          (λ ok.
              delivered
              ∙ take-all (out + answer.0) text
                  (omega (arith, law.short d.sink (drop out text) ok, length-drop out text))),
          window,
          size,
          cap,
          refl,
          refl,
        )

    -- `Flush` never panics. It keeps the text, and the writer has all of it unless it returned an
    -- error, which `Flush` returns.
    pub flush_lem :
        (d' : Decoder w) × (e : Option Error) × (flush w d ≡ some (d', e))
        × Serves text d'
        × (((e ≡ none) × (received d'.sink ≡ text)) ⊎ (e ≢ none))
    flush_lem =
        let (d', e, run, s', all, _, _, _, _, _) = flushed in
        (d', e, run, s', delivered_or_not e all)
      where
        delivered_or_not :
            {got : Bytes} (e : Option Error)
            → (e ≡ none → got ≡ text)
            → ((e ≡ none) × (got ≡ text)) ⊎ (e ≢ none)
        delivered_or_not none all = inl (refl, all refl)
        delivered_or_not (some err) all = inr (ground arith)

  -- A buffer that holds the text, behind a writer that was not called.
  same-Serves :
      {text : Bytes} {d : Decoder w} {b : Buffer}
      → Serves text d
      → Holds text (length (received d.sink)) b
      → Serves text (record d { buf = b })
  same-Serves s h = record { holds = h; sent = s.sent }

  -- What `Write` does to the text: all of `p`, or nothing with the error that the writer gave to a flush.
  abbrev pub WriteRun :
      Bytes → Decoder w → Bytes → ℕ → Outcome (Decoder w × ℕ × Option Error) → Type 0
  WriteRun text d p n run =
      (d' : Decoder w) × (n' : ℕ) × (e : Option Error) × (run ≡ returned (d', n', e))
      × (((e ≡ none) × (n' ≡ n + length p) × Serves (text ++ p) d')
          ⊎ ((e ≢ none)
              × (e ≡ (answered text d.sink).1)
              × (d'.sink ≡ (answered text d.sink).2)
              × (n' ≡ n)
              × Serves text d'))

  -- What was sent stays a front part when the text grows.
  grown-Serves :
      {text : Bytes} (p : Bytes) {d : Decoder w} {b : Buffer}
      → Serves text d
      → Holds (text ++ p) (length (received d.sink)) b
      → Serves (text ++ p) (record d { buf = b })
  grown-Serves {text} p {d} s h = record {
    holds = h;
    sent =
        s.sent
        ∙ sym (
            take-append_le (length (received d.sink)) text p
              (omega (arith, ap length s.sent, length-take (length (received d.sink)) text)));
  }

  module _ (gr : Growth) where
    wrote :
        (fuel : ℕ) (p : Bytes) (n : ℕ) {text : Bytes} {d : Decoder w} (first : Decoder w)
        → Serves text d
        → (Buffer.write gr d.buf p).2 ≡ none
        → Took
            (text ++ p)
            (length (received d.sink))
            d.buf
            (length p)
            (Buffer.write gr d.buf p).0
            (Buffer.write gr d.buf p).1
        → WriteRun text first p n (write w gr (suc fuel) d p n)
    unfolding write is_full
    wrote fuel p n {d = d} first s ok took = rw ok (
      record d { buf = (Buffer.write gr d.buf p).0 },
      n + (Buffer.write gr d.buf p).1,
      none,
      refl,
      inl (refl, ap (λ k. n + k) took.count, grown-Serves p s took.holds),
    )

    -- After a flush that left no error, `p` goes in at once.
    write_flushed :
        (fuel : ℕ) (p : Bytes) (n : ℕ) {text : Bytes} {d : Decoder w} (first : Decoder w)
        → Serves text d
        → received d.sink ≡ text
        → length p + d.buf.window_size ≤ d.buf.buffer_size
        → WriteRun text first p n (write w gr (suc fuel) d p n)
    write_flushed fuel p n {text} {d} first s all room = elim (write_lem gr p s.holds) [
      | inl (ok, took) ↦ wrote fuel p n first s ok took
      | inr (full, refused) ↦
          cc (full, write-fits gr d.buf p (fit-succeeds (length p) s.holds (ap length all) room))
    ]

    -- The rest of a round whose write was refused.
    after_flush :
        (e : Option Error) (fuel : ℕ) (p : Bytes) (n k : ℕ) {text : Bytes} {d : Decoder w}
        (first : Decoder w)
        → k ≡ 0
        → Serves text d
        → e ≡ (answered text first.sink).1
        → d.sink ≡ (answered text first.sink).2
        → (e ≡ none → received d.sink ≡ text)
        → length p + d.buf.window_size ≤ d.buf.buffer_size
        → WriteRun text first p n (elim e [
          | some err ↦ returned (d, n + k, some err)
          | none ↦ or_panic (slice_from k p) (λ q. write w gr (suc fuel) d q (n + k))
        ])
    after_flush none fuel p n k {text} first z s error state all room =
        rw (z, slice_from_lem 0 p (omega arith), add-zero)
          (write_flushed fuel p n first s (all refl) room)
    after_flush (some err) fuel p n k {d = d} first z s error state all room =
        (d, n + k, some err, refl, inr (ground arith, error, state, omega (arith, z), s))

    retried :
        (fuel : ℕ) (p : Bytes) (n : ℕ) {text : Bytes} {d : Decoder w}
        → Serves text d
        → length p + d.buf.window_size ≤ d.buf.buffer_size
        → (Buffer.write gr d.buf p).2 ≡ some Error.err_full_buffer
        → Refused text
            (length (received d.sink))
            d.buf
            (Buffer.write gr d.buf p).0
            (Buffer.write gr d.buf p).1
        → WriteRun text d p n (write w gr (suc (suc fuel)) d p n)
    unfolding write is_full
    retried fuel p n {d = d} s room full refused =
        let (d', e, run, s', all, window, size, _, error, state) =
          flushed (same-Serves s refused.holds) in
        rw (full, run)
          (after_flush e fuel p n (Buffer.write gr d.buf p).1 d refused.count s' error state all
            (omega (arith, window, size, refused.window, refused.size)))

    -- In front of a writer as `io.Writer` describes it, `Write` never panics, and its loop returns in two rounds, if `p`
    -- and the window fit into `BufferSize` together. Either the bytes are appended to the text without an error; or the
    -- text is kept, the writer was handed all of the text that it had not got, and the error is the one that it answered.
    pub stream-write_lem :
        (fuel : ℕ) (p : Bytes) (n : ℕ) {text : Bytes} {d : Decoder w}
        → Serves text d
        → length p + d.buf.window_size ≤ d.buf.buffer_size
        → WriteRun text d p n (write w gr (suc (suc fuel)) d p n)
    stream-write_lem fuel p n {text} {d} s room = elim (write_lem gr p s.holds) [
      | inl (ok, took) ↦ wrote (suc fuel) p n d s ok took
      | inr (full, refused) ↦ retried fuel p n s room full refused
    ]

    -- A round that wrote nothing, with a writer that returned no error.
    again :
        (e : Option Error) (fuel : ℕ) (p : Bytes) (n k : ℕ) (d : Decoder w)
        → e ≡ none
        → k ≡ 0
        → write w gr fuel d p n ≡ unfinished
        → ◌≡◌ {A = Outcome (Decoder w × ℕ × Option Error)}
            (elim e [
              | some err ↦ returned (d, n + k, some err)
              | none ↦ or_panic (slice_from k p) (λ q. write w gr fuel d q (n + k))
            ])
            unfinished
    again none fuel p n k d calm z rest = rw (z, slice_from_lem 0 p (omega arith), add-zero) rest
    again (some e) fuel p n k d calm z rest = cc

    -- A slice larger than `BufferSize` is never written, if the capacity of the buffer's slice is at most `BufferSize` and
    -- the writer never returns an error: whatever the number of rounds, none of them panics, and the last one does not
    -- return.
    pub stream-write_hangs :
        ((st : w.State) (q : Bytes) → (w.write st q).1 ≡ none)
        → (fuel : ℕ) (p : Bytes) (n : ℕ) {text : Bytes} {d : Decoder w} → Serves text d
        → d.buf.slice.cap ≤ d.buf.buffer_size
        → d.buf.buffer_size < length p
        → write w gr fuel d p n ≡ unfinished
    unfolding write is_full
    stream-write_hangs good zero p n s small large = refl
    stream-write_hangs good (suc fuel) p n {text} {d} s small large =
        let stays = fit-fails d.buf (length p) small large in
        let b = (fit d.buf (length (data_of d.buf) + length p)).0 in
        let none_written = write-full gr d.buf p stays.0 in
        let holds : Holds text (length (received d.sink)) (Buffer.write gr d.buf p).0 =
          rw none_written (fit-Kept s.holds (length (data_of d.buf) + length p)).holds in
        let size' : (Buffer.write gr d.buf p).0.buffer_size ≡ d.buf.buffer_size =
          ap (λ t. t.0.buffer_size) none_written ∙ stays.1 in
        let cap' : (Buffer.write gr d.buf p).0.slice.cap ≡ d.buf.slice.cap =
          ap (λ t. t.0.slice.cap) none_written ∙ stays.2 in
        let (d', e, run, s', _, _, size, room, error, _) = flushed (same-Serves s holds) in
        rw (ap (λ t. t.2) none_written, run)
          (again e fuel p n (Buffer.write gr d.buf p).1 d'
            (error ∙ good d.sink (drop (length (received d.sink)) text))
            (ap (λ t. t.1) none_written)
            (stream-write_hangs good fuel p n s' (omega (arith, size, room)) (omega (arith, size))))

    -- What `WriteByte` does to the text.
    abbrev pub ByteRun : Bytes → Decoder w → ℕ → Outcome (Decoder w × Option Error) → Type 0
    ByteRun text d c run =
        (d' : Decoder w) × (e : Option Error) × (run ≡ returned (d', e))
        × (((e ≡ none) × Serves (text ++ c ∷ []) d')
            ⊎ ((e ≢ none)
                × (e ≡ (answered text d.sink).1)
                × (d'.sink ≡ (answered text d.sink).2)
                × Serves text d'))

    byte_wrote :
        (fuel c : ℕ) {text : Bytes} {d : Decoder w} (first : Decoder w)
        → Serves text d
        → (Buffer.write_byte gr d.buf c).1 ≡ none
        → Holds (text ++ c ∷ []) (length (received d.sink)) (Buffer.write_byte gr d.buf c).0
        → ByteRun text first c (write_byte w gr (suc fuel) d c)
    unfolding write_byte is_full
    byte_wrote fuel c {d = d} first s ok holds = rw ok (
      record d { buf = (Buffer.write_byte gr d.buf c).0 },
      none,
      refl,
      inl (refl, grown-Serves (c ∷ []) s holds),
    )

    byte_flushed :
        (fuel c : ℕ) {text : Bytes} {d : Decoder w} (first : Decoder w)
        → Serves text d
        → received d.sink ≡ text
        → ByteRun text first c (write_byte w gr (suc fuel) d c)
    byte_flushed fuel c {text} {d} first s all = elim (write_byte_lem gr c s.holds) [
      | inl (ok, took) ↦ byte_wrote fuel c first s ok took.holds
      | inr (full, refused) ↦ cc (
        full,
        write_byte-fits gr d.buf c
            (fit-succeeds 1 s.holds (ap length all) (omega (arith, s.holds.valid.window_in))),
      )
    ]

    byte_after_flush :
        (e : Option Error) (fuel c : ℕ) {text : Bytes} {d : Decoder w} (first : Decoder w)
        → Serves text d
        → e ≡ (answered text first.sink).1
        → d.sink ≡ (answered text first.sink).2
        → (e ≡ none → received d.sink ≡ text)
        → ByteRun text first c
            (elim e [ some err ↦ returned (d, some err) | none ↦ write_byte w gr (suc fuel) d c ])
    byte_after_flush none fuel c first s error state all = byte_flushed fuel c first s (all refl)
    byte_after_flush (some err) fuel c {d = d} first s error state all =
        (d, some err, refl, inr (ground arith, error, state, s))

    byte_retried :
        (fuel c : ℕ) {text : Bytes} {d : Decoder w}
        → Serves text d
        → (Buffer.write_byte gr d.buf c).1 ≡ some Error.err_full_buffer
        → Holds text (length (received d.sink)) (Buffer.write_byte gr d.buf c).0
        → ByteRun text d c (write_byte w gr (suc (suc fuel)) d c)
    unfolding write_byte is_full
    byte_retried fuel c {d = d} s full holds =
        let (d', e, run, s', all, _, _, _, error, state) = flushed (same-Serves s holds) in
        rw (full, run) (byte_after_flush e fuel c d s' error state all)

    -- In front of a writer as `io.Writer` describes it, `WriteByte` never panics, and its loop returns in two rounds: the
    -- byte is appended to the text, or the text is kept and the error is the one that the writer answered.
    pub stream-write_byte_lem :
        (fuel c : ℕ) {text : Bytes} {d : Decoder w}
        → Serves text d
        → ByteRun text d c (write_byte w gr (suc (suc fuel)) d c)
    stream-write_byte_lem fuel c {d = d} s = elim (write_byte_lem gr c s.holds) [
      | inl (ok, took) ↦ byte_wrote (suc fuel) c d s ok took.holds
      | inr (full, refused) ↦ byte_retried fuel c s full refused.holds
    ]
