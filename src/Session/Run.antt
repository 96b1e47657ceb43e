-- ===== src/Session/Run.antt =====
-- What a decoder makes of the blocks of a parser is the front of the text that was written to it.
use lz.Prelude.{
  some-inj, ℕ, zero, suc, ◌+◌, ◌-◌, ◌≤◌, ◌≡◌, refl, sym, ap, ◌∙◌, arith, Bool, false, Option, none,
  some, ◌++◌, length, take, drop, length-append, take-append_add, ap_at, take-append_le, take-all,
  take-append-drop, [],
}
use mathlib.Core.Path.{subst}
use lz.Lz.{Bytes, Block, Error}
use lz.Slices.{Growth}
use lz.Spec.{decode}
use lz.Bytes.Prefix.{AreBytes}
use lz.ParserBuffer.{ParserBuffer}
use lz.ParserBuffer.Text.{Holds}
use lz.Greedy.RoundTrip.{IsReady, Parsed, at_end, next_block}
use lz.Session.{Parser, State, Step, wrote, parsed, refused, shrunk, Reaches, here, then}

-- What the calls of a parser promise, where it is ready
pub record Laws {F : Type 0} (s : Parser F) (Ready : F → Type 0) : Type 0 where
  pub buffer_ready : (f : F) → Ready f → IsReady (s.buffer f)
  pub parses :
      (f : F) (no_literals : Bool)
      → Ready f
      → (out : F × Block × ℕ × Option Error) × (s.parse f no_literals ≡ some out)
        × Parsed s.buffer Ready f out
  pub writes :
      (gr : Growth) (f : F) (p text : Bytes) (head : ℕ) (out : F × ℕ × Option Error)
      → Ready f
      → Holds text head (s.buffer f)
      → AreBytes p
      → s.write gr f p ≡ some out
      → Ready (out.0) × Holds (text ++ take (out.1) p) head (s.buffer (out.0))
  pub shrinks :
      (f : F) (text : Bytes) (head : ℕ) (out : F × ℕ)
      → Ready f
      → Holds text head (s.buffer f)
      → s.shrink f ≡ some out
      → Ready (out.0) × Holds text head (s.buffer (out.0))

-- The parser is ready and holds what was written, and up to its head that has been decoded.
pub record IsSession {F : Type 0} (s : Parser F) (Ready : F → Type 0) (t : State F) : Type 0 where
  pub head : ℕ
  pub ready : Ready t.parser
  pub holds : Holds t.written head (s.buffer t.parser)
  pub decoded : t.decoded ≡ take head t.written

-- The head lies in the text.
head-in : {text : Bytes} {head : ℕ} {b : ParserBuffer} → Holds text head b → head ≤ length text
head-in {b = b} h =
    omega (arith, h.at_head, h.valid.head_in, ap length h.whole, length-append h.gone b.data_bytes)

-- The text up to a position in the buffer
up_to :
    {text : Bytes} {head : ℕ} {b : ParserBuffer} (h : Holds text head b) (k : ℕ)
    → take (length h.gone + k) text ≡ h.gone ++ take k b.data_bytes
up_to {b = b} h k =
    ap (take (length h.gone + k)) (sym h.whole)
    ∙ take-append_add (length h.gone + k) k h.gone b.data_bytes refl

-- The head moves with the block that was parsed.
forward-Holds :
    {text : Bytes} {head : ℕ} {b b' : ParserBuffer} (n : ℕ)
    → Holds text head b
    → b' ≡ record b { w = b.w + n }
    → IsReady b'
    → Holds text (head + n) b'
forward-Holds {b = b} {b' = b'} n h same r = record {
  gone = h.gone;
  whole = ap (λ c. h.gone ++ c.data_bytes) same ∙ h.whole;
  offset = ap (λ c. c.off) same ∙ h.offset;
  at_head = omega (arith, ap (λ c. c.w) same, h.at_head);
  valid = r.valid;
}

module _ {F : Type 0} (s : Parser F) (Ready : F → Type 0) (law : Laws s Ready) where
  block_step :
      {f f' : F} {text out : Bytes} {blk : Block} {n : ℕ}
      → IsSession s Ready (record { parser = f; written = text; decoded = out })
      → Parsed s.buffer Ready f (f', blk, n, none)
      → IsSession s Ready (record { parser = f'; written = text; decoded = decode blk out })
  block_step {f} {f'} {text} {out} {blk} {n} inv (next_block pos le same ready within means) =
      let h = inv.holds in
      let b = s.buffer f in
      record {
        head = inv.head + n;
        ready = ready;
        holds = forward-Holds n h same (law.buffer_ready f' ready);
        decoded =
            ap (decode blk) (
              inv.decoded
              ∙ ap_at (λ k. take k text) inv.head (length h.gone + b.w) (sym h.at_head)
              ∙ up_to h b.w)
            ∙ means h.gone
            ∙ sym (up_to h (b.w + n))
            ∙ ap_at (λ k. take k text) (length h.gone + (b.w + n)) (inv.head + n)
                (omega (arith, h.at_head));
      }

  refused_step :
      {f f' : F} {text out : Bytes} {blk : Block} {n : ℕ} {e : Error}
      → IsSession s Ready (record { parser = f; written = text; decoded = out })
      → Parsed s.buffer Ready f (f', blk, n, some e)
      → IsSession s Ready (record { parser = f'; written = text; decoded = out })
  refused_step inv (at_end end) = inv

  Step-IsSession : {a c : State F} → IsSession s Ready a → Step s a c → IsSession s Ready c
  Step-IsSession inv (wrote {f} {f'} {text} {out} {gr} {p} {n} {e} bytes run) =
      let (ready, holds) =
        law.writes gr f p text inv.head (f', n, e) inv.ready inv.holds bytes run in
      record {
        head = inv.head;
        ready = ready;
        holds = holds;
        decoded = inv.decoded ∙ sym (take-append_le inv.head text (take n p) (head-in inv.holds));
      }
  Step-IsSession inv (parsed {f} {f'} {text} {out} {no_literals} {blk} {n} run) =
      let (result, run', good) = law.parses f no_literals inv.ready in
      block_step inv
        (subst (Parsed s.buffer Ready f) (some-inj (f', blk, n, none) (sym run' ∙ run)) good)
  Step-IsSession inv (refused {f} {f'} {text} {out} {no_literals} {blk} {n} {e} run) =
      let (result, run', good) = law.parses f no_literals inv.ready in
      refused_step inv
        (subst (Parsed s.buffer Ready f) (some-inj (f', blk, n, some e) (sym run' ∙ run)) good)
  Step-IsSession inv (shrunk {f} {f'} {text} {out} {n} run) =
      let (ready, holds) = law.shrinks f text inv.head (f', n) inv.ready inv.holds run in
      record { head = inv.head; ready = ready; holds = holds; decoded = inv.decoded }

  pub Reaches-IsSession :
      {a c : State F} → IsSession s Ready a → Reaches s a c → IsSession s Ready c
  Reaches-IsSession inv here = inv
  Reaches-IsSession inv (then before step) = Step-IsSession (Reaches-IsSession inv before) step

  -- After any number of calls of a parser that is ready and empty, in any order, what a decoder has made
  -- of its blocks is the front of the text that was written to it.
  pub session_lem :
      (f : F) (t : State F)
      → Ready f
      → Holds [] 0 (s.buffer f)
      → Reaches s (record { parser = f; written = []; decoded = [] }) t
      → (rest : Bytes) × (t.decoded ++ rest ≡ t.written)
  session_lem f t ready empty run =
      let inv =
        Reaches-IsSession (record { head = 0; ready = ready; holds = empty; decoded = refl }) run in
      (
        drop inv.head t.written,
        ap (λ d. d ++ drop inv.head t.written) inv.decoded ∙ take-append-drop inv.head t.written,
      )

  first : {a b c : State F} → Step s a b → Reaches s b c → Reaches s a c
  first step here = then here step
  first step (then before last) = then (first step before) last

  -- The bytes that are not yet parsed
  abbrev left : F → ℕ
  left f = length (s.buffer f).data_bytes - (s.buffer f).w

  unfoldable pub Finishes : State F → Type 0
  Finishes t = (c : State F) × Reaches s t c × (c.written ≡ t.written) × (c.decoded ≡ c.written)

  all_parsed :
      (t : State F)
      → IsSession s Ready t
      → (s.buffer t.parser).w ≡ length (s.buffer t.parser).data_bytes
      → t.decoded ≡ t.written
  all_parsed t inv e =
      inv.decoded
      ∙ take-all inv.head t.written (
          omega (
            arith,
            e,
            inv.holds.at_head,
            ap length inv.holds.whole,
            length-append inv.holds.gone (s.buffer t.parser).data_bytes,
          ))

  -- What a call of `Parse` does for the rest, if the calls after it finish.
  finish_next :
      (k : ℕ) {f : F} {text out : Bytes}
      → ((t : State F) → IsSession s Ready t → left t.parser ≤ k → Finishes t)
      → (result : F × Block × ℕ × Option Error)
      → IsSession s Ready (record { parser = f; written = text; decoded = out })
      → left f ≤ suc k
      → s.parse f false ≡ some result
      → Parsed s.buffer Ready f result
      → Finishes (record { parser = f; written = text; decoded = out })
  unfolding Finishes
  finish_next k {f} {text} {out} rest result inv few run (at_end e) =
      (record { parser = f; written = text; decoded = out }, here, refl, all_parsed _ inv e)
  finish_next k {f} {text} {out} rest result inv few run
        (next_block {f'} {blk} {n} pos le same ready within means) =
      let fewer : left f' ≤ k =
        omega (arith, few, pos, ap length (ap (λ c. c.data_bytes) same), ap (λ c. c.w) same) in
      let (c, reached, w, d) =
        rest _ (block_step inv (next_block pos le same ready within means)) fewer in
      (c, first (parsed run) reached, w, d)

  finish : (k : ℕ) (t : State F) → IsSession s Ready t → left t.parser ≤ k → Finishes t
  unfolding Finishes
  finish zero t inv few =
      (t, here, refl, all_parsed t inv (omega (arith, few, inv.holds.valid.head_in)))
  finish (suc k) t inv few =
      let (result, run, good) = law.parses t.parser false inv.ready in
      finish_next k (λ t' inv' few'. finish k t' inv' few') result inv few run good

  -- From every state that calls of a parser that is ready and empty lead to, further calls lead to a state
  -- where nothing more is written and a decoder has made all of the written text of its blocks.
  pub session_finishes :
      (f : F) (t : State F)
      → Ready f
      → Holds [] 0 (s.buffer f)
      → Reaches s (record { parser = f; written = []; decoded = [] }) t
      → (c : State F) × Reaches s t c × (c.written ≡ t.written) × (c.decoded ≡ c.written)
  unfolding Finishes
  session_finishes f t ready empty run =
      let inv =
        Reaches-IsSession (record { head = 0; ready = ready; holds = empty; decoded = refl }) run in
      finish (left t.parser) t inv (omega arith)
