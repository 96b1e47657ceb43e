-- ===== src/Session/Embed.antt =====
-- A parser that embeds its buffer: `Write` and `Shrink` keep it ready.
use Prim.Native.Nat.{min}
use lz.Prelude.{some-inj, ℕ, ◌-◌, ◌≡◌, sym, ap, ◌∙◌, Option, some, ◌>>=◌, ◌++◌, length, take}
use mathlib.Core.Path.{subst}
use lz.Lz.{Bytes, Error}
use lz.Slices.{Growth}
use lz.Bytes.Prefix.{AreBytes}
use lz.ParserBuffer.{ParserBuffer}
use lz.ParserBuffer.Text.{Holds, buffer-write_lem, shrink_lem}
use lz.Greedy.RoundTrip.{IsReady}
use lz.Session.{write_with, shrink_with}
use lz.Session.Buffer.{write-IsReady, shrink-IsReady}

-- A method of the buffer, in a parser that embeds it
module _ {F : Type 0} (buffer : F → ParserBuffer) (set : F → ParserBuffer → F)
    (same : (f : F) (b : ParserBuffer) → buffer (set f b) ≡ b) (Ready : F → Type 0)
    (from : (f : F) → Ready f → IsReady (buffer f))
    (keeps : (f : F) (b : ParserBuffer) → Ready f → IsReady b → Ready (set f b)) where
  pub write_with_lem :
      (gr : Growth) (f : F) (p text : Bytes) (head : ℕ) (out : F × ℕ × Option Error)
      → Ready f
      → Holds text head (buffer f)
      → AreBytes p
      → write_with buffer set gr f p ≡ some out
      → Ready (out.0) × Holds (text ++ take (out.1) p) head (buffer (out.0))
  unfolding write_with
  write_with_lem gr f p text head out r h bytes e =
      let n = min (length p) ((buffer f).buffer_size - length (buffer f).data_bytes) in
      let (b, run, _, _) = buffer-write_lem gr p h in
      let (ready, holds) = write-IsReady (buffer f) (from f r) text head h gr p _ bytes run in
      subst (λ o. Ready (o.0) × Holds (text ++ take (o.1) p) head (buffer (o.0)))
        (some-inj out (
          sym (
            ap {B = Option (F × ℕ × Option Error)} (λ o. o >>= (λ (b, n, e). some (set f b, n, e)))
              run)
          ∙ e))
        (keeps f b r ready, subst (λ c. Holds (text ++ take n p) head c) (sym (same f b)) holds)

module _ {F : Type 0} (buffer : F → ParserBuffer) (after : F → ParserBuffer → ℕ → Option (F × ℕ))
    (Ready : F → Type 0) (from : (f : F) → Ready f → IsReady (buffer f))
    (moves : (f : F) (b : ParserBuffer) (d : ℕ)
      → Ready f
      → IsReady b
      → (f' : F) × (after f b d ≡ some (f', d)) × Ready f' × (buffer f' ≡ b)) where
  pub shrink_with_lem :
      (f : F) (text : Bytes) (head : ℕ) (out : F × ℕ)
      → Ready f
      → Holds text head (buffer f)
      → shrink_with buffer after f ≡ some out
      → Ready (out.0) × Holds text head (buffer (out.0))
  unfolding shrink_with
  shrink_with_lem f text head out r h e =
      let d = (buffer f).w - (buffer f).shrink_size in
      let (b, run, _, _, _, _) = shrink_lem h in
      let (ready, holds) = shrink-IsReady (buffer f) (from f r) text head h _ run in
      let (f', run', ready', same) = moves f b d r ready in
      subst (λ o. Ready (o.0) × Holds text head (buffer (o.0)))
        (some-inj out (
          sym (ap {B = Option (F × ℕ)} (λ o. o >>= (λ (b, delta). after f b delta)) run ∙ run')
          ∙ e))
        (ready', subst (λ c. Holds text head c) (sym same) holds)
