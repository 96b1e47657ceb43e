-- ===== src/Greedy/SetUp.antt =====
-- The buffer that `Init` sets up is ready, and empty.
use lz.Prelude.{◌≡◌, refl, ◌⊎◌, arith, inl, inr, none, some, [], Option-cases}
use lz.Prelude.Int.{pos, pos_part}
use lz.Lz.{Error}
use lz.Config.Buffer as BufConfig
use lz.Config.Buffer.{BufConfig}
use lz.Bytes.Prefix.{AreBytes}
use lz.ParserBuffer
use lz.ParserBuffer.{ParserBuffer, memory}
use lz.ParserBuffer.Text.{IsValid, Holds}
use lz.Greedy.RoundTrip.{IsReady}

abbrev made : ParserBuffer → BufConfig → ParserBuffer
made b c = record {
  data_bytes = [];
  spare = memory b;
  w = 0;
  off = pos 0;
  shrink_size = pos_part c.shrink_size;
  buffer_size = pos_part c.buffer_size;
  window_size = pos_part c.window_size;
  block_size = pos_part c.block_size;
}

made-IsValid : (b : ParserBuffer) (c : BufConfig) → BufConfig.verify c ≡ none → IsValid (made b c)
unfolding BufConfig.verify
made-IsValid b c ok = record {
  head_in = omega arith;
  in_size = omega arith;
  margin = inl refl;
  shrink_in = ground (arith, ok);
}

made-IsReady :
    (b : ParserBuffer) (c : BufConfig)
    → BufConfig.verify c ≡ none
    → AreBytes (memory b)
    → IsReady (made b c)
unfolding BufConfig.verify
made-IsReady b c ok bytes = record {
  valid = made-IsValid b c ok;
  bytes = bytes;
  blocks = ground (arith, ok);
  small = ground (arith, ok);
}

made-Holds : (b : ParserBuffer) (c : BufConfig) → BufConfig.verify c ≡ none → Holds [] 0 (made b c)
made-Holds b c ok = record {
  gone = [];
  whole = refl;
  offset = refl;
  at_head = refl;
  valid = made-IsValid b c ok;
}

pub buffer_init :
    (b : ParserBuffer) (cfg : BufConfig)
    → AreBytes (memory b)
    → ((e : Error) × (ParserBuffer.init b cfg ≡ (b, some e)))
      ⊎ ((b' : ParserBuffer) × (ParserBuffer.init b cfg ≡ (b', none)) × IsReady b' × Holds [] 0 b')
unfolding ParserBuffer.init
buffer_init b cfg bytes = elim (Option-cases (BufConfig.verify (BufConfig.set_defaults cfg))) [
  | inr (e, bad) ↦ inl (e, rw (bad, ParserBuffer.init) refl)
  | inl ok ↦ inr (
    made b (BufConfig.set_defaults cfg),
    rw (ok, ParserBuffer.init) refl,
    made-IsReady b (BufConfig.set_defaults cfg) ok bytes,
    made-Holds b (BufConfig.set_defaults cfg) ok,
  )
]
