-- ===== src/Config/Laws.antt =====
-- What the configurations accept, and what their defaults are.
use lz.Prelude.{◌≡◌, arith, none}
use lz.Prelude.Int.{pos, ◌≤ℤ◌}
use lz.Config.Buffer
use lz.Config.Buffer.{BufConfig, max_size}

-- After `SetDefaults` a configuration passes `Verify` if its window, buffer and block sizes were 0 or in
-- their ranges, and its shrink size was 0.
pub set_defaults-verify :
    (cfg : BufConfig)
    → pos 0 ≤ℤ cfg.window_size
    → cfg.window_size ≤ℤ max_size
    → pos 0 ≤ℤ cfg.buffer_size
    → cfg.buffer_size ≤ℤ max_size
    → pos 0 ≤ℤ cfg.block_size
    → cfg.block_size ≤ℤ max_size
    → cfg.shrink_size ≡ pos 0
    → Buffer.verify (Buffer.set_defaults cfg) ≡ none
unfolding Buffer.verify Buffer.set_defaults
set_defaults-verify cfg a b c d e f g = ground arith
