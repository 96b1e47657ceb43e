-- ===== src/Config/Buffer.antt =====
-- `BufConfig` of lz.go.
use lz.Prelude.{◌*◌, ◌-◌, ◌/◌, Option, none, some, not, if◌then◌else◌}
use lz.Prelude.Int.{ℤ, pos, negsuc, ltb_ℤ}
use lz.Lz.{Error, Setting, kib, mib, max_uint32}
use lz.Config.{is_zero, in_range}

pub record BufConfig : Type 0 where
  pub shrink_size : ℤ
  pub buffer_size : ℤ
  pub window_size : ℤ
  pub block_size : ℤ

-- `x >> 1`, which rounds down
unfoldable pub half : ℤ → ℤ
half (pos n) = pos (n / 2)
half (negsuc n) = negsuc (n / 2)

unfoldable pub set_defaults : BufConfig → BufConfig
unfolding half
set_defaults cfg =
    let w = if is_zero cfg.window_size then pos (8 * mib) else cfg.window_size in
    let b = if is_zero cfg.buffer_size then w else cfg.buffer_size in
    let short = if ltb_ℤ b (pos (64 * kib)) then half b else pos (32 * kib) in
    record {
      shrink_size = if is_zero cfg.shrink_size then short else cfg.shrink_size;
      buffer_size = b;
      window_size = w;
      block_size = if is_zero cfg.block_size then pos (128 * kib) else cfg.block_size;
    }

-- `maxSize`, with `int` of 64 bits: room for the margin of the hash parsers
abbrev pub max_size : ℤ
max_size = pos (max_uint32 - 7)

unfoldable pub verify : BufConfig → Option Error
verify cfg =
    if not (in_range (pos 1) cfg.buffer_size max_size)
    then some (Error.err_range Setting.buffer_size)
    else if not (in_range (pos 0) cfg.shrink_size cfg.buffer_size)
    then some (Error.err_range Setting.shrink_size)
    else if not (in_range (pos 0) cfg.window_size max_size)
    then some (Error.err_range Setting.window_size)
    else if not (in_range (pos 1) cfg.block_size max_size)
    then some (Error.err_range Setting.block_size)
    else none
