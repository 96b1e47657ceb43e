-- ===== src/Decoder/Config.antt =====
-- `DecoderConfig` of decoder_buffer.go. Its sizes are Go integers, negative ones included.
use lz.Prelude.{◌*◌, Option, none, some, ◌&&◌, not, if◌then◌else◌}
use lz.Prelude.Int.{ℤ, pos, ◌*ℤ◌, ltb_ℤ}
use lz.Config.{is_zero, le_ℤ}
use lz.Lz.{Error, Setting, mib, max_uint32}

pub record Config : Type 0 where
  pub window_size : ℤ
  pub buffer_size : ℤ

unfoldable pub set_defaults : Config → Config
set_defaults cfg =
    let w = if is_zero cfg.window_size then pos (8 * mib) else cfg.window_size in
    record {
      window_size = w;
      buffer_size = if is_zero cfg.buffer_size then pos 2 *ℤ w else cfg.buffer_size;
    }

unfoldable pub verify : Config → Option Error
verify cfg =
    if not (le_ℤ (pos 1) cfg.buffer_size && le_ℤ cfg.buffer_size (pos max_uint32))
    then some (Error.err_range Setting.buffer_size)
    else if not (le_ℤ (pos 0) cfg.window_size && ltb_ℤ cfg.window_size cfg.buffer_size)
    then some (Error.err_range Setting.window_size)
    else none
