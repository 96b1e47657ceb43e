-- ===== src/Tests/Configs.antt =====
-- The integers and the configurations.
use lz.Prelude.Int.{pos}
use lz.Lz.{mib}
use lz.Config.Buffer
use lz.Config.Buffer.{BufConfig}

abbrev unset : BufConfig
unset = record {
  shrink_size = pos 0;
  buffer_size = pos 0;
  window_size = pos mib;
  block_size = pos 0;
}
