-- ===== src/OptSuffixParser/Config.antt =====
-- `OSAPConfig` of osap.go, and `init`.
use lz.Prelude.{◌&&◌, not, Option, none, some, if◌then◌else◌}
use lz.Prelude.Int.{ℤ, pos, pos_part}
use lz.Lz.{Error, Setting}
use lz.Config.{is_zero, le_ℤ}
use lz.Config.Buffer as BufConfig
use lz.Config.Buffer.{BufConfig}
use lz.ParserBuffer
use lz.OptSuffixParser.{Parser, no_graph, xz_cost}

-- The strings for `Cost`: `unset` is "", and `named` is "XZCost".
pub data Cost : Type 0 where
  unset named unknown : Cost

-- `OSAPConfig`, with its buffer parameters as a `BufConfig`
pub record Config : Type 0 where
  pub buffer : BufConfig
  pub min_match_len : ℤ
  pub max_match_len : ℤ
  pub cost : Cost

unfoldable pub set_defaults : Config → Config
set_defaults cfg =
    let bc = BufConfig.set_defaults cfg.buffer in
    record {
      buffer =
          if is_zero cfg.buffer.buffer_size then record bc { buffer_size = bc.window_size } else bc;
      min_match_len = if is_zero cfg.min_match_len then pos 3 else cfg.min_match_len;
      max_match_len = if is_zero cfg.max_match_len then pos 273 else cfg.max_match_len;
      cost = elim cfg.cost [ unset ↦ named | named ↦ named | unknown ↦ unknown ];
    }

unfoldable pub verify : Config → Option Error
verify cfg =
    let cost : Option Error = elim cfg.cost [
      | unset ↦ some (Error.err_range Setting.cost)
      | named ↦ none
      | unknown ↦ some (Error.err_range Setting.cost)
    ] in
    let rest =
      if not (le_ℤ (pos 2) cfg.min_match_len && le_ℤ cfg.min_match_len cfg.max_match_len)
      then some (Error.err_range Setting.min_match_len)
      else cost in
    elim (BufConfig.verify cfg.buffer) [ some e ↦ some e | none ↦ rest ]

unfoldable pub init : Parser → Config → Parser × Option Error
init s cfg =
    let c = set_defaults cfg in
    let (b, e) = ParserBuffer.init s.buffer c.buffer in
    let rest : Parser × Option Error = elim e [
      | some err ↦ (record s { buffer = b }, some err)
      | none ↦ (
        record {
          buffer = b;
          graph = no_graph;
          cost = xz_cost;
          min_match_len = pos_part c.min_match_len;
          max_match_len = pos_part c.max_match_len;
        },
        none,
      )
    ] in
    elim (verify c) [ some err ↦ (s, some err) | none ↦ rest ]
