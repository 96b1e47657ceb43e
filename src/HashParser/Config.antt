-- ===== src/HashParser/Config.antt =====
-- `HPConfig` of hp.go and `init` of the hash parser. `BHPConfig` and its `init` have the same text.
use lz.Prelude.{refl, ◌≡◌, ◌∙◌, ◌⊎◌, inl, inr, Option, none, some, [], Option-cases}
use lz.Lz.{Error}
use lz.Bytes.Prefix.{AreBytes}
use lz.Config.Buffer as BufConfig
use lz.Config.Buffer.{BufConfig}
use lz.ParserBuffer.{memory}
use lz.ParserBuffer.Text.{Holds}
use lz.Hash
use lz.Hash.{HashConfig, Dictionary, init_dictionary}
use lz.HashParser.RoundTrip.{Ready}
use lz.HashParser.Setup.{setup_lem}

-- `HPConfig`, with its buffer parameters as a `BufConfig` and those of the table as a `HashConfig`
pub record Config : Type 0 where
  pub buffer : BufConfig
  pub hash : HashConfig

unfoldable pub set_defaults : Config → Config
set_defaults cfg = record {
  buffer = BufConfig.set_defaults cfg.buffer;
  hash = Hash.set_defaults cfg.hash;
}

unfoldable pub verify : Config → Option Error
verify cfg =
    let rest = Hash.verify cfg.hash in
    elim (BufConfig.verify cfg.buffer) [ some e ↦ some e | none ↦ rest ]

unfoldable pub init : Dictionary → Config → Dictionary × Option Error
init s cfg =
    let c = set_defaults cfg in
    let made = init_dictionary s c.hash c.buffer in
    elim (verify c) [ some e ↦ (s, some e) | none ↦ made ]

-- Over a memory of bytes, `init` of a hash parser returns the error of `Verify` for the configuration with its defaults,
-- and changes nothing; or `Verify` accepts that, and `init` returns an error of the dictionary or a parser that is ready
-- and empty.
pub hp-init_lem :
    (s : Dictionary) (cfg : Config)
    → AreBytes (memory s.buffer)
    → ((e : Error) × (verify (set_defaults cfg) ≡ some e) × (init s cfg ≡ (s, some e)))
      ⊎ ((verify (set_defaults cfg) ≡ none)
          × (((s' : Dictionary) × (e : Error) × (init s cfg ≡ (s', some e)))
              ⊎ ((s' : Dictionary) × (init s cfg ≡ (s', none)) × Ready s' × Holds [] 0 s'.buffer)))
unfolding init
hp-init_lem s cfg bytes = elim (Option-cases (verify (set_defaults cfg))) [
  | inr (e, bad) ↦ inl (e, bad, rw (bad, init) refl)
  | inl ok ↦
      let through : init s cfg
          ≡ init_dictionary s (set_defaults cfg).hash (set_defaults cfg).buffer =
        rw (ok, init) refl in
      inr (
        ok,
        elim (setup_lem s (set_defaults cfg).hash (set_defaults cfg).buffer bytes) [
          | inl (s', e, run) ↦ inl (s', e, through ∙ run)
          | inr (s', run, ready, holds) ↦ inr (s', through ∙ run, ready, holds)
        ],
      )
]
