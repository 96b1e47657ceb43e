-- ===== src/Hash/Config.antt =====
-- What `hashConfig` accepts, and its defaults.
use lz.Prelude.{◌*◌, ◌≡◌, ◌↔◌, arith, none}
use lz.Prelude.Int.{pos, ◌≤ℤ◌, pos_part}
use Prim.Native.Nat.{min}
use lz.Hash
use lz.Hash.{HashConfig}

-- `Verify` accepts a hash configuration exactly if the input length lies from 2 to 8, and the hash bits
-- from 0 to the bits of the input or 24, whichever is less.
pub hash-verify_iff :
    (cfg : HashConfig)
    → (Hash.verify cfg ≡ none) ↔ (
        (pos 2 ≤ℤ cfg.input_len)
        × (cfg.input_len ≤ℤ pos 8)
        × (pos 0 ≤ℤ cfg.hash_bits)
        × (cfg.hash_bits ≤ℤ pos (min 24 (8 * pos_part cfg.input_len))))
unfolding Hash.verify Hash.max_hash_bits
hash-verify_iff cfg = (λ h. ground arith, λ h. ground arith)
