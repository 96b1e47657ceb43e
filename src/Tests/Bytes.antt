-- ===== src/Tests/Bytes.antt =====
-- Slices that agree in thirteen bytes, so that all three loops run.
use lz.Prelude.{◌≡◌, arith, some, [], ◌∷◌, ◌++◌, take, drop}
use lz.Lz.{Bytes}
use lz.Bytes.{lcp, lcs}
use lz.Bytes.Suffix.{suffix}
use lz.Bytes.Lcs.{lcs_lem}
use lz.Bytes.Prefix.{AreBytes, none_left, byte, prefix, take-AreBytes, drop-AreBytes}
use lz.Bytes.Lcp.{lcp_lem}

abbrev common : Bytes
common = 1 ∷ 2 ∷ 3 ∷ 4 ∷ 5 ∷ 6 ∷ 7 ∷ 8 ∷ 9 ∷ 10 ∷ 11 ∷ 12 ∷ 13 ∷ []

abbrev left : Bytes
left = common ++ 20 ∷ 30 ∷ []

abbrev right : Bytes
right = common ++ 21 ∷ []

left-AreBytes : AreBytes left
left-AreBytes = byte (omega arith) (
    byte (omega arith) (
      byte (omega arith) (
        byte (omega arith) (
          byte (omega arith) (
            byte (omega arith) (
              byte (omega arith) (
                byte (omega arith) (
                  byte (omega arith) (
                    byte (omega arith) (
                      byte (omega arith) (
                        byte (omega arith) (
                          byte (omega arith)
                            (byte (omega arith) (byte (omega arith) (none_left)))))))))))))))

right-AreBytes : AreBytes right
right-AreBytes = byte (omega arith) (
    byte (omega arith) (
      byte (omega arith) (
        byte (omega arith) (
          byte (omega arith) (
            byte (omega arith) (
              byte (omega arith) (
                byte (omega arith) (
                  byte (omega arith) (
                    byte (omega arith) (
                      byte (omega arith) (
                        byte (omega arith)
                          (byte (omega arith) (byte (omega arith) (none_left))))))))))))))

lcp_lem_example : lcp left right ≡ some 13
unfolding prefix
lcp_lem_example = lcp_lem left right left-AreBytes right-AreBytes

lcs_lem_example : lcs common (drop 2 common) ≡ some 11
unfolding suffix prefix
lcs_lem_example =
    lcs_lem (take 13 left) (drop 2 (take 13 left)) (take-AreBytes 13 left left-AreBytes)
      (drop-AreBytes 2 (take 13 left) (take-AreBytes 13 left left-AreBytes))
