-- ===== src/Greedy/Single.antt =====
-- The main loop over words of one input length ends without a panic, and keeps what `Scanned` says.
use lz.Prelude.{ℕ, suc, ◌+◌, ◌-◌, ◌^◌, ◌≤◌, ◌<◌, ◌≡◌, ◌≢◌, ◌⊎◌, refl, arith, some, length, ◌++◌}
use lz.Lz.{Bytes}
use lz.Bytes.Prefix.{AreBytes}
use lz.ParserBuffer.{ParserBuffer}
use lz.Greedy.{Searcher, State, start, block_size, single, min_match_len}
use lz.Greedy.Scan.{IsSearcher, Scanned, Scans, start-Scanned, scan_lem}
use lz.Greedy.RoundTrip.{IsReady, n-bounds, block_data, length-block_data}
use lz.Greedy.Reads.{reads, reads-length, block-AreBytes, reads-AreBytes, extra}

pub min_match_len-pos : (l : ℕ) → 2 ≤ l → 0 < min_match_len l
unfolding min_match_len
min_match_len-pos l h = ground (arith, h)

-- What a search has to be
abbrev pub Law :
    {T : Type 0} → (Bytes → Bytes → ℕ → ℕ → ℕ → Searcher T) → (Ok : T → Type 0) → Type 0
Law g Ok =
    (p extra : Bytes)
    → AreBytes p
    → AreBytes (p ++ extra)
    → (window min_len input_end : ℕ) → 0 < min_len
    → input_end ≤ length p
    → (input_end ≡ 0) ⊎ (input_end + 7 ≤ length (p ++ extra))
    → IsSearcher (g (p ++ extra) p window min_len input_end) Ok p window input_end

module _ {T : Type 0} (g : Bytes → Bytes → ℕ → ℕ → ℕ → Searcher T) (Ok : T → Type 0)
    (law : Law g Ok) (b : ParserBuffer) (r : IsReady b) (l : ℕ) (least : 2 ≤ l) (most : l ≤ 8) where
  abbrev w : ℕ
  w = b.w

  abbrev n : ℕ
  n = block_size b

  pub single_lem :
      n ≢ 0
      → (t : T) → Ok t
      → (s : State T) × (single b l g t (block_data b r) ≡ some s)
        × Scanned Ok (block_data b r) b.window_size w s
  unfolding single Scans
  single_lem e t ok =
      let p = block_data b r in
      let size = length-block_data b r in
      let behind = extra b r l least most in
      let room = reads-length b r l least most e in
      let in_p : w + n + 1 - l ≤ length p = omega (arith, size, least) in
      let small : length p < 2 ^ 32 = omega (arith, size, n-bounds b r, r.valid.in_size, r.small) in
      let is_searcher =
        law p behind (block-AreBytes b r l least most) (reads-AreBytes b r l least most)
          b.window_size (min_match_len l) (w + n + 1 - l) (min_match_len-pos l least) in_p
          (omega (arith, room, least, most)) in
      let (s, i, run, inv, _, _, _) =
        scan_lem _ Ok p small w b.window_size (w + n + 1 - l) in_p is_searcher (suc n) (start t w) w
          (start-Scanned p b.window_size w t ok (omega (arith, size))) (omega arith)
          (omega (arith, least)) in
      (s, rw (reads b r l least most e, run) refl, inv)
