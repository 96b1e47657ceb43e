-- ===== src/Matching/First.antt =====
-- A match that `Parse` finds is a repetition of the text: copying it gives the text that it stands for.
use Prim.Native.Nat.{bit_xor}
use lz.Prelude.{
  ℕ, suc, ◌+◌, ◌-◌, ◌/◌, ◌≤◌, ◌<◌, ◌≡◌, refl, sym, ap, ◌∙◌, arith, inl, inr, Option, none, some,
  ◌++◌, length, take, drop, get_or, length-drop, length-take, Bool-cases, ◌==◌, ltb, if◌then◌else◌,
  get_or-drop, get_or-take, get_or-append_lt,
}
use lz.Lz.{Bytes}
use lz.Slices.Laws.{slice_from_lem}
use lz.Bytes.{trailing_zeros}
use lz.Bytes.Prefix.{AreBytes, prefix-bytes, prefix-bound, prefix, little_endian, drop-AreBytes}
use lz.Bytes.Lcp.{word_64, count-prefix}
use lz.Greedy.Found.{Repeated}
use lz.Matching.{word_at, match_len}
use lz.Matching.Extend.{extend_lem}

-- What a look-up returns: nothing, or a match that is long enough.
pub data Good (p : Bytes) (min_len i j : ℕ) : Option ℕ → Type 0 where
  no_match : Good p min_len i j none
  a_match : {k : ℕ} → min_len ≤ k → Repeated p i j k → Good p min_len i j (some k)

pub word_at_lem :
    (p : Bytes) (i : ℕ)
    → AreBytes p
    → i + 8 ≤ length p
    → word_at p i ≡ some (little_endian (take 8 (drop i p)))
unfolding word_at
word_at_lem p i h l =
    rw (slice_from_lem i p (omega arith))
      (word_64 (drop i p) (drop-AreBytes i p h) (omega (arith, length-drop i p)))

module _ (p extra : Bytes) (h : AreBytes (p ++ extra)) (i j : ℕ) (ji : j < i)
    (li : i + 8 ≤ length (p ++ extra)) (lp : i ≤ length p) where
  abbrev pub full : Bytes
  full = p ++ extra

  -- the bytes that the first words have in common
  abbrev first : ℕ
  first =
      trailing_zeros 64
        (bit_xor (little_endian (take 8 (drop j full))) (little_endian (take 8 (drop i full))))
      / 8

  first-prefix : first ≡ prefix (take 8 (drop j full)) (take 8 (drop i full))
  first-prefix =
      count-prefix 8 (drop j full) (drop i full) (drop-AreBytes j full h) (drop-AreBytes i full h)
        (omega (arith, length-drop j full, li, ji)) (omega (arith, length-drop i full, li))

  first-same :
      (k m : ℕ) → k ≤ first → i + k ≤ length p → m < k → get_or p (j + m) 0 ≡ get_or p (i + m) 0
  first-same k m kf kp mk =
      sym (get_or-append_lt p extra (j + m) 0 (omega arith))
      ∙ sym (get_or-drop j m (j + m) full 0 refl)
      ∙ sym (get_or-take 8 m (drop j full) 0 low)
      ∙ prefix-bytes (take 8 (drop j full)) (take 8 (drop i full)) m (omega (arith, first-prefix))
      ∙ get_or-take 8 m (drop i full) 0 low
      ∙ get_or-drop i m (i + m) full 0 refl
      ∙ get_or-append_lt p extra (i + m) 0 (omega arith)
    where
      low : m < 8
      low = omega (
        arith,
        first-prefix,
        prefix-bound (take 8 (drop j full)) (take 8 (drop i full)),
        length-take 8 (drop i full),
      )

  first-Repeated : (k : ℕ) → k ≤ first → i + k ≤ length p → Repeated p i j k
  first-Repeated k kf kp = record { inside = kp; same = λ m mk. first-same k m kf kp mk }

  -- Eight bytes, and what the rest has in common.
  longer-Repeated :
      8 ≤ first → i + 8 ≤ length p → Repeated p i j (8 + prefix (drop (j + 8) p) (drop (i + 8) p))
  longer-Repeated kf kp = record {
    inside =
        omega (arith, kp, prefix-bound (drop (j + 8) p) (drop (i + 8) p), length-drop (i + 8) p);
    same = λ m mk. elim (Bool-cases (ltb m 8)) [
      | inl e ↦ first-same 8 m kf kp (ground (arith, e))
      | inr e ↦
          let far : 8 ≤ m = ground (arith, e) in
          sym (get_or-drop (j + 8) (m - 8) (j + m) p 0 (omega (arith, far)))
          ∙ prefix-bytes (drop (j + 8) p) (drop (i + 8) p) (m - 8) (omega (arith, mk, far))
          ∙ get_or-drop (i + 8) (m - 8) (i + m) p 0 (omega (arith, far))
    ];
  }

  pub match_len_lem :
      (min_len : ℕ)
      → AreBytes p
      → (r : Option ℕ) × (match_len full p min_len i j (little_endian (take 8 (drop i full)))
          ≡ some r)
        × Good p min_len i j r
  unfolding match_len
  match_len_lem min_len hp =
      let k = if ltb (length p - i) first then length p - i else first in
      let kf : k ≤ first = ground arith in
      let kp : i + k ≤ length p = ground (arith, lp) in
      let word = word_at_lem full j h (omega (arith, ji, li)) in
      elim (Bool-cases (ltb k min_len)) [
        | inl e ↦ (none, rw (word, e) refl, no_match)
        | inr e ↦
            let enough : min_len ≤ k = ground (arith, e) in
            elim (Bool-cases (k == 8)) [
              | inr z ↦ (some k, rw (word, e, z) refl, a_match enough (first-Repeated k kf kp))
              | inl z ↦
                  let eight : k ≡ 8 = ground (arith, z) in
                  (
                    some (8 + prefix (drop (j + 8) p) (drop (i + 8) p)),
                    rw
                        (
                          word,
                          e,
                          z,
                          slice_from_lem (j + 8) p (omega (arith, eight, kp, ji)),
                          slice_from_lem (i + 8) p (omega (arith, eight, kp)),
                          extend_lem (suc (length (drop (i + 8) p))) (drop (j + 8) p)
                              (drop (i + 8) p) k (drop-AreBytes (j + 8) p hp)
                              (drop-AreBytes (i + 8) p hp)
                              (omega (arith, length-drop (j + 8) p, length-drop (i + 8) p, ji))
                              (omega arith),
                        )
                        (ap (λ n. some (some (n + prefix (drop (j + 8) p) (drop (i + 8) p))))
                          eight),
                    a_match (omega (arith, eight, enough))
                        (longer-Repeated (omega (arith, eight, kf)) (omega (arith, eight, kp))),
                  )
            ]
      ]
