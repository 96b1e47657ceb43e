-- ===== src/Suffix/Inverse.antt =====
-- `InvertSA` makes the inverse of a list of positions.
use lz.Prelude.{
  some-inj, ℕ, zero, suc, ◌+◌, ◌<◌, ◌≡◌, ◌≢◌, refl, sym, ap, ◌∙◌, arith, false, some, List, [], ◌∷◌,
  length, get_or, ◌==◌, if◌then◌else◌, ap_at,
}
use lz.Hash.{store}
use lz.Hash.Table.{store_lem}
use lz.Bitset.Insert.{store-word}
use lz.Suffix.{Lists, invert}

pub length-store :
    (xs : List ℕ) (k v : ℕ) {ys : List ℕ}
    → k < length xs
    → store xs k v ≡ some ys
    → length ys ≡ length xs
length-store xs k v h run =
    let (ys, run', size) = store_lem xs k v h in ap length (some-inj ys (sym run ∙ run')) ∙ size

-- What `invert` writes, from the index `i` on
pub record Inverted (i : ℕ) (sa isa out : List ℕ) : Type 0 where
  pub size : length out ≡ length isa
  pub placed :
      (q : ℕ)
      → q < length sa
      → ((r : ℕ) → q < r → r < length sa → get_or sa q 0 ≢ get_or sa r 0)
      → get_or out (get_or sa q 0) 0 ≡ i + q
  pub kept :
      (x : ℕ) → ((q : ℕ) → q < length sa → get_or sa q 0 ≢ x) → get_or out x 0 ≡ get_or isa x 0

pub invert_lem :
    (sa isa : List ℕ) (i : ℕ)
    → ((q : ℕ) → q < length sa → get_or sa q 0 < length isa)
    → (out : List ℕ) × (invert i sa isa ≡ some out) × Inverted i sa isa out
unfolding invert
invert_lem [] isa i inside = (
  isa,
  refl,
  record { size = refl; placed = λ q h. absurd (omega (arith, h)); kept = λ x h. refl },
)
invert_lem (j ∷ sa) isa i inside =
    let (isa', run, same) = store-word isa j i (inside 0 (omega arith)) in
    let long = length-store isa j i (inside 0 (omega arith)) run in
    let (out, rest, done) =
      invert_lem sa isa' (i + 1) (λ q h. omega (arith, long, inside (suc q) (omega (arith, h)))) in
    (
      out,
      rw run rest,
      record {
        size = omega (arith, done.size, long);
        placed = λ q h apart. placed_at out isa' same done q h apart;
        kept = λ x other.
            done.kept x (λ q h. other (suc q) (omega (arith, h)))
            ∙ same x
            ∙ (let no : (x == j) ≡ false = ground (arith, other 0 (omega arith)) in rw no refl);
      },
    )
  where
    placed_at :
        (out isa' : List ℕ)
        → ((q : ℕ) → get_or isa' q 0 ≡ (if q == j then i else get_or isa q 0))
        → Inverted (i + 1) sa isa' out
        → (q : ℕ) → q < length (j ∷ sa)
        → ((r : ℕ) → q < r → r < length (j ∷ sa) → get_or (j ∷ sa) q 0 ≢ get_or (j ∷ sa) r 0)
        → get_or out (get_or (j ∷ sa) q 0) 0 ≡ i + q
    placed_at out isa' same done zero h apart =
        done.kept j (λ q g e. apart (suc q) (omega arith) (omega (arith, g)) (sym e))
        ∙ same j
        ∙ ground arith
    placed_at out isa' same done (suc q) h apart =
        done.placed q (omega (arith, h))
          (λ r lt g. apart (suc r) (omega (arith, lt)) (omega (arith, g)))
        ∙ omega arith

-- The inverse gives the place of each position.
pub record IsInverse (sa isa : List ℕ) : Type 0 where
  pub same : length isa ≡ length sa
  pub rank :
      (i : ℕ) → i < length sa → (get_or isa i 0 < length sa) × (get_or sa (get_or isa i 0) 0 ≡ i)
  pub back : (q : ℕ) → q < length sa → get_or isa (get_or sa q 0) 0 ≡ q

-- The inverse of a list of positions, each once, whatever the array held before.
pub inverse_lem :
    (n : ℕ) (sa old : List ℕ)
    → Lists n sa
    → length old ≡ n
    → (isa : List ℕ) × (invert 0 sa old ≡ some isa) × IsInverse sa isa
inverse_lem n sa old l long =
    let (isa, run, done) =
      invert_lem sa old 0 (λ q h. omega (arith, long, l.inside q (omega (arith, h, l.size)))) in
    let back : (q : ℕ) → q < length sa → get_or isa (get_or sa q 0) 0 ≡ q = λ q h.
      done.placed q h (λ r lt g e.
        absurd
          (omega (arith, lt, l.once q r (omega (arith, h, l.size)) (omega (arith, g, l.size)) e)))
      ∙ omega arith in
    let at : (i : ℕ) → i < length sa → get_or isa i 0 ≡ l.position i = λ i h.
      let here = l.listed i (omega (arith, h, l.size)) in
      ap_at (λ x. get_or isa x 0) i (get_or sa (l.position i) 0) (omega (arith, here.1))
      ∙ back (l.position i) (omega (arith, here.0, l.size)) in
    (
      isa,
      run,
      record {
        same = omega (arith, done.size, long, l.size);
        rank = λ i h.
            let here = l.listed i (omega (arith, h, l.size)) in
            (
              omega (arith, at i h, here.0, l.size),
              ap_at (λ q. get_or sa q 0) (get_or isa i 0) (l.position i) (at i h) ∙ here.1,
            );
        back = back;
      },
    )
