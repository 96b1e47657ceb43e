-- ===== src/Prelude/Partial.antt =====
-- Code that may panic: `none` stands for a panic of the Go runtime (an index or a slice bound out
-- of range), and for a loop that used up its fuel.
use mathlib.Core.Path.{◌≡◌, refl, ap}
use mathlib.Core.Option.{Option, none, some}

infixl 5 ◌>>=◌ ◌>>◌
abbrev pub ◌>>=◌ {ℓ κ} : {A : Type ℓ} {B : Type κ} → Option A → (A → Option B) → Option B
none >>= f = none
some a >>= f = f a

pub bind-some {ℓ κ} :
    {A : Type ℓ} {B : Type κ} (o : Option A) (f : A → Option B) (y : B)
    → (o >>= f) ≡ some y
    → (x : A) × (o ≡ some x) × (f x ≡ some y)
bind-some none f y e = absurd cc
bind-some (some x) f y e = (x, refl, e)

abbrev pub ◌>>◌ {ℓ} : {B : Type ℓ} → Option (Unit {0}) → Option B → Option B
m >> k = m >>= λ _. k

pub some-inj {ℓ} : {A : Type ℓ} (d : A) {x y : A} → some x ≡ some y → x ≡ y
some-inj d e = ap (λ o. elim o [ none ↦ d | some a ↦ a ]) e
