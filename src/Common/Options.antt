-- ===== src/Common/Options.antt =====
-- Optional values in a row, and their inversion.
use mathlib.Core.Path.{◌≡◌, refl}
use mathlib.Core.Logic.{◌⊎◌, inl, inr}
use mathlib.Core.Option.{Option, none, some}

module _ {ℓ κ} {A : Type ℓ} {B : Type κ} where
  infixl 5 ◌>>=◌
  abbrev pub ◌>>=◌ : Option A → (A → Option B) → Option B
  none >>= k = none
  some a >>= k = k a

  pub >>=-eq-some :
      (m : Option A) (k : A → Option B) {b : B}
      → (m >>= k) ≡ some b
      → (a : A) × (m ≡ some a) × (k a ≡ some b)
  >>=-eq-some none k h = cc
  >>=-eq-some (some a) k h = (a, refl, h)

module _ {ℓ} {A : Type ℓ} where
  -- The first, or the second if there is no first.
  abbrev pub first_some : Option A → Option A → Option A
  first_some none n = n
  first_some (some a) n = some a

  pub first_some-eq-none : (m n : Option A) → first_some m n ≡ none → (m ≡ none) × (n ≡ none)
  first_some-eq-none none n h = (refl, h)
  first_some-eq-none (some a) n h = cc

  pub first_some-eq-some :
      (m n : Option A) {a : A}
      → first_some m n ≡ some a
      → (m ≡ some a) ⊎ ((m ≡ none) × (n ≡ some a))
  first_some-eq-some none n h = inr (refl, h)
  first_some-eq-some (some a) n h = inl h
