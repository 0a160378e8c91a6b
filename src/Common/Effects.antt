-- ===== src/Common/Effects.antt =====
-- Exceptions, and computations that may throw over a state.
use mqss_client.Common.Bytes.{Str}
use mathlib.Core.Path.{◌≡◌, refl}
use mathlib.Core.Logic.{◌⊎◌, inl, inr}
use mathlib.Core.Bool.{Bool, true, false}

-- The exceptions that the program throws or meets. `json_error` is any of the JSON library's own;
-- like `logic_error`'s children it is a `std::exception` and no `std::runtime_error`.
pub data Exn : Type 0 where
  runtime_error invalid_argument : Str → Exn
  out_of_range json_error bad_alloc : Exn

pub data Result {ℓ} (A : Type ℓ) : Type ℓ where
  ok : A → Result A
  throw : Exn → Result A

module _ {ℓ κ} {A : Type ℓ} {B : Type κ} where
  infixl 5 ◌>>=◌
  abbrev pub ◌>>=◌ : Result A → (A → Result B) → Result B
  ok a >>= k = k a
  throw e >>= k = throw e

  pub >>=-ok :
      {m : Result A} (k : A → Result B) {a : A} {r : Result B} → m ≡ ok a → k a ≡ r → (m >>= k) ≡ r
  >>=-ok k returned rest = rw returned rest

  -- Inversion of a successful bind.
  pub >>=-eq-ok :
      (m : Result A) (k : A → Result B) {b : B}
      → (m >>= k) ≡ ok b
      → (a : A) × (m ≡ ok a) × (k a ≡ ok b)
  >>=-eq-ok (ok a) k h = (a, refl, h)
  >>=-eq-ok (throw e) k h = cc

module _ {ℓ} {A : Type ℓ} where
  abbrev pub is_ok : Result A → Bool
  is_ok (ok _) = true
  is_ok (throw _) = false

  pub Result-cases : (r : Result A) → ((a : A) × (r ≡ ok a)) ⊎ ((e : Exn) × (r ≡ throw e))
  Result-cases (ok a) = inl (a, refl)
  Result-cases (throw e) = inr (e, refl)
