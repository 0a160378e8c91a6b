-- ===== src/Common/Stateful.antt =====
-- Computations over a state that may throw: the state keeps what happened before the exception.
use mathlib.Core.Path.{◌≡◌, refl}
use mqss_client.Common.Effects.{Result, ok, throw, runtime_error}

abbrev pub State : Type 0 → Type 0 → Type 0
State W A = W → Result A × W

module _ {W A : Type 0} where
  abbrev pub pure : A → State W A
  pure a w = (ok a, w)

  abbrev pub lift : Result A → State W A
  lift r w = (r, w)

  -- A call that does not throw.
  abbrev settle : A × W → Result A × W
  settle (a, w) = (ok a, w)

  abbrev pub call : (W → A × W) → State W A
  call f w = settle (f w)

  -- `catch (const std::runtime_error&) { return …; }`
  abbrev caught : A → Result A × W → Result A × W
  caught a (throw (runtime_error _), w) = (ok a, w)
  caught a (r, w) = (r, w)

  abbrev pub catch_runtime_error : State W A → A → State W A
  catch_runtime_error m a w = caught a (m w)

module _ {W A B : Type 0} where
  abbrev and_then : Result A × W → (A → State W B) → Result B × W
  and_then (ok a, w) k = k a w
  and_then (throw x, w) k = (throw x, w)

  infixl 5 ◌>>=◌ ◌>>◌
  abbrev pub ◌>>=◌ : State W A → (A → State W B) → State W B
  ◌>>=◌ m k w = and_then (m w) k

  abbrev pub ◌>>◌ : State W A → State W B → State W B
  ◌>>◌ m k = m >>= λ _. k

  and_then-eq-ok :
      (m : Result A × W) (k : A → State W B) {b : B}
      → (and_then m k).0 ≡ ok b
      → (a : A) × (m.0 ≡ ok a) × ((k a m.1).0 ≡ ok b) × ((and_then m k).1 ≡ (k a m.1).1)
  and_then-eq-ok (ok a, w) k h = (a, refl, h, refl)
  and_then-eq-ok (throw x, w) k h = cc

  -- Inversion of a sequence that returned.
  pub >>=-returned :
      (m : State W A) (k : A → State W B) (w : W) {b : B}
      → ((m >>= k) w).0 ≡ ok b
      → (a : A) × ((m w).0 ≡ ok a) × ((k a (m w).1).0 ≡ ok b) × (((m >>= k) w).1 ≡ (k a (m w).1).1)
  >>=-returned m k w h = and_then-eq-ok (m w) k h
