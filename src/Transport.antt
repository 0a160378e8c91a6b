-- ===== src/Transport.antt =====
-- include/mqss/client.h, `MQSSBaseClient`: the three requests that the client makes of a transport,
-- and the effects of the client: what it asks, how long it sleeps, and what it throws.
use mqss_client.Common.{◌≡◌, refl, ℕ, List, [], ◌∷◌, ◌+◌}
use mqss_client.Common.Bytes.{Str}
use mqss_client.Common.Effects.{Result, ok, throw}

-- A transport over a world `W`: the server, the network and the transport's own state. `elapse` is
-- what becomes of that world while the client sleeps for some seconds.
pub record BaseClient (Json W : Type 0) : Type 0 where
  pub get : Str → W → Result Str × W
  pub post : Str → Json → W → Result Str × W
  pub del : Str → W → Result (Unit {0}) × W
  pub elapse : ℕ → W → W

pub data Event (Json : Type 0) : Type 0 where
  got deleted : Str → Event Json
  posted : Str → Json → Event Json
  slept : ℕ → Event Json

-- The world, and what the client has done so far, the latest first.
pub record Env (Json W : Type 0) : Type 0 where
  pub world : W
  pub trace : List (Event Json)

-- A computation of the client: an exception keeps the effects that came before it.
abbrev pub M : Type 0 → Type 0 → Type 0 → Type 0
M Json W A = Env Json W → Result A × Env Json W

module _ {Json W A : Type 0} where
  abbrev pub pure : A → M Json W A
  pure a e = (ok a, e)

  abbrev pub lift : Result A → M Json W A
  lift r e = (r, e)

module _ {Json W A B : Type 0} where
  abbrev pub and_then : Result A × Env Json W → (A → M Json W B) → Result B × Env Json W
  and_then (ok a, e) k = k a e
  and_then (throw x, e) k = (throw x, e)

  -- Inversion of two computations in a row that return.
  pub and_then-returned :
      (o : Result A × Env Json W) (k : A → M Json W B) {b : B} {e' : Env Json W}
      → and_then o k ≡ (ok b, e')
      → (a : A) × (e : Env Json W) × (o ≡ (ok a, e)) × (k a e ≡ (ok b, e'))
  and_then-returned (ok a, e) k h = (a, e, refl, h)
  and_then-returned (throw x, e) k h = cc

  infixl 5 ◌>>=◌ ◌>>◌
  abbrev pub ◌>>=◌ : M Json W A → (A → M Json W B) → M Json W B
  ◌>>=◌ m k e = and_then (m e) k

  abbrev pub ◌>>◌ : M Json W A → M Json W B → M Json W B
  ◌>>◌ m k = m >>= λ _. k

module _ {Json W : Type 0} (base : BaseClient Json W) where
  abbrev record_event :
      {A : Type 0} → Event Json → List (Event Json) → Result A × W → Result A × Env Json W
  record_event event past (r, w) = (r, record { world = w; trace = event ∷ past })

  abbrev pub get : Str → M Json W Str
  get path e = record_event (got path) e.trace (base.get path e.world)

  abbrev pub post : Str → Json → M Json W Str
  post path body e = record_event (posted path body) e.trace (base.post path body e.world)

  abbrev pub del : Str → M Json W (Unit {0})
  del path e = record_event (deleted path) e.trace (base.del path e.world)

  abbrev pub sleep : ℕ → M Json W (Unit {0})
  sleep n e = (ok tt, record { world = base.elapse n e.world; trace = slept n ∷ e.trace })

-- The seconds that the client has slept.
unfoldable pub total_slept : {Json : Type 0} → List (Event Json) → ℕ
total_slept [] = 0
total_slept (slept n ∷ es) = n + total_slept es
total_slept (_ ∷ es) = total_slept es
