-- ===== src/Client/Programs/Rules.antt =====
-- Two transports that answer alike, and the computations of the client that cannot tell them apart.
use mqss_client.Common.{ℕ, Bool, true, false, ◌≡◌, refl, ap, ◌∷◌, if◌then◌else◌}
use mqss_client.Common.Bytes.{Str}
use mqss_client.Common.Effects.{Result, ok, throw}
use mqss_client.Transport.{
  BaseClient, Env, got, posted, deleted, slept, M, pure, lift, and_then, ◌>>=◌, get, post, del,
  sleep,
}

module _ {Json W V : Type 0} (base : BaseClient Json W) (spec : BaseClient Json V)
    (R : W → V → Type 0) where
  -- The same outcome, in worlds that are related.
  abbrev pub Agree : {A : Type 0} → Result A × W → Result A × V → Type 0
  Agree o p = (o.0 ≡ p.0) × R o.1 p.1

  -- From related worlds each request has the same outcome, and the worlds stay related, also while
  -- the client sleeps.
  pub record Simulates : Type 0 where
    pub getting : (path : Str) (w : W) (v : V) → R w v → Agree (base.get path w) (spec.get path v)
    pub posting :
        (path : Str) (body : Json) (w : W) (v : V)
        → R w v
        → Agree (base.post path body w) (spec.post path body v)
    pub deleting : (path : Str) (w : W) (v : V) → R w v → Agree (base.del path w) (spec.del path v)
    pub elapsing : (n : ℕ) (w : W) (v : V) → R w v → R (base.elapse n w) (spec.elapse n v)

  -- Related worlds, and the same requests and sleeps so far.
  abbrev pub Alike : Env Json W → Env Json V → Type 0
  Alike e f = R e.world f.world × (e.trace ≡ f.trace)

  -- The same outcome, after the same requests and sleeps, from environments that are alike.
  pub record Tracks {A : Type 0} (m : M Json W A) (n : M Json V A) : Type 0 where
    pub apply :
        (e : Env Json W) (f : Env Json V) → Alike e f → ((m e).0 ≡ (n f).0) × Alike (m e).1 (n f).1

  pub track_pure : {A : Type 0} (a : A) → Tracks (pure a) (pure a)
  track_pure a = record { apply = λ e f h. (refl, h) }

  pub track_lift : {A : Type 0} (r : Result A) → Tracks (lift r) (lift r)
  track_lift r = record { apply = λ e f h. (refl, h) }

  and_then-Alike :
      {A B : Type 0} (k : A → M Json W B) (l : A → M Json V B)
      → ((a : A) → Tracks (k a) (l a))
      → (r r' : Result A) (e : Env Json W) (f : Env Json V) → r ≡ r'
      → Alike e f
      → ((and_then (r, e) k).0 ≡ (and_then (r', f) l).0)
        × Alike (and_then (r, e) k).1 (and_then (r', f) l).1
  and_then-Alike k l t (ok a) (ok b) e f same h =
      let equal : a ≡ b = cc same in rw equal ((t b).apply e f h)
  and_then-Alike k l t (throw x) (throw y) e f same h = (cc, h)
  and_then-Alike k l t (ok a) (throw y) e f same h = absurd (cc)
  and_then-Alike k l t (throw x) (ok b) e f same h = absurd (cc)

  pub track_bind :
      {A B : Type 0} {m : M Json W A} {n : M Json V A} {k : A → M Json W B} {l : A → M Json V B}
      → Tracks m n
      → ((a : A) → Tracks (k a) (l a))
      → Tracks (m >>= k) (n >>= l)
  track_bind {m = m} {n = n} {k = k} {l = l} t s = record {
    apply = λ e f h.
        let (same, alike) = t.apply e f h in
        and_then-Alike k l s (m e).0 (n f).0 (m e).1 (n f).1 same alike;
  }

  pub track_if :
      {A : Type 0} (b : Bool) {m m' : M Json W A} {n n' : M Json V A}
      → Tracks m n
      → Tracks m' n'
      → Tracks (if b then m else m') (if b then n else n')
  track_if true t s = t
  track_if false t s = s

  module _ (sim : Simulates) where
    pub track_get : (path : Str) → Tracks (get base path) (get spec path)
    track_get path = record {
      apply = λ e f (related, same).
          let (r, w) = sim.getting path e.world f.world related in
          (r, (w, ap (λ t. got path ∷ t) same));
    }

    pub track_post : (path : Str) (body : Json) → Tracks (post base path body) (post spec path body)
    track_post path body = record {
      apply = λ e f (related, same).
          let (r, w) = sim.posting path body e.world f.world related in
          (r, (w, ap (λ t. posted path body ∷ t) same));
    }

    pub track_del : (path : Str) → Tracks (del base path) (del spec path)
    track_del path = record {
      apply = λ e f (related, same).
          let (r, w) = sim.deleting path e.world f.world related in
          (r, (w, ap (λ t. deleted path ∷ t) same));
    }

    pub track_sleep : (n : ℕ) → Tracks (sleep base n) (sleep spec n)
    track_sleep n = record {
      apply = λ e f (related, same).
          (refl, (sim.elapsing n e.world f.world related, ap (λ t. slept n ∷ t) same));
    }

pub ruleset tracking =
    (track_pure, track_lift, track_bind, track_if, track_get, track_post, track_del, track_sleep)
