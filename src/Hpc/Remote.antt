-- ===== src/Hpc/Remote.antt =====
-- The client over the broker, and one that speaks to the service directly.
use mqss_client.Common.{◌≡◌, refl, ap, Bool, [], ◌∷◌, ◌++◌}
use mqss_client.Common.{inl, inr}
use mqss_client.Common.Bytes.{Str}
use mqss_client.Common.Effects.{Exn, Result, ok, throw, Result-cases}
use mqss_client.Json.{JsonLib}
use mqss_client.Transport.{BaseClient, Env}
use mqss_client.RabbitMq.{Amqp, Session}
use mqss_client.Hpc.{HpcClient, hpc_transport, get, post, del, exchange}
use mqss_client.Hpc.Broker.{
  Request, getting, deleting, posting, Service, request_message, IsServed, get-Took, post-Took,
  del-Took,
}
use mqss_client.Client.Programs.{Program, run}
use mqss_client.Client.Programs.Rules.{Agree, Simulates}
use mqss_client.Client.Programs.Simulation.{run-Alike}

module _ (J : JsonLib) {W : Type 0} (amqp : Amqp W) (client : HpcClient) {V : Type 0}
    (service : Service J.Json V) where
  open J use {Json, dump}

  -- A request to the service itself: one whose message has no text throws, and is not served.
  abbrev pub ask : Request Json → V → Result Str × V
  ask r v = elim (dump (request_message J amqp client r)) [
    | throw x ↦ (throw x, v)
    | ok text ↦ (ok (service.serve r v).0, (service.serve r v).1)
  ]

  ask-throws :
      (r : Request Json) (v : V) (x : Exn)
      → dump (request_message J amqp client r) ≡ throw x
      → ask r v ≡ (throw x, v)
  ask-throws r v x e = rw (e, ask) refl

  ask-answers :
      (r : Request Json) (v : V) (t : Str)
      → dump (request_message J amqp client r) ≡ ok t
      → ask r v ≡ (ok (service.serve r v).0, (service.serve r v).1)
  ask-answers r v t e = rw (e, ask) refl

  abbrev pub dropped : Result Str × V → Result (Unit {0}) × V
  dropped (ok answer, v) = (ok tt, v)
  dropped (throw x, v) = (throw x, v)

  abbrev pub direct : BaseClient Json V
  direct = record {
    get = λ path. ask (getting path);
    post = λ path body. ask (posting path body);
    del = λ path v. dropped (ask (deleting path) v);
    elapse = service.elapse;
  }

  module _ (q : IsServed J amqp client service) where
    open q use {pending, state}

    -- No answer waits, and the service is in the state `v`.
    abbrev pub IsIdle : Session W → V → Type 0
    IsIdle s v = (pending s.world ≡ []) × (state s.world ≡ v)

    one_waiting :
        (s : Session W) (a : Str) → pending s.world ≡ [] → pending s.world ++ a ∷ [] ≡ a ∷ []
    one_waiting s a h = ap (λ xs. xs ++ a ∷ []) h

    get-throws :
        (path : Str) (s : Session W) (x : Exn)
        → dump (request_message J amqp client (getting path)) ≡ throw x
        → get J amqp client path s ≡ (throw x, s)
    unfolding get exchange
    get-throws path s x e = rw e refl

    get-Agree :
        (path : Str) (s : Session W) (v : V)
        → IsIdle s v
        → Agree
            (hpc_transport J amqp client)
            direct
            IsIdle
            (get J amqp client path s)
            (ask (getting path) v)
    get-Agree path s v (idle, same) =
        elim (Result-cases (dump (request_message J amqp client (getting path)))) [
          | inr (x, e) ↦
              rw (ask-throws (getting path) v x e, get-throws path s x e) (refl, (idle, same))
          | inl (t, e) ↦
              let (got, left, kept) =
                get-Took J amqp client q path s t _ [] e (one_waiting s _ idle) in
              rw (ask-answers (getting path) v t e) (cc (got, same), (left, cc (kept, same)))
        ]

    post-throws :
        (path : Str) (body : Json) (s : Session W) (x : Exn)
        → dump (request_message J amqp client (posting path body)) ≡ throw x
        → post J amqp client path body s ≡ (throw x, s)
    unfolding post exchange
    post-throws path body s x e = rw e refl

    post-Agree :
        (path : Str) (body : Json) (s : Session W) (v : V)
        → IsIdle s v
        → Agree
            (hpc_transport J amqp client)
            direct
            IsIdle
            (post J amqp client path body s)
            (ask (posting path body) v)
    post-Agree path body s v (idle, same) =
        elim (Result-cases (dump (request_message J amqp client (posting path body)))) [
          | inr (x, e) ↦
              rw (ask-throws (posting path body) v x e, post-throws path body s x e)
                (refl, (idle, same))
          | inl (t, e) ↦
              let (got, left, kept) =
                post-Took J amqp client q path body s t _ [] e (one_waiting s _ idle) in
              rw (ask-answers (posting path body) v t e) (cc (got, same), (left, cc (kept, same)))
        ]

    del-throws :
        (path : Str) (s : Session W) (x : Exn)
        → dump (request_message J amqp client (deleting path)) ≡ throw x
        → del J amqp client path s ≡ (throw x, s)
    unfolding del
    del-throws path s x e = rw e refl

    del-Agree :
        (path : Str) (s : Session W) (v : V)
        → IsIdle s v
        → Agree
            (hpc_transport J amqp client)
            direct
            IsIdle
            (del J amqp client path s)
            (dropped (ask (deleting path) v))
    del-Agree path s v (idle, same) =
        elim (Result-cases (dump (request_message J amqp client (deleting path)))) [
          | inr (x, e) ↦
              rw (ask-throws (deleting path) v x e, del-throws path s x e) (refl, (idle, same))
          | inl (t, e) ↦
              let (got, left, kept) =
                del-Took J amqp client q path s t _ [] e (one_waiting s _ idle) in
              rw (ask-answers (deleting path) v t e) (got, (left, cc (kept, same)))
        ]

    pub hpc-Simulates : Simulates (hpc_transport J amqp client) direct IsIdle
    hpc-Simulates = record {
      getting = get-Agree;
      posting = post-Agree;
      deleting = del-Agree;
      elapsing = λ n s v (idle, same).
          let (left, kept) = q.elapsing n s.world in (cc (left, idle), cc (kept, same));
    }

    -- Over a broker that keeps the order of messages and delivers to a connection once it consumes
    -- the response queue, with no answer waiting there, a program has the outcome that it has when
    -- the client speaks to the service directly, after the same requests and sleeps; the service
    -- comes to the same state and no answer is left waiting. This holds whichever methods the
    -- program calls and however it goes on from what they return or throw. The service answers
    -- every message on the response queue that it names, and a request whose message has no text
    -- throws.
    pub run-direct :
        (is_hpc : Bool) {A : Type 0} (p : Program A) (e : Env Json (Session W)) (f : Env Json V)
        → IsIdle e.world f.world
        → e.trace ≡ f.trace
        → ((run J (hpc_transport J amqp client) is_hpc p e).0 ≡ (run J direct is_hpc p f).0)
          × ((run J (hpc_transport J amqp client) is_hpc p e).1.trace
              ≡ (run J direct is_hpc p f).1.trace)
          × IsIdle
              (run J (hpc_transport J amqp client) is_hpc p e).1.world
              (run J direct is_hpc p f).1.world
    run-direct is_hpc = run-Alike J (hpc_transport J amqp client) direct IsIdle hpc-Simulates is_hpc
