-- ===== src/Hpc/Order.antt =====
-- Requests over the broker, one after the other, and the order in which their answers come.
use mqss_client.Common.{suc, ◌≡◌, refl, sym, ap, Option, none, some, List, [], ◌∷◌, ◌++◌, All}
use mqss_client.Common.{append_assoc, append-nil, length}
use mqss_client.Common.Bytes.{Str}
use mqss_client.Common.Effects.{ok}
use mqss_client.Common.Stateful.{State, pure, ◌>>=◌, ◌>>◌}
use mqss_client.Json.{JsonLib}
use mqss_client.RabbitMq.{Amqp, Session}
use mqss_client.Hpc.{HpcClient, get, post, del}
use mqss_client.Hpc.Broker.{
  Request, getting, deleting, posting, Service, request_message, IsServed, Took, get-Took,
  post-Took, del-Took,
}

module _ {Json V : Type 0} (service : Service Json V) where
  -- The answers of a service to requests that are made in turn.
  abbrev pub answers : List (Request Json) → V → List Str
  answers [] v = []
  answers (r ∷ rs) v = (service.serve r v).0 ∷ answers rs (service.serve r v).1

-- What a request returns, when `answer` is delivered to it.
abbrev pub returned : {Json : Type 0} → Request Json → Str → Option Str
returned (getting path) answer = some answer
returned (deleting path) answer = none
returned (posting path body) answer = some answer

abbrev pub all_returned : {Json : Type 0} → List (Request Json) → List Str → List (Option Str)
all_returned (r ∷ rs) (a ∷ bs) = returned r a ∷ all_returned rs bs
all_returned _ _ = []

-- A list with one more element has a first one.
append-first :
    (xs : List Str) (x : Str) → (first : Str) × (rest : List Str) × (xs ++ x ∷ [] ≡ first ∷ rest)
append-first [] x = (x, [], refl)
append-first (y ∷ ys) x = (y, ys ++ x ∷ [], refl)

module _ (J : JsonLib) {W : Type 0} (amqp : Amqp W) (client : HpcClient) where
  open J use {Json, dump}

  unfoldable pub request : Request Json → State (Session W) (Option Str)
  request (getting path) = do answer ← get J amqp client path; pure (some answer)
  request (deleting path) = del J amqp client path >> pure none
  request (posting path body) = do answer ← post J amqp client path body; pure (some answer)

  unfoldable pub requests : List (Request Json) → State (Session W) (List (Option Str))
  requests [] = pure []
  requests (r ∷ rs) = do answer ← request r; answers ← requests rs; pure (answer ∷ answers)

  module _ {V : Type 0} {service : Service Json V} (q : IsServed J amqp client service) where
    open q use {pending, state}

    request-Took :
        (r : Request Json) (t : Str) (s : Session W) (first : Str) (rest : List Str)
        → dump (request_message J amqp client r) ≡ ok t
        → pending s.world ++ (service.serve r (state s.world)).0 ∷ [] ≡ first ∷ rest
        → Took J amqp client q
            (returned r first)
            rest
            (service.serve r (state s.world)).1
            (request r s)
    unfolding request
    request-Took (getting path) t s first rest e h =
        let (got, left, kept) = get-Took J amqp client q path s t first rest e h in
        rw got (refl, left, kept)
    request-Took (posting path body) t s first rest e h =
        let (got, left, kept) = post-Took J amqp client q path body s t first rest e h in
        rw got (refl, left, kept)
    request-Took (deleting path) t s first rest e h =
        let (got, left, kept) = del-Took J amqp client q path s t first rest e h in
        rw got (refl, left, kept)

    -- Requests that are made one after the other take as many answers off the response queue as
    -- they are, the oldest first, and each GET and POST returns the one it took: with those still
    -- waiting at the end, they are the answers that were waiting at the start, followed by the
    -- service's answers to these requests in their order. The broker keeps the order, accepts what
    -- is published and delivers to a connection once it consumes the queue, the service answers
    -- every message on the response queue that it names, and the messages of the requests have
    -- texts.
    pub requests-InOrder :
        (rs : List (Request Json)) (s : Session W)
        → All (λ r. (t : Str) × (dump (request_message J amqp client r) ≡ ok t)) rs
        → (taken : List Str) × (length taken ≡ length rs)
          × ((requests rs s).0 ≡ ok (all_returned rs taken))
          × (taken ++ pending (requests rs s).1.world
              ≡ pending s.world ++ answers service rs (state s.world))
    unfolding requests
    requests-InOrder [] s h = ([], refl, refl, sym (append-nil (pending s.world)))
    requests-InOrder (r ∷ rs) s ((t, e), h) =
        let (answer, v) = service.serve r (state s.world) in
        let (first, rest, waiting) = append-first (pending s.world) answer in
        let (got, left, kept) = request-Took r t s first rest e waiting in
        let (taken, as_many, answered, order) = requests-InOrder rs (request r s).1 h in
        (
          first ∷ taken,
          ap suc as_many,
          rw (got, answered) refl,
          rw (got, answered)
              (cc (
                order,
                left,
                kept,
                waiting,
                append_assoc (pending s.world) (answer ∷ []) (answers service rs v),
              )),
        )
