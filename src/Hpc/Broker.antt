-- ===== src/Hpc/Broker.antt =====
-- A request over a broker that keeps the order of messages and a service behind it.
use mqss_client.Common.{
  ℕ, ◌≡◌, refl, ap, sym, ◌∙◌, Bool, true, Bool-cases, inl, inr, List, [], ◌∷◌, ◌++◌,
}
use mqss_client.Common.Bytes.{Str, txt}
use mqss_client.Common.Effects.{Result, ok}
use mqss_client.Json.{JsonLib}
use mqss_client.RabbitMq.{
  Amqp, Session, message, is_zero, has, receive, send, declare_queue, take_delivery,
}
use mqss_client.RabbitMq.Queues.{declare_queue-ok}
use mqss_client.Hpc.{HpcClient, message_of, exchange, get, post, del}

pub data Request (Json : Type 0) : Type 0 where
  getting deleting : Str → Request Json
  posting : Str → Json → Request Json

-- A service with a state: what it answers to a request, and what becomes of it in some seconds.
pub record Service (Json V : Type 0) : Type 0 where
  pub serve : Request Json → V → Str × V
  pub elapse : ℕ → V → V

module _ (J : JsonLib) where
  open J use {Json, string, object}

  -- A message as the service reads it: the method, the path and the data of a request, and the queue
  -- that the answer is to be put on.
  abbrev envelope_of : Str → Str → Str → Json → Json
  envelope_of queue method path body = object (
      (txt "authorization", string [])
      ∷ (txt "method", string method)
      ∷ (txt "request", string path)
      ∷ (txt "data", body)
      ∷ (txt "response_queue", string queue)
      ∷ [])

  abbrev pub envelope : Str → Request Json → Json
  envelope queue (getting path) = envelope_of queue (txt "GET") path (string [])
  envelope queue (deleting path) = envelope_of queue (txt "DELETE") path (string [])
  envelope queue (posting path body) = envelope_of queue (txt "POST") path body

module _ (J : JsonLib) {W : Type 0} (amqp : Amqp W) (client : HpcClient) where
  open J use {Json, string, dump}

  -- The message that a request publishes.
  abbrev pub request_message : Request Json → Json
  request_message (getting path) = message_of J amqp client (txt "GET") path (string [])
  request_message (deleting path) = message_of J amqp client (txt "DELETE") path (string [])
  request_message (posting path body) = message_of J amqp client (txt "POST") path body

  pub request_message-envelope :
      (r : Request Json) → request_message r ≡ envelope J client.response_queue r
  request_message-envelope (getting path) = refl
  request_message-envelope (deleting path) = refl
  request_message-envelope (posting path body) = refl

  -- The broker accepts what is published and keeps the order of messages. The service answers each
  -- message on the response queue that it names: `pending` are the answers that wait on the client's,
  -- the oldest first, and `state` is the service's state. They are delivered to a connection that
  -- `consumes` that queue, which it does from basic_consume on. The two queues exist, since the
  -- constructor has declared them.
  pub record IsServed {V : Type 0} (service : Service Json V) : Type 0 where
    pub pending : W → List Str
    pub state : W → V
    pub consumes : W → Bool
    pub publishing :
        (r : Request Json) (text : Str) (w : W)
        → dump (envelope J client.response_queue r) ≡ ok text
        → (is_zero (amqp.basic_publish client.listener_queue text w).0 ≡ true)
          × (pending (amqp.basic_publish client.listener_queue text w).1
              ≡ pending w ++ (service.serve r (state w)).0 ∷ [])
          × (state (amqp.basic_publish client.listener_queue text w).1
              ≡ (service.serve r (state w)).1)
    pub declaring :
        (queue : Str) (w : W)
        → (pending (amqp.queue_declare queue w) ≡ pending w)
          × (state (amqp.queue_declare queue w) ≡ state w)
    pub starting :
        (w : W)
        → (pending (amqp.basic_consume client.response_queue w) ≡ pending w)
          × (state (amqp.basic_consume client.response_queue w) ≡ state w)
          × (consumes (amqp.basic_consume client.response_queue w) ≡ true)
    pub delivering :
        (w : W) (body : Str) (rest : List Str)
        → consumes w ≡ true
        → pending w ≡ body ∷ rest
        → (tag : ℕ) × ((amqp.consume_message w).0 ≡ message body tag)
          × (pending (amqp.consume_message w).1 ≡ rest)
          × (state (amqp.consume_message w).1 ≡ state w)
    pub acking :
        (tag : ℕ) (w : W)
        → (pending (amqp.basic_ack tag w) ≡ pending w) × (state (amqp.basic_ack tag w) ≡ state w)
    pub elapsing :
        (n : ℕ) (w : W)
        → (pending (amqp.elapse n w) ≡ pending w)
          × (state (amqp.elapse n w) ≡ service.elapse n (state w))

  module _ {V : Type 0} {service : Service Json V} (q : IsServed service) where
    open q use {pending, state, publishing, declaring, starting, delivering, acking}

    -- A request took the oldest answer, `first`, and left `rest`; the service is in the state `v`.
    abbrev pub Took : {A : Type 0} → A → List Str → V → Result A × Session W → Type 0
    Took a rest v o = (o.0 ≡ ok a) × (pending o.1.world ≡ rest) × (state o.1.world ≡ v)

    declare_queue-pending :
        (queue : Str) (s : Session W)
        → (pending (declare_queue amqp queue s).1.world ≡ pending s.world)
          × (state (declare_queue amqp queue s).1.world ≡ state s.world)
    unfolding declare_queue
    declare_queue-pending queue s = elim (Bool-cases (has s.queues queue)) [
      | inl there ↦ rw there (refl, refl)
      | inr new ↦ rw new (declaring queue s.world)
    ]

    pub receive-Took :
        (s : Session W) (body : Str) (rest : List Str)
        → pending s.world ≡ body ∷ rest
        → Took body rest (state s.world) (receive amqp client.response_queue s)
    unfolding receive take_delivery
    receive-Took s body rest h =
        let s1 = (declare_queue amqp client.response_queue s).1 in
        let w = amqp.basic_consume client.response_queue s1.world in
        let (same_pending, same_state) = declare_queue-pending client.response_queue s in
        let (still_pending, still_state, consumed) = starting s1.world in
        let waiting : pending w ≡ body ∷ rest = cc (still_pending, same_pending, h) in
        let (tag, delivered, left, kept) = delivering w body rest consumed waiting in
        let (left', kept') = acking tag (amqp.consume_message w).1 in
        rw (declare_queue-ok amqp client.response_queue s, delivered)
          (refl, cc (left', left), cc (kept', kept, still_state, same_state))

    -- What is delivered after the message of a request is published.
    send-Took :
        (r : Request Json) (t : Str) (s : Session W) (first : Str) (rest : List Str)
        → dump (request_message r) ≡ ok t
        → pending s.world ++ (service.serve r (state s.world)).0 ∷ [] ≡ first ∷ rest
        → Took first rest
            (service.serve r (state s.world)).1
            (receive amqp client.response_queue (send amqp client.listener_queue t s).1)
    unfolding send
    send-Took r t s first rest e h =
        let (_, queued, served) =
          publishing r t s.world (ap dump (sym (request_message-envelope r)) ∙ e) in
        let (got, left, kept) =
          receive-Took (send amqp client.listener_queue t s).1 first rest (cc (queued, h)) in
        (got, left, cc (kept, served))

    pub get-Took :
        (path : Str) (s : Session W) (t first : Str) (rest : List Str)
        → dump (request_message (getting path)) ≡ ok t
        → pending s.world ++ (service.serve (getting path) (state s.world)).0 ∷ [] ≡ first ∷ rest
        → Took first rest
            (service.serve (getting path) (state s.world)).1
            (get J amqp client path s)
    unfolding get exchange send
    get-Took path s t first rest e h = rw e (send-Took (getting path) t s first rest e h)

    pub post-Took :
        (path : Str) (body : Json) (s : Session W) (t first : Str) (rest : List Str)
        → dump (request_message (posting path body)) ≡ ok t
        → pending s.world ++ (service.serve (posting path body) (state s.world)).0 ∷ []
          ≡ first ∷ rest
        → Took first rest
            (service.serve (posting path body) (state s.world)).1
            (post J amqp client path body s)
    unfolding post exchange send
    post-Took path body s t first rest e h = rw e (send-Took (posting path body) t s first rest e h)

    pub del-Took :
        (path : Str) (s : Session W) (t first : Str) (rest : List Str)
        → dump (request_message (deleting path)) ≡ ok t
        → pending s.world ++ (service.serve (deleting path) (state s.world)).0 ∷ [] ≡ first ∷ rest
        → Took tt rest (service.serve (deleting path) (state s.world)).1 (del J amqp client path s)
    unfolding del send
    del-Took path s t first rest e h =
        let (sent, _, _) = publishing (deleting path) t s.world e in
        let (got, left, kept) = send-Took (deleting path) t s first rest e h in
        rw (e, sent, got) (refl, left, kept)
