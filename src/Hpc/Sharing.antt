-- ===== src/Hpc/Sharing.antt =====
-- Several clients at one broker, whose requests interleave. A request is a message that is sent and
-- a delivery that is received later, with moves of the other clients in between.
pub mod Own
use mqss_client.Common.{
  ℕ, ◌≡◌, refl, sym, ap, subst, ◌∙◌, Bool, true, false, Bool-cases, inl, inr, List, [], ◌∷◌, ◌++◌,
  ◌==◌, ==_iff, take, Option, if◌then◌else◌, arith,
}
use mqss_client.Common.Bytes.{Str, txt, str_eq}
use mqss_client.Common.Effects.{Result, ok}
use mqss_client.Json.{JsonLib}
use mqss_client.RabbitMq.{
  Amqp, Session, Delivery, message, failure, is_zero, has, receive, send, declare_queue,
  take_delivery,
}
use mqss_client.RabbitMq.Queues.{declare_queue-ok}
use mqss_client.Hpc.{HpcClient, queues_of, host_name}
use mqss_client.Hpc.Broker.{envelope, Request, Service, request_message, IsServed, receive-Took}

-- The clients that wait, the latest first, each with the answer of the service to its request.
abbrev pub Waiting : Type 0
Waiting = List (ℕ × Str)

abbrev pub awaited : ℕ → Waiting → List Str
awaited i [] = []
awaited i ((j, a) ∷ out) = if i == j then a ∷ awaited i out else awaited i out

unfoldable pub without : ℕ → Waiting → Waiting
without i [] = []
without i ((j, a) ∷ out) = let rest = without i out in if i == j then rest else (j, a) ∷ rest

module _ (J : JsonLib) {W : Type 0} (amqp : ℕ → Amqp W) (client : ℕ → HpcClient) {V : Type 0}
    (service : Service J.Json V) where
  open J use {Json, dump}

  -- A broker with a connection for each client. What the connection of one does to the queues: the
  -- answer to a message is put on the response queue that the message names, and a delivery is taken
  -- from the client's response queue once the connection consumes it; all other queues stay as they
  -- are.
  pub record IsShared : Type 0 where
    pub pending : Str → W → List Str
    pub state : W → V
    pub consumes : ℕ → W → Bool
    pub publishing :
        (i : ℕ) (q : Str) (r : Request Json) (text : Str) (w : W)
        → dump (envelope J q r) ≡ ok text
        → let w' = ((amqp i).basic_publish (client i).listener_queue text w).1 in
          (is_zero ((amqp i).basic_publish (client i).listener_queue text w).0 ≡ true)
          × (pending q w' ≡ pending q w ++ (service.serve r (state w)).0 ∷ [])
          × (state w' ≡ (service.serve r (state w)).1)
          × ((p : Str) → str_eq q p ≡ false → pending p w' ≡ pending p w)
    pub declaring :
        (i : ℕ) (queue : Str) (w : W)
        → ((q : Str) → pending q ((amqp i).queue_declare queue w) ≡ pending q w)
          × (state ((amqp i).queue_declare queue w) ≡ state w)
    pub starting :
        (i : ℕ) (w : W)
        → ((q : Str) → pending q ((amqp i).basic_consume (client i).response_queue w) ≡ pending q w)
          × (state ((amqp i).basic_consume (client i).response_queue w) ≡ state w)
          × (consumes i ((amqp i).basic_consume (client i).response_queue w) ≡ true)
    pub delivering :
        (i : ℕ) (w : W) (body : Str) (rest : List Str)
        → consumes i w ≡ true
        → pending (client i).response_queue w ≡ body ∷ rest
        → (tag : ℕ) × (((amqp i).consume_message w).0 ≡ message body tag)
          × (pending (client i).response_queue ((amqp i).consume_message w).1 ≡ rest)
          × (state ((amqp i).consume_message w).1 ≡ state w)
    pub delivering_elsewhere :
        (i : ℕ) (w : W) (q : Str)
        → str_eq (client i).response_queue q ≡ false
        → pending q ((amqp i).consume_message w).1 ≡ pending q w
    pub acking :
        (i tag : ℕ) (w : W)
        → ((q : Str) → pending q ((amqp i).basic_ack tag w) ≡ pending q w)
          × (state ((amqp i).basic_ack tag w) ≡ state w)
    pub elapsing :
        (i n : ℕ) (w : W)
        → ((q : Str) → pending q ((amqp i).elapse n w) ≡ pending q w)
          × (state ((amqp i).elapse n w) ≡ service.elapse n (state w))

  module _ (b : IsShared) where
    open b use {pending, state}

    -- The worlds that the clients come to: a client that does not wait sends the message of a
    -- request, a client that waits receives, and time passes.
    pub data Reached : Waiting → W → Type 0 where
      idle : {w : W} → ((i : ℕ) → pending (client i).response_queue w ≡ []) → Reached [] w
      sends :
          {out : Waiting} (i : ℕ) (r : Request Json) (text : Str) (s : Session W)
          → Reached out s.world
          → awaited i out ≡ []
          → dump (request_message J (amqp i) (client i) r) ≡ ok text
          → Reached
              ((i, (service.serve r (state s.world)).0) ∷ out)
              (send (amqp i) (client i).listener_queue text s).1.world
      receives :
          {out : Waiting} (i : ℕ) (a : Str) (s : Session W)
          → Reached out s.world
          → awaited i out ≡ a ∷ []
          → Reached (without i out) (receive (amqp i) (client i).response_queue s).1.world
      sleeps : {out : Waiting} {w : W} (i n : ℕ) → Reached out w → Reached out ((amqp i).elapse n w)
