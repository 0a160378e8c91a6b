-- ===== src/RabbitMq.antt =====
-- src/clients/rabbitmq_client.cpp and rabbitmq_client.h: a connection to a message broker.
pub mod Queues
pub mod Opened
use mqss_client.Common.{suc, ℕ, Bool, true, false, ◌||◌, List, [], ◌∷◌, ◌++◌, ◌==◌, if◌then◌else◌}
use mqss_client.Common.Bytes.{Str, txt, str_eq}
use mqss_client.Common.Words.{ℤ, pos, negsuc}
use mqss_client.Common.Effects.{ok}
use mqss_client.Common.Stateful.{State, pure, call, ◌>>=◌, ◌>>◌}

-- What waiting for a message gives: its body and its delivery tag, or the library's error.
pub data Delivery : Type 0 where
  message : Str → ℕ → Delivery
  failure : ℤ → Delivery

-- The AMQP library, over a world `W` with the broker and the other programs.
pub record Amqp (W : Type 0) : Type 0 where
  -- `amqp_new_connection` and `amqp_tcp_socket_new`, whether there is a socket
  pub tcp_socket_new : W → Bool × W
  pub socket_open : Str → ℕ → W → ℤ × W
  -- `amqp_login` of a user with a password, whether the reply is normal
  pub login : Str → Str → W → Bool × W
  -- `amqp_channel_open`, whether the reply to it is normal
  pub channel_open : W → Bool × W
  pub basic_publish : Str → Str → W → ℤ × W
  pub queue_declare : Str → W → W
  pub basic_consume : Str → W → W
  pub consume_message : W → Delivery × W
  pub basic_ack : ℕ → W → W
  pub error_string : ℤ → Str
  -- `amqp_channel_close`, `amqp_connection_close` and `amqp_destroy_connection`
  pub close : W → W
  -- What becomes of the world while the client sleeps for some seconds
  pub elapse : ℕ → W → W

pub data Call : Type 0 where
  published : Str → Str → Call
  declared consuming : Str → Call
  received : Delivery → Call
  acked : ℕ → Call
  closed : Call

-- `MQSSRabbitMQClient`, with the calls it has made of the library, the latest first.
pub record Session (W : Type 0) : Type 0 where
  pub hostname : Str
  pub user : Str
  pub password : Str
  pub port : ℕ
  pub queues : List Str
  pub world : W
  pub calls : List Call

-- `MQSSRabbitMQClient` with its default arguments, before it is connected.
abbrev pub rabbitmq_client : {W : Type 0} → W → Session W
rabbitmq_client w = record {
  hostname = txt "localhost";
  user = txt "guest";
  password = txt "guest";
  port = 5672;
  queues = [];
  world = w;
  calls = [];
}

abbrev pub is_zero : ℤ → Bool
is_zero (pos n) = n == 0
is_zero (negsuc n) = false

-- `std::find(mQueues.begin(), mQueues.end(), queueName) != mQueues.end()`
unfoldable pub has : List Str → Str → Bool
has [] q = false
has (p ∷ ps) q = str_eq p q || has ps q

module _ {W : Type 0} (amqp : Amqp W) where
  abbrev on_world : {A : Type 0} → (W → A × W) → State (Session W) A
  on_world f s = let r = f s.world in (ok r.0, record s { world = r.1 })

  -- A call that is recorded, with what it returns.
  abbrev recorded : {A : Type 0} → (A → Call) → (W → A × W) → State (Session W) A
  recorded c f s = let r = f s.world in (ok r.0, record s { world = r.1; calls = c r.0 ∷ s.calls })

  abbrev note : Call → (W → W) → State (Session W) (Unit {0})
  note c f = recorded (λ _. c) (λ w. (tt, f w))

  unfoldable pub connect : State (Session W) ℕ
  connect = do
    socket ← on_world amqp.tcp_socket_new
    if socket
        then (do
          status ← λ s. on_world (amqp.socket_open s.hostname s.port) s
          if is_zero status
              then (do
                accepted ← λ s. on_world (amqp.login s.user s.password) s
                if accepted
                    then (do opened ← on_world amqp.channel_open; if opened then pure 0 else pure 1)
                    else pure 1)
              else pure 1)
        else pure 1

  unfoldable pub disconnect : State (Session W) (Unit {0})
  disconnect = note closed amqp.close

  unfoldable pub send : Str → Str → State (Session W) ℤ
  send queue data_ = recorded (λ _. published queue data_) (amqp.basic_publish queue data_)

  abbrev push_queue : Str → State (Session W) (Unit {0})
  push_queue queue s = (ok tt, record s { queues = s.queues ++ queue ∷ [] })

  unfoldable pub declare_queue : Str → State (Session W) ℕ
  declare_queue queue s =
      if has s.queues queue
      then (ok 0, s)
      else (note (declared queue) (amqp.queue_declare queue) >> push_queue queue >> pure 0) s

  -- The body of a message, which is acknowledged, or the text of an error.
  unfoldable pub take_delivery : Delivery → State (Session W) Str
  take_delivery (message body tag) = note (acked tag) (amqp.basic_ack tag) >> pure body
  take_delivery (failure error) = pure (amqp.error_string error)

  unfoldable pub receive : Str → State (Session W) Str
  unfolding take_delivery
  receive queue =
      declare_queue queue
      >> note (consuming queue) (amqp.basic_consume queue)
      >> (do delivery ← recorded received amqp.consume_message; take_delivery delivery)
