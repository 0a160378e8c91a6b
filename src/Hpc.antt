-- ===== src/Hpc.antt =====
-- src/clients/hpc_client.cpp and hpc_client.h: the transport over a message broker.
pub mod Exchange
pub mod Broker
pub mod Order
pub mod Remote
pub mod Jobs
pub mod Sharing
pub mod Sessions
use mqss_client.Common.{Option, none, some, [], ◌∷◌, ◌++◌, take, ◌==◌, if◌then◌else◌}
use mqss_client.Common.Bytes.{Str, txt, is_empty}
use mqss_client.Common.Effects.{throw, runtime_error}
use mqss_client.Common.Stateful.{State, pure, lift, ◌>>=◌, ◌>>◌}
use mqss_client.Json.{JsonLib}
use mqss_client.Transport.{BaseClient}
use mqss_client.RabbitMq.{Amqp, Session, is_zero, connect, disconnect, send, receive, declare_queue}

pub record HpcClient : Type 0 where
  pub listener_queue : Str
  pub response_queue : Str

-- `getHostName`, of what `gethostname` gives.
abbrev pub host_name : Option Str → Str
host_name none = []
host_name (some name) = name

-- The names of the two queues, from the host's name and a random UUID.
abbrev pub queues_of : Option Str → Str → Str → HpcClient
queues_of host uuid queue = record {
  listener_queue =
      if is_empty queue
      then txt "qoffload_api_request_reception_queue_" ++ host_name host
      else queue;
  response_queue = txt "response_queue_" ++ (host_name host ++ (txt "_" ++ take 8 uuid));
}

module _ {W : Type 0} (amqp : Amqp W) where
  -- `MQSSHPCClient::MQSSHPCClient`. When it throws, its member `mRabbitmqClient` is destroyed.
  unfoldable pub hpc_client :
      (host : Option Str) (uuid token queue : Str) → State (Session W) HpcClient
  hpc_client host uuid token queue = do
    let client = queues_of host uuid queue
    failed ← connect amqp
    if failed == 0
        then (declare_queue amqp client.listener_queue
            >> declare_queue amqp client.response_queue
            >> pure client)
        else (disconnect amqp
            >> lift (throw (runtime_error (txt "Error: Failed to connect RabbiitMQ"))))

module _ (J : JsonLib) {W : Type 0} (amqp : Amqp W) where
  open J use {Json, string, object, dump}

  abbrev pub message_of : HpcClient → Str → Str → Json → Json
  message_of client method path body = object (
      (txt "authorization", string [])
      ∷ (txt "method", string method)
      ∷ (txt "request", string path)
      ∷ (txt "data", body)
      ∷ (txt "response_queue", string client.response_queue)
      ∷ [])

  -- GET and POST: what `send` returns is not looked at.
  unfoldable pub exchange : HpcClient → Str → Str → Json → State (Session W) Str
  exchange client method path body = do
    text ← lift (dump (message_of client method path body))
    send amqp client.listener_queue text >> receive amqp client.response_queue

  unfoldable pub get : HpcClient → Str → State (Session W) Str
  get client path = exchange client (txt "GET") path (string [])

  unfoldable pub post : HpcClient → Str → Json → State (Session W) Str
  post client path body = exchange client (txt "POST") path body

  unfoldable pub del : HpcClient → Str → State (Session W) (Unit {0})
  del client path = do
    text ← lift (dump (message_of client (txt "DELETE") path (string [])))
    sent ← send amqp client.listener_queue text
    if is_zero sent
        then (receive amqp client.response_queue >> pure tt)
        else lift (throw (runtime_error (txt "Failed to send HPC cancellation request")))

  abbrev pub hpc_transport : HpcClient → BaseClient Json (Session W)
  hpc_transport client = record {
    get = get client;
    post = post client;
    del = del client;
    elapse = λ n s. record s { world = amqp.elapse n s.world };
  }
