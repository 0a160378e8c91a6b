-- ===== src/Client/Connect.antt =====
-- The constructor of `MQSSClient`, which chooses the transport, and `MQSSClientCreateClient`.

use mqss_client.Common.{◌≡◌, refl, Bool, true, false, Option, none, some}
use mqss_client.Common.Bytes.{Str}
use mqss_client.Common.Effects.{Result, ok, throw}
use mqss_client.Json.{JsonLib}
use mqss_client.Rest.Request.{Curl, RestClient, rest_client}
use mqss_client.Rest.Request.Answers.{IsDocumented}
use mqss_client.Rest.Request.Construction.{IsReady, rest_client-IsReady}
use mqss_client.RabbitMq.{Amqp, Session, rabbitmq_client}
use mqss_client.RabbitMq.Opened.{IsOpen}
use mqss_client.Hpc.{HpcClient, hpc_client, queues_of}
use mqss_client.Hpc.Sessions.{Holds, hpc_client-Holds, hpc_client-IsOpen}

-- A transport with its own state and the world around it.
pub data Connection (W : Type 0) : Type 0 where
  over_broker : HpcClient → Session W → Connection W
  over_http : RestClient → W → Connection W

pub record MqssClient (W : Type 0) : Type 0 where
  pub is_hpc : Bool
  pub client : Connection W

module _ (J : JsonLib) {W : Type 0} (amqp : Amqp W) (curl : Curl W) (host : Option Str)
    (uuid : Str) where
  abbrev broker_client : Result HpcClient × Session W → Result (MqssClient W)
  broker_client (ok c, s) = ok (record { is_hpc = true; client = over_broker c s })
  broker_client (throw x, s) = throw x

  abbrev pub http_client : Result RestClient × W → Result (MqssClient W)
  http_client (ok c, w) = ok (record { is_hpc = false; client = over_http c w })
  http_client (throw x, w) = throw x

  unfoldable pub new_client :
      (token url_or_queue : Str) → (is_hpc : Bool) → W → Result (MqssClient W)
  new_client token url_or_queue true w =
      broker_client (hpc_client amqp host uuid token url_or_queue (rabbitmq_client w))
  new_client token url_or_queue false w = http_client (rest_client J curl token url_or_queue w)

  -- `catch (const std::exception&) { return nullptr; }`
  abbrev pub or_null : Result (MqssClient W) → Option (MqssClient W)
  or_null (ok c) = some c
  or_null (throw x) = none

  broker_client-made :
      (o : Result HpcClient × Session W) (c : MqssClient W)
      → or_null (broker_client o) ≡ some c
      → (made : HpcClient) × (o.0 ≡ ok made)
        × (c ≡ record { is_hpc = true; client = over_broker made o.1 })
  broker_client-made (ok made, s) c h = (made, refl, cc h)
  broker_client-made (throw x, s) c h = cc h

  pub http_client-made :
      (o : Result RestClient × W) (c : MqssClient W)
      → or_null (http_client o) ≡ some c
      → (made : RestClient) × (o.0 ≡ ok made)
        × (c ≡ record { is_hpc = false; client = over_http made o.1 })
  http_client-made (ok made, w) c h = (made, refl, cc h)
  http_client-made (throw x, w) c h = cc h

  unfoldable pub create_client :
      (token url_or_queue : Option Str) → (is_hpc : Bool) → W → Option (MqssClient W)
  create_client (some token) (some url_or_queue) is_hpc w =
      or_null (new_client token url_or_queue is_hpc w)
  create_client (some token) none is_hpc w = none
  create_client none url_or_queue is_hpc w = none

  module _ (doc : IsDocumented curl) where
    -- A connection that is of use, made in the world `w`: over the broker, which was opened, a session
    -- in order with the client's queues; over HTTP, a client whose server has served a request.
    pub data IsConnected (token url : Str) (w : W) : Bool → Connection W → Type 0 where
      holds :
          {s : Session W}
          → IsOpen amqp (rabbitmq_client w)
          → Holds J amqp (queues_of host uuid url) s
          → IsConnected token url w true (over_broker (queues_of host uuid url) s)
      ready :
          {c : RestClient} {w' : W}
          → IsReady J curl doc token url w c w'
          → IsConnected token url w false (over_http c w')

    -- If MQSSClientCreateClient returns a client and libcurl behaves as documented, the client is
    -- of the kind asked for and is connected: over the broker, the socket was opened to localhost
    -- at port 5672, the login as guest was accepted and the channel opened, and its session is in
    -- order and has declared its two queues, with the names of this host, UUID and queue; over
    -- HTTP, its base URL is the normalised one, its headers carry the token, and its last request
    -- was a GET of the resources there, which has been served with a status of success.
    pub create_client-IsConnected :
        (token url_or_queue : Str) (is_hpc : Bool) (w : W) (c : MqssClient W)
        → create_client (some token) (some url_or_queue) is_hpc w ≡ some c
        → (c.is_hpc ≡ is_hpc) × IsConnected token url_or_queue w is_hpc c.client
    unfolding create_client new_client
    create_client-IsConnected token url true w c h =
        let (made, e, same) =
          broker_client-made (hpc_client amqp host uuid token url (rabbitmq_client w)) c h in
        let (named, opened) = hpc_client-IsOpen J amqp host uuid token url w made e in
        let session = hpc_client-Holds J amqp host uuid token url w made e in
        rw (same, named) (refl, holds opened (rw named at session))
    create_client-IsConnected token url false w c h =
        let (made, e, same) = http_client-made (rest_client J curl token url w) c h in
        rw same (refl, ready (rest_client-IsReady J curl doc token url w made e))
