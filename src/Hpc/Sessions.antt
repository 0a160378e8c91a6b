-- ===== src/Hpc/Sessions.antt =====
-- The sessions that a client over the broker goes through.
use mqss_client.Common.{◌≡◌, true, [], Option, Bool-cases, inl, inr, ◌==◌}
use mqss_client.Common.Bytes.{Str, txt}
use mqss_client.Common.Effects.{ok, Result-cases}
use mqss_client.Json.{JsonLib}
use mqss_client.RabbitMq.{
  Amqp, Session, rabbitmq_client, has, is_zero, connect, receive, send, declare_queue, disconnect,
}
use mqss_client.RabbitMq.Opened.{IsOpen, connect-IsOpen}
use mqss_client.RabbitMq.Queues.{
  IsOrderly, send-IsOrderly, declare_queue-IsOrderly, declare_queue-has, declare_queue-ok,
  receive-IsOrderly, receive-has, connect-queues, receive-ok, fresh-IsOrderly,
}
use mqss_client.Hpc.{HpcClient, message_of, queues_of, hpc_client, exchange, get, post, del}

module _ (J : JsonLib) {W : Type 0} (amqp : Amqp W) where
  -- The sessions of a client: after its construction, after any request, whether it returned or
  -- threw, and after any change of the world in between.
  pub data Reached (client : HpcClient) : Session W → Type 0 where
    built :
        (host : Option Str) (uuid token queue : Str) (w : W)
        → (hpc_client amqp host uuid token queue (rabbitmq_client w)).0 ≡ ok client
        → Reached client (hpc_client amqp host uuid token queue (rabbitmq_client w)).1
    got :
        {s : Session W} (path : Str)
        → Reached client s
        → Reached client (get J amqp client path s).1
    posted :
        {s : Session W} (path : Str) (body : J.Json)
        → Reached client s
        → Reached client (post J amqp client path body s).1
    deleted :
        {s : Session W} (path : Str)
        → Reached client s
        → Reached client (del J amqp client path s).1
    changed : {s : Session W} (w : W) → Reached client s → Reached client (record s { world = w })

  -- A session in order, with the queues of the client.
  abbrev pub Holds : HpcClient → Session W → Type 0
  Holds client s =
      IsOrderly s
      × (has s.queues client.listener_queue ≡ true)
      × (has s.queues client.response_queue ≡ true)

  receive-Holds :
      (client : HpcClient) (queue : Str) (s : Session W)
      → Holds client s
      → Holds client (receive amqp queue s).1
  receive-Holds client queue s (h, l, r) = (
    receive-IsOrderly amqp queue s h,
    receive-has amqp queue client.listener_queue s l,
    receive-has amqp queue client.response_queue s r,
  )

  send-Holds :
      (client : HpcClient) (queue text : Str) (s : Session W)
      → Holds client s
      → Holds client (send amqp queue text s).1
  unfolding send
  send-Holds client queue text s (h, l, r) = (send-IsOrderly amqp queue text s h, l, r)

  exchange-Holds :
      (client : HpcClient) (method path : Str) (body : J.Json) (s : Session W)
      → Holds client s
      → Holds client (exchange J amqp client method path body s).1
  unfolding exchange send
  exchange-Holds client method path body s h =
      elim (Result-cases (J.dump (message_of J amqp client method path body))) [
        | inr (x, e) ↦ rw e h
        | inl (text, e) ↦ rw e (
            receive-Holds client client.response_queue _
              (send-Holds client client.listener_queue text s h))
      ]

  del-Holds :
      (client : HpcClient) (path : Str) (s : Session W)
      → Holds client s
      → Holds client (del J amqp client path s).1
  unfolding del send
  del-Holds client path s h =
      elim (Result-cases (J.dump (message_of J amqp client (txt "DELETE") path (J.string [])))) [
        | inr (x, e) ↦ rw e h
        | inl (text, e) ↦
            let after = send-Holds client client.listener_queue text s h in
            elim (Bool-cases (is_zero (amqp.basic_publish client.listener_queue text s.world).0)) [
              | inr unsent ↦ rw (e, unsent) after
              | inl sent ↦
                  let s1 = (send amqp client.listener_queue text s).1 in
                  let (body, returned) = receive-ok amqp client.response_queue s1 in
                  rw (e, sent, returned) (receive-Holds client client.response_queue s1 after)
            ]
      ]

  pub hpc_client-Holds :
      (host : Option Str) (uuid token queue : Str) (w : W) (client : HpcClient)
      → (hpc_client amqp host uuid token queue (rabbitmq_client w)).0 ≡ ok client
      → Holds client (hpc_client amqp host uuid token queue (rabbitmq_client w)).1
  unfolding hpc_client disconnect
  hpc_client-Holds host uuid token queue w client h =
      let s0 = rabbitmq_client w in
      elim (Result-cases (connect amqp s0).0) [
        | inr (x, e) ↦ cc (rw e at h)
        | inl (n, e) ↦ elim (Bool-cases (n == 0)) [
          | inr failed ↦ cc (rw (e, failed) at h)
          | inl connected ↦
              let c = queues_of host uuid queue in
              let s1 = (connect amqp s0).1 in
              let s2 = (declare_queue amqp c.listener_queue s1).1 in
              let (no_queues, no_calls) = connect-queues amqp s0 in
              let first = fresh-IsOrderly s1 no_queues no_calls in
              let (second, l) = declare_queue-IsOrderly amqp c.listener_queue s1 first in
              let (third, r) = declare_queue-IsOrderly amqp c.response_queue s2 second in
              let listener = declare_queue-ok amqp c.listener_queue s1 in
              let response = declare_queue-ok amqp c.response_queue s2 in
              let same : c ≡ client = cc (rw (e, connected, listener, response) at h) in
              rw (e, connected, listener, response)
                (rw (← same)
                  (third, declare_queue-has amqp c.response_queue c.listener_queue s2 l, r))
        ]
      ]

  -- A client that is constructed is connected, and has the names of its queues from the host, the
  -- UUID and the queue that is given.
  pub hpc_client-IsOpen :
      (host : Option Str) (uuid token queue : Str) (w : W) (client : HpcClient)
      → (hpc_client amqp host uuid token queue (rabbitmq_client w)).0 ≡ ok client
      → (client ≡ queues_of host uuid queue) × IsOpen amqp (rabbitmq_client w)
  unfolding hpc_client disconnect
  hpc_client-IsOpen host uuid token queue w client h =
      let s0 = rabbitmq_client w in
      elim (Result-cases (connect amqp s0).0) [
        | inr (x, e) ↦ cc (rw e at h)
        | inl (n, e) ↦ elim (Bool-cases (n == 0)) [
          | inr failed ↦ cc (rw (e, failed) at h)
          | inl connected ↦
              let c = queues_of host uuid queue in
              let s1 = (connect amqp s0).1 in
              let s2 = (declare_queue amqp c.listener_queue s1).1 in
              let listener = declare_queue-ok amqp c.listener_queue s1 in
              let response = declare_queue-ok amqp c.response_queue s2 in
              let same : client ≡ c = cc (rw (e, connected, listener, response) at h) in
              (same, connect-IsOpen amqp s0 n e connected)
        ]
      ]

  -- In every session that a client goes through, the queues known are those declared, in that order
  -- and each once, with the client's two among them; only such queues are consumed; and exactly the
  -- messages received are acknowledged, in that order.
  pub Reached-Holds : (client : HpcClient) (s : Session W) → Reached client s → Holds client s
  unfolding get post
  Reached-Holds client s (built host uuid token queue w h) =
      hpc_client-Holds host uuid token queue w client h
  Reached-Holds client s (got path before) =
      exchange-Holds client _ _ _ _ (Reached-Holds client _ before)
  Reached-Holds client s (posted path body before) =
      exchange-Holds client _ _ _ _ (Reached-Holds client _ before)
  Reached-Holds client s (deleted path before) =
      del-Holds client path _ (Reached-Holds client _ before)
  Reached-Holds client s (changed w before) =
      let (h, l, r) = Reached-Holds client _ before in
      (
        record {
          distinct = h.distinct;
          declarations = h.declarations;
          consumed = h.consumed;
          acknowledged = h.acknowledged;
        },
        l,
        r,
      )
