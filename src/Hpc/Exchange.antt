-- ===== src/Hpc/Exchange.antt =====
-- A request over the broker, and the answer to it.
use mqss_client.Common.{Bool-cases, ◌⊎◌, inl, inr, ◌≡◌, refl, true, false, List, [], ◌∷◌, ◌++◌}
use mqss_client.Common.Bytes.{Str, txt}
use mqss_client.Common.Effects.{Exn, Result, ok, throw, runtime_error, Result-cases}
use mqss_client.Json.{JsonLib}
use mqss_client.RabbitMq.{
  Amqp, Session, Delivery, message, failure, Call, published, consuming, received, acked, has,
  is_zero, receive, send, declare_queue, take_delivery,
}
use mqss_client.Hpc.{HpcClient, message_of, exchange, del}

-- The calls that take a delivery, the latest first.
abbrev pub taking : Delivery → List Call
taking (message body tag) = acked tag ∷ received (message body tag) ∷ []
taking (failure error) = received (failure error) ∷ []

module _ {W : Type 0} (amqp : Amqp W) where
  -- What is returned for a delivery.
  abbrev pub answer : Delivery → Str
  answer (message body tag) = body
  answer (failure error) = amqp.error_string error

  -- The outcome of a request that was published as `text` in the session `s`: a delivery was awaited
  -- on the response queue and taken, and it is what is returned.
  abbrev pub Answered : HpcClient → Str → Session W → Result Str × Session W → Type 0
  Answered client text s o =
      (d : Delivery) × (o.0 ≡ ok (answer d))
      × (o.1.calls
          ≡ taking d
            ++ consuming client.response_queue ∷ published client.listener_queue text ∷ s.calls)

  take_delivery-taking :
      (d : Delivery) (s : Session W) {cs : List Call}
      → s.calls ≡ received d ∷ cs
      → ((take_delivery amqp d s).0 ≡ ok (answer d))
        × ((take_delivery amqp d s).1.calls ≡ taking d ++ cs)
  unfolding take_delivery
  take_delivery-taking (message body tag) s h = (refl, cc h)
  take_delivery-taking (failure error) s h = (refl, h)

  receive-Answered :
      (client : HpcClient) (text : Str) (s s' : Session W)
      → has s'.queues client.response_queue ≡ true
      → s'.calls ≡ published client.listener_queue text ∷ s.calls
      → Answered client text s (receive amqp client.response_queue s')
  unfolding receive declare_queue
  receive-Answered client text s s' there h =
      rw there (let (returned, made) = take_delivery-taking _ _ (rw h refl) in (_, returned, made))

module _ (J : JsonLib) {W : Type 0} (amqp : Amqp W) where
  open J use {Json, string, dump}

  -- A request whose message has no text throws that exception and does nothing. Any other is
  -- published once on the listener's queue, whatever comes of that; then one delivery is awaited on
  -- the response queue, which must have been declared, and its body, or the text of its error, is
  -- returned.
  pub exchange-Answered :
      (client : HpcClient) (method path : Str) (body : Json) (s : Session W)
      → has s.queues client.response_queue ≡ true
      → ((x : Exn) × (dump (message_of J amqp client method path body) ≡ throw x)
          × (exchange J amqp client method path body s ≡ (throw x, s)))
        ⊎ ((text : Str) × (dump (message_of J amqp client method path body) ≡ ok text)
            × Answered amqp client text s (exchange J amqp client method path body s))
  unfolding exchange send
  exchange-Answered client method path body s there =
      elim (Result-cases (dump (message_of J amqp client method path body))) [
        | inr (x, e) ↦ inl (x, e, rw e refl)
        | inl (text, e) ↦ inr (text, e, rw e (receive-Answered amqp client text s _ there refl))
      ]

  -- The outcome of a DELETE that was published as `text`: it was sent, and one delivery was awaited
  -- and taken; or it was not, and this is thrown without waiting.
  abbrev pub Deleted : HpcClient → Str → Session W → Result (Unit {0}) × Session W → Type 0
  Deleted client text s o =
      ((is_zero (amqp.basic_publish client.listener_queue text s.world).0 ≡ true)
        × (o.0 ≡ ok tt)
        × ((d : Delivery) × (o.1.calls
              ≡ taking d
                ++ consuming client.response_queue
                  ∷ published client.listener_queue text
                  ∷ s.calls)))
      ⊎ ((is_zero (amqp.basic_publish client.listener_queue text s.world).0 ≡ false)
          × (o.0 ≡ throw (runtime_error (txt "Failed to send HPC cancellation request")))
          × (o.1.calls ≡ published client.listener_queue text ∷ s.calls))

  -- A DELETE whose message has a text returns exactly if it could be sent, after taking one
  -- delivery on the response queue, which must have been declared; if it could not be sent, this is
  -- thrown without waiting.
  pub del-Deleted :
      (client : HpcClient) (path text : Str) (s : Session W)
      → has s.queues client.response_queue ≡ true
      → dump (message_of J amqp client (txt "DELETE") path (string [])) ≡ ok text
      → Deleted client text s (del J amqp client path s)
  unfolding del send
  del-Deleted client path text s there e =
      elim (Bool-cases (is_zero (amqp.basic_publish client.listener_queue text s.world).0)) [
        | inl sent ↦
            let (d, returned, made) =
              receive-Answered amqp client text s (send amqp client.listener_queue text s).1 there
                refl in
            inl (sent, rw (e, sent, returned) refl, (d, rw (e, sent, returned) made))
        | inr unsent ↦ inr (unsent, rw (e, unsent) refl, rw (e, unsent) refl)
      ]
