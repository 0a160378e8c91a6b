-- ===== src/Hpc/Sharing/Own.antt =====
-- A client that shares a broker receives the answers to its own requests.
use mqss_client.Common.{
  ℕ, ◌≡◌, refl, sym, ap, subst, ◌∙◌, false, Bool-cases, inl, inr, [], ◌∷◌, ◌++◌, ◌==◌, ==_iff, take,
  Option, if◌then◌else◌, arith,
}
use mqss_client.Common.Bytes.{Str, txt, str_eq}
use mqss_client.Common.Bytes.Laws.{str_eq-append}
use mqss_client.Common.Effects.{ok}
use mqss_client.Json.{JsonLib}
use mqss_client.RabbitMq.{
  Amqp, Session, Delivery, message, failure, has, receive, send, declare_queue, take_delivery,
}
use mqss_client.RabbitMq.Queues.{declare_queue-ok}
use mqss_client.Hpc.{HpcClient, queues_of, host_name}
use mqss_client.Hpc.Broker.{
  Request, Service, request_message, request_message-envelope, envelope, IsServed, receive-Took,
}
use mqss_client.Hpc.Sharing.{
  IsShared, Waiting, awaited, without, Reached, idle, sends, receives, sleeps,
}

==-flip : (i j : ℕ) → (i == j) ≡ false → (j == i) ≡ false
==-flip i j h = ground arith

awaited-without :
    (i j : ℕ) (out : Waiting) → awaited j (without i out) ≡ (if j == i then [] else awaited j out)
unfolding without
awaited-without i j [] = ground arith
awaited-without i j ((k, a) ∷ out) = ground (arith, awaited-without i j out)

module _ (J : JsonLib) {W : Type 0} (amqp : ℕ → Amqp W) (client : ℕ → HpcClient) {V : Type 0}
    (service : Service J.Json V) (b : IsShared J amqp client service) where
  open J use {Json, dump}
  open b use {pending, state}

  shared-IsServed : (i : ℕ) → IsServed J (amqp i) (client i) service
  shared-IsServed i = record {
    pending = pending (client i).response_queue;
    state = state;
    consumes = b.consumes i;
    publishing = λ r text w e.
        let (sent, queued, served, _) = b.publishing i (client i).response_queue r text w e in
        (sent, queued, served);
    declaring = λ queue w. ((b.declaring i queue w).0 _, (b.declaring i queue w).1);
    starting = λ w. let (kept, same, on) = b.starting i w in (kept _, same, on);
    delivering = b.delivering i;
    acking = λ tag w. ((b.acking i tag w).0 _, (b.acking i tag w).1);
    elapsing = λ n w. ((b.elapsing i n w).0 _, (b.elapsing i n w).1);
  }

  -- A client that receives leaves the other queues alone.
  declare_queue-elsewhere :
      (i : ℕ) (queue q : Str) (s : Session W)
      → pending q (declare_queue (amqp i) queue s).1.world ≡ pending q s.world
  unfolding declare_queue
  declare_queue-elsewhere i queue q s = elim (Bool-cases (has s.queues queue)) [
    | inl there ↦ rw there refl
    | inr new ↦ rw new ((b.declaring i queue s.world).0 q)
  ]

  take_delivery-elsewhere :
      (i : ℕ) (q : Str) (d : Delivery) (s : Session W)
      → pending q (take_delivery (amqp i) d s).1.world ≡ pending q s.world
  unfolding take_delivery
  take_delivery-elsewhere i q (message body tag) s = (b.acking i tag s.world).0 q
  take_delivery-elsewhere i q (failure error) s = refl

  receive-elsewhere :
      (i : ℕ) (q : Str) (s : Session W)
      → str_eq (client i).response_queue q ≡ false
      → pending q (receive (amqp i) (client i).response_queue s).1.world ≡ pending q s.world
  unfolding receive
  receive-elsewhere i q s other = rw (declare_queue-ok (amqp i) (client i).response_queue s) (
      take_delivery-elsewhere i q _ _
      ∙ b.delivering_elsewhere i _ q other
      ∙ (b.starting i _).0 q
      ∙ declare_queue-elsewhere i (client i).response_queue q s)

  -- The message of a request names the client's response queue.
  named :
      (i : ℕ) (r : Request Json) (text : Str)
      → dump (request_message J (amqp i) (client i) r) ≡ ok text
      → dump (envelope J (client i).response_queue r) ≡ ok text
  named i r text e = ap dump (sym (request_message-envelope J (amqp i) (client i) r)) ∙ e

  send-elsewhere :
      (i : ℕ) (q text : Str) (r : Request Json) (s : Session W)
      → dump (request_message J (amqp i) (client i) r) ≡ ok text
      → str_eq (client i).response_queue q ≡ false
      → pending q (send (amqp i) (client i).listener_queue text s).1.world ≡ pending q s.world
  unfolding send
  send-elsewhere i q text r s e other =
      let (_, _, _, kept) =
        b.publishing i (client i).response_queue r text s.world (named i r text e) in
      kept q other

  send-queued :
      (i : ℕ) (r : Request Json) (text : Str) (s : Session W)
      → dump (request_message J (amqp i) (client i) r) ≡ ok text
      → pending (client i).response_queue (send (amqp i) (client i).listener_queue text s).1.world
        ≡ pending (client i).response_queue s.world ++ (service.serve r (state s.world)).0 ∷ []
  unfolding send
  send-queued i r text s e =
      let (_, queued, _, _) =
        b.publishing i (client i).response_queue r text s.world (named i r text e) in
      queued

  module _
      (apart : (i j : ℕ)
        → (i == j) ≡ false
        → str_eq (client i).response_queue (client j).response_queue ≡ false) where
    -- Each response queue holds what its client waits for.
    Reached-awaited :
        {out : Waiting} {w : W}
        → Reached J amqp client service b out w
        → (j : ℕ) → pending (client j).response_queue w ≡ awaited j out
    unfolding shared-IsServed
    Reached-awaited (idle empty) j = empty j
    Reached-awaited (sends {out = out} i r text s before none_out e) j =
        elim (Bool-cases (j == i)) [
          | inl mine ↦
              let same : j ≡ i = (==_iff j i).0 mine in
              let none_too : awaited j out ≡ [] =
                subst (λ k. awaited k out ≡ []) (sym same) none_out in
              let (answer, _) = service.serve r (state s.world) in
              rw (mine, same)
                (send-queued i r text s e
                  ∙ ap (λ l. l ++ answer ∷ []) (Reached-awaited before i ∙ none_out)
                  ∙ ap (λ l. answer ∷ l) (sym none_too))
          | inr other ↦ rw other (
              send-elsewhere i (client j).response_queue text r s e (apart i j (==-flip j i other))
              ∙ Reached-awaited before j)
        ]
    Reached-awaited (receives {out = out} i a s before waits) j = elim (Bool-cases (j == i)) [
      | inl mine ↦
          let same : j ≡ i = (==_iff j i).0 mine in
          let (_, left, _) =
            receive-Took J (amqp i) (client i) (shared-IsServed i) s a []
              (Reached-awaited before i ∙ waits) in
          rw (awaited-without i j out, mine) (cc (same, left))
      | inr other ↦
          rw (awaited-without i j out, other)
            (receive-elsewhere i (client j).response_queue s (apart i j (==-flip j i other))
              ∙ Reached-awaited before j)
    ]
    Reached-awaited (sleeps {w = w} i n before) j =
        (b.elapsing i n w).0 _ ∙ Reached-awaited before j

    -- A client that waits is given the answer to its own request.
    receive-awaited :
        {out : Waiting} (i : ℕ) (a : Str) (s : Session W)
        → Reached J amqp client service b out s.world
        → awaited i out ≡ a ∷ []
        → (receive (amqp i) (client i).response_queue s).0 ≡ ok a
    unfolding shared-IsServed
    receive-awaited i a s before waits =
        (receive-Took J (amqp i) (client i) (shared-IsServed i) s a []
          (Reached-awaited before i ∙ waits)).0

-- Clients on one host whose UUIDs differ in the first eight characters have other response queues.
queues_of-apart :
    (host : Option Str) (uuid uuid' queue queue' : Str)
    → str_eq (take 8 uuid) (take 8 uuid') ≡ false
    → str_eq (queues_of host uuid queue).response_queue (queues_of host uuid' queue').response_queue
      ≡ false
queues_of-apart host uuid uuid' queue queue' h =
    str_eq-append (txt "response_queue_") _ _
    ∙ str_eq-append (host_name host) _ _
    ∙ str_eq-append (txt "_") _ _
    ∙ h

-- However the requests of the clients on one host interleave, a client that waits is given the
-- service's answer to its own request: if their UUIDs differ in the first eight characters, the
-- broker puts the answer to a message on the response queue that it names and delivers from a
-- client's response queue once its connection consumes that, keeping each queue's order, and all
-- queues were empty at the start, then in every world that is reached by sending, receiving and
-- waiting, in any order, where each client has one request at a time, receiving returns that
-- answer.
pub receive-own :
    (J : JsonLib) {W : Type 0} (amqp : ℕ → Amqp W) (host : Option Str) (uuid : ℕ → Str)
    (queue : Str) {V : Type 0} (service : Service J.Json V)
    (b : IsShared J amqp (λ i. queues_of host (uuid i) queue) service)
    → ((i j : ℕ) → (i == j) ≡ false → str_eq (take 8 (uuid i)) (take 8 (uuid j)) ≡ false)
    → (out : Waiting) (i : ℕ) (a : Str) (s : Session W)
    → Reached J amqp (λ k. queues_of host (uuid k) queue) service b out s.world
    → awaited i out ≡ a ∷ []
    → (receive (amqp i) (queues_of host (uuid i) queue).response_queue s).0 ≡ ok a
receive-own J amqp host uuid queue service b apart out i a s =
    receive-awaited J amqp (λ k. queues_of host (uuid k) queue) service b
      (λ i j other. queues_of-apart host (uuid i) (uuid j) queue queue (apart i j other)) i a s
