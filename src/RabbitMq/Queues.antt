-- ===== src/RabbitMq/Queues.antt =====
-- What a connection keeps in order: its queues are declared once each, before they are consumed, and
-- a message is acknowledged when it is received.
use mqss_client.Common.{
  ℕ, ◌≡◌, refl, ap, inl, inr, true, false, ◌||◌, List, [], ◌∷◌, ◌++◌, All, All-mono, arith,
  Bool-cases,
}
use mqss_client.Common.Bytes.{Str, str_eq}
use mqss_client.Common.Bytes.Laws.{str_eq_refl, str_eq_iff}
use mqss_client.Common.Effects.{ok}
use mqss_client.RabbitMq.{
  connect, Delivery, message, failure, Amqp, Call, declared, consuming, received, acked, Session,
  has, send, declare_queue, receive, take_delivery,
}

-- The queues that were declared, the first one first.
unfoldable pub declared_queues : List Call → List Str
declared_queues [] = []
declared_queues (declared q ∷ cs) = declared_queues cs ++ q ∷ []
declared_queues (_ ∷ cs) = declared_queues cs

unfoldable pub consumed_queues : List Call → List Str
consumed_queues [] = []
consumed_queues (consuming q ∷ cs) = q ∷ consumed_queues cs
consumed_queues (_ ∷ cs) = consumed_queues cs

-- The tags of the messages received, and those acknowledged.
unfoldable pub received_tags : List Call → List ℕ
received_tags [] = []
received_tags (received (message body tag) ∷ cs) = tag ∷ received_tags cs
received_tags (_ ∷ cs) = received_tags cs

unfoldable pub acked_tags : List Call → List ℕ
acked_tags [] = []
acked_tags (acked tag ∷ cs) = tag ∷ acked_tags cs
acked_tags (_ ∷ cs) = acked_tags cs

abbrev pub Distinct : List Str → Type 0
Distinct [] = Unit
Distinct (q ∷ qs) = (has qs q ≡ false) × Distinct qs

has-append : (qs rs : List Str) (q : Str) → has (qs ++ rs) q ≡ (has qs q || has rs q)
unfolding has
has-append [] rs q = refl
has-append (p ∷ ps) rs q = ground (arith, has-append ps rs q)

pub has-push : (qs : List Str) (q : Str) → has (qs ++ q ∷ []) q ≡ true
unfolding has
has-push qs q = ground (arith, has-append qs (q ∷ []) q, str_eq_refl q)

pub has_mono : (qs rs : List Str) (q : Str) → has qs q ≡ true → has (qs ++ rs) q ≡ true
has_mono qs rs q h = ground (arith, has-append qs rs q, h)

str_eq-flip : (p q : Str) → str_eq p q ≡ false → str_eq q p ≡ false
str_eq-flip p q h = elim (Bool-cases (str_eq q p)) [
  | inr other ↦ other
  | inl same ↦ cc (h, str_eq_refl p, (str_eq_iff q p).0 same)
]

Distinct-push : (qs : List Str) (q : Str) → Distinct qs → has qs q ≡ false → Distinct (qs ++ q ∷ [])
unfolding has
Distinct-push [] q d h = (refl, tt)
Distinct-push (p ∷ ps) q (new, d) h =
    let other : str_eq q p ≡ false = str_eq-flip p q (ground (arith, h)) in
    (ground (arith, has-append ps (q ∷ []) p, new, other), Distinct-push ps q d (ground (arith, h)))

module _ {W : Type 0} where
  pub record IsOrderly (s : Session W) : Type 0 where
    pub distinct : Distinct s.queues
    pub declarations : declared_queues s.calls ≡ s.queues
    pub consumed : All (λ q. has s.queues q ≡ true) (consumed_queues s.calls)
    pub acknowledged : acked_tags s.calls ≡ received_tags s.calls

  pub fresh-IsOrderly : (s : Session W) → s.queues ≡ [] → s.calls ≡ [] → IsOrderly s
  unfolding declared_queues consumed_queues received_tags acked_tags
  fresh-IsOrderly s q c = record {
    distinct = rw q tt;
    declarations = rw (c, q) refl;
    consumed = rw c tt;
    acknowledged = rw c refl;
  }

module _ {W : Type 0} (amqp : Amqp W) where
  pub send-IsOrderly :
      (queue text : Str) (s : Session W) → IsOrderly s → IsOrderly (send amqp queue text s).1
  unfolding send declared_queues consumed_queues received_tags acked_tags
  send-IsOrderly queue text s h = record {
    distinct = h.distinct;
    declarations = h.declarations;
    consumed = h.consumed;
    acknowledged = h.acknowledged;
  }

  pub declare_queue-ok : (queue : Str) (s : Session W) → (declare_queue amqp queue s).0 ≡ ok 0
  unfolding declare_queue
  declare_queue-ok queue s = elim (Bool-cases (has s.queues queue)) [
    | inl there ↦ rw there refl
    | inr new ↦ rw new refl
  ]

  pub declare_queue-IsOrderly :
      (queue : Str) (s : Session W)
      → IsOrderly s
      → IsOrderly (declare_queue amqp queue s).1
        × (has (declare_queue amqp queue s).1.queues queue ≡ true)
  unfolding declare_queue declared_queues consumed_queues received_tags acked_tags
  declare_queue-IsOrderly queue s h = elim (Bool-cases (has s.queues queue)) [
    | inl there ↦ rw there (h, there)
    | inr new ↦ rw new (
      record {
        distinct = Distinct-push s.queues queue h.distinct new;
        declarations = ap (λ qs. qs ++ queue ∷ []) h.declarations;
        consumed =
            All-mono (λ q. has_mono s.queues (queue ∷ []) q) (consumed_queues s.calls) h.consumed;
        acknowledged = h.acknowledged;
      },
      has-push s.queues queue,
    )
  ]

  -- The end of `receive`: the queue is consumed, and what is delivered is taken.
  taken-IsOrderly :
      (queue : Str) (s : Session W) (w : W) (d : Delivery)
      → IsOrderly s
      → has s.queues queue ≡ true
      → IsOrderly
          (take_delivery amqp d
            (record s { world = w; calls = received d ∷ consuming queue ∷ s.calls })).1
  unfolding take_delivery declared_queues consumed_queues received_tags acked_tags
  taken-IsOrderly queue s w (message body tag) h there = record {
    distinct = h.distinct;
    declarations = h.declarations;
    consumed = (there, h.consumed);
    acknowledged = ap (λ ts. tag ∷ ts) h.acknowledged;
  }
  taken-IsOrderly queue s w (failure error) h there = record {
    distinct = h.distinct;
    declarations = h.declarations;
    consumed = (there, h.consumed);
    acknowledged = h.acknowledged;
  }

  pub receive-IsOrderly :
      (queue : Str) (s : Session W) → IsOrderly s → IsOrderly (receive amqp queue s).1
  unfolding receive
  receive-IsOrderly queue s h = rw (declare_queue-ok queue s) (
      let (orderly, there) = declare_queue-IsOrderly queue s h in
      taken-IsOrderly queue (declare_queue amqp queue s).1 _ _ orderly there)

  -- No queue is forgotten.
  pub declare_queue-has :
      (queue q : Str) (s : Session W)
      → has s.queues q ≡ true
      → has (declare_queue amqp queue s).1.queues q ≡ true
  unfolding declare_queue
  declare_queue-has queue q s h = elim (Bool-cases (has s.queues queue)) [
    | inl there ↦ rw there h
    | inr new ↦ rw new (has_mono s.queues (queue ∷ []) q h)
  ]

  take_delivery-queues :
      (d : Delivery) (s : Session W) → (take_delivery amqp d s).1.queues ≡ s.queues
  unfolding take_delivery
  take_delivery-queues (message body tag) s = refl
  take_delivery-queues (failure error) s = refl

  pub receive-has :
      (queue q : Str) (s : Session W)
      → has s.queues q ≡ true
      → has (receive amqp queue s).1.queues q ≡ true
  unfolding receive
  receive-has queue q s h =
      rw (declare_queue-ok queue s) (rw (take_delivery-queues _ _) (declare_queue-has queue q s h))

  take_delivery-ok :
      (d : Delivery) (s : Session W) → (body : Str) × ((take_delivery amqp d s).0 ≡ ok body)
  unfolding take_delivery
  take_delivery-ok (message body tag) s = (body, refl)
  take_delivery-ok (failure error) s = (amqp.error_string error, refl)

  pub receive-ok :
      (queue : Str) (s : Session W) → (body : Str) × ((receive amqp queue s).0 ≡ ok body)
  unfolding receive
  receive-ok queue s = rw (declare_queue-ok queue s) (take_delivery-ok _ _)

  pub connect-queues :
      (s : Session W)
      → ((connect amqp s).1.queues ≡ s.queues) × ((connect amqp s).1.calls ≡ s.calls)
  unfolding connect
  connect-queues s = (ground arith, ground arith)
