-- ===== src/Tests/SharingTests.antt =====
-- Two clients at one broker, whose requests interleave.
use mqss_client.Common.{
  ℕ, ◌≡◌, refl, ap, sym, ◌∙◌, Bool, ==_iff, length, take-append, true, false, none, List, [], ◌∷◌,
  ◌++◌, ◌==◌, ◌+◌, take, if◌then◌else◌, arith,
}
use mqss_client.Common.Bytes.{Str, txt, str_eq}
use mqss_client.Common.Bytes.Laws.{str_eq_refl}
use mqss_client.Common.Words.{pos, negsuc}
use mqss_client.Common.Effects.{ok}
use mqss_client.Json.{JsonLib}
use mqss_client.RabbitMq.{Amqp, Session, Delivery, message, failure, rabbitmq_client, send, receive}
use mqss_client.Hpc.{HpcClient, queues_of}
use mqss_client.Hpc.Broker.{Request, getting, deleting, posting, Service, envelope}
use mqss_client.Hpc.Sharing.{IsShared, Reached, idle, sends, receives, without}
use mqss_client.Hpc.Sharing.Own.{receive-own}
use mqss_client.Tests.SampleJson.{Value, text_at}
use mqss_client.Tests.SampleServer.{library}

abbrev uuid : ℕ → Str
uuid i = i ∷ []

abbrev client : ℕ → HpcClient
client i = queues_of none (uuid i) (txt "L")

-- It counts its requests, and answers with the number.
abbrev counter : Service Value ℕ
counter = record { serve = λ r n. (n ∷ [], n + 1); elapse = λ seconds n. n }

-- A library whose texts begin with the length of the queue's name and the name.
abbrev length_first : Str → Str
length_first queue = length queue ∷ queue

abbrev addressed : JsonLib
addressed = record library {
  dump = λ v. ok (length_first (text_at v (txt "response_queue")) ++ text_at v (txt "request"));
}

-- The queue that a message names.
abbrev queue_of : Str → Str
queue_of [] = []
queue_of (n ∷ rest) = take n rest

-- The answers on each queue, the state of the service, and which clients consume their queues.
pub record World : Type 0 where
  pub waiting : Str → List Str
  pub count : ℕ
  pub consumes : ℕ → Bool

abbrev set_queue : Str → List Str → World → World
set_queue q answers w = record w { waiting = λ p. if str_eq q p then answers else w.waiting p }

abbrev publish : Str → World → World
publish q w = record (set_queue q (w.waiting q ++ (w.count ∷ []) ∷ []) w) { count = w.count + 1 }

abbrev consume : ℕ → World → World
consume i w = record w { consumes = λ j. if i == j then true else w.consumes j }

-- Without a consumer nothing is delivered.
abbrev take_first : Bool → Str → List Str → World → Delivery × World
take_first false q waiting w = (failure (negsuc 12), w)
take_first true q [] w = (failure (negsuc 12), w)
take_first true q (body ∷ rest) w = (message body 1, set_queue q rest w)

abbrev connection : ℕ → Amqp World
connection i = record {
  tcp_socket_new = λ w. (true, w);
  socket_open = λ host port w. (pos 0, w);
  login = λ user password w. (true, w);
  channel_open = λ w. (true, w);
  basic_publish = λ queue text w. (pos 0, publish (queue_of text) w);
  queue_declare = λ queue w. w;
  basic_consume = λ queue w. if str_eq queue (client i).response_queue then consume i w else w;
  consume_message = λ w.
      take_first (w.consumes i) (client i).response_queue (w.waiting (client i).response_queue) w;
  basic_ack = λ tag w. w;
  error_string = λ e. txt "error";
  close = λ w. w;
  elapse = λ n w. w;
}

set_queue-same :
    (q : Str) (answers : List Str) (w : World) → (set_queue q answers w).waiting q ≡ answers
set_queue-same q answers w = rw (str_eq_refl q) refl

take_first-delivers :
    (consumes : Bool) (q : Str) (w : World) (waiting : List Str) (body : Str) (rest : List Str)
    → consumes ≡ true
    → waiting ≡ body ∷ rest
    → (tag : ℕ) × ((take_first consumes q waiting w).0 ≡ message body tag)
      × ((take_first consumes q waiting w).1.waiting q ≡ rest)
      × ((take_first consumes q waiting w).1.count ≡ w.count)
take_first-delivers false q w waiting body rest on h = cc
take_first-delivers true q w [] body rest on h = cc
take_first-delivers true q w (first ∷ others) body rest on h =
    (1, cc h, rw (str_eq_refl q) (cc h), refl)

take_first-elsewhere :
    (consumes : Bool) (q : Str) (w : World) (waiting : List Str) (p : Str)
    → str_eq q p ≡ false
    → (take_first consumes q waiting w).1.waiting p ≡ w.waiting p
take_first-elsewhere false q w waiting p other = refl
take_first-elsewhere true q w [] p other = refl
take_first-elsewhere true q w (first ∷ others) p other = rw other refl

queue_of-text : (q rest : Str) → queue_of (length_first q ++ rest) ≡ q
queue_of-text q rest = take-append q rest

-- The text of a message names the queue of its envelope.
queue_of-envelope :
    (q : Str) (r : Request Value) (text : Str)
    → addressed.dump (envelope addressed q r) ≡ ok text
    → queue_of text ≡ q
unfolding str_eq
queue_of-envelope q (getting path) text e =
    let same : length_first q ++ path ≡ text = cc e in ap queue_of (sym same) ∙ queue_of-text q path
queue_of-envelope q (deleting path) text e =
    let same : length_first q ++ path ≡ text = cc e in ap queue_of (sym same) ∙ queue_of-text q path
queue_of-envelope q (posting path body) text e =
    let same : length_first q ++ path ≡ text = cc e in ap queue_of (sym same) ∙ queue_of-text q path

shared : IsShared addressed connection client counter
shared = record {
  pending = λ q w. w.waiting q;
  state = λ w. w.count;
  consumes = λ i w. w.consumes i;
  publishing = λ i q r text w e.
      rw (queue_of-envelope q r text e)
        (refl, rw (str_eq_refl q) refl, refl, λ p other. rw other refl);
  declaring = λ i queue w. (λ q. refl, refl);
  starting = λ i w.
      rw (str_eq_refl (client i).response_queue) (λ q. refl, refl, rw ((==_iff i i).1 refl) refl);
  delivering = λ i w.
      take_first-delivers (w.consumes i) (client i).response_queue w
        (w.waiting (client i).response_queue);
  delivering_elsewhere = λ i w.
      take_first-elsewhere (w.consumes i) (client i).response_queue w
        (w.waiting (client i).response_queue);
  acking = λ i tag w. (λ q. refl, refl);
  elapsing = λ i n w. (λ q. refl, refl);
}

uuids-apart : (i j : ℕ) → (i == j) ≡ false → str_eq (take 8 (uuid i)) (take 8 (uuid j)) ≡ false
unfolding str_eq
uuids-apart i j h = ground arith

-- The client 0 asks, then the client 1 asks and receives, and then the client 0 receives.
abbrev start : Session World
start = rabbitmq_client (record { waiting = λ q. []; count = 7; consumes = λ i. false })

abbrev message_text : ℕ → Str → Str
message_text i path = length_first (client i).response_queue ++ path

abbrev asked : Session World
asked = (send (connection 0) (txt "L") (message_text 0 (txt "resources")) start).1

abbrev asked_too : Session World
asked_too = (send (connection 1) (txt "L") (message_text 1 (txt "job/1")) asked).1

abbrev received : Session World
received = (receive (connection 1) (client 1).response_queue asked_too).1

run : Reached addressed connection client counter shared ((0, 7 ∷ []) ∷ []) received.world
unfolding shared send without str_eq
run =
    receives 1 (8 ∷ []) asked_too
      (sends 1 (deleting (txt "job/1")) (message_text 1 (txt "job/1")) asked
        (sends 0 (getting (txt "resources")) (message_text 0 (txt "resources")) start
          (idle (λ i. refl)) refl refl)
        refl refl)
      refl

receive-own_example : (receive (connection 0) (client 0).response_queue received).0 ≡ ok (7 ∷ [])
receive-own_example =
    receive-own addressed connection none uuid (txt "L") counter shared uuids-apart
      ((0, 7 ∷ []) ∷ []) 0 (7 ∷ []) received run refl
