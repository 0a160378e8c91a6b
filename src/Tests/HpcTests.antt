-- ===== src/Tests/HpcTests.antt =====
-- The transport over a broker that answers from a script.
use mqss_client.Common.{◌⊎◌, ◌≡◌, refl, Bool, true, false, some, List, [], ◌∷◌}
use mqss_client.Common.Bytes.{Str, txt, str_eq, is_empty}
use mqss_client.Common.Words.{pos, negsuc}
use mqss_client.Common.Effects.{throw, Exn, ok}
use mqss_client.RabbitMq.{
  Amqp, Session, Delivery, message, failure, rabbitmq_client, has, connect, disconnect, send,
  receive, declare_queue, take_delivery, closed,
}
use mqss_client.Hpc.{del, message_of, HpcClient, hpc_client, exchange, get}
use mqss_client.Hpc.Exchange.{Answered, Deleted, exchange-Answered, del-Deleted}
use mqss_client.Hpc.Sessions.{built, got, deleted, Holds, Reached-Holds}
use mqss_client.Tests.SampleJson.{str}
use mqss_client.Tests.SampleServer.{library, running}

-- Whether there is a socket, and the deliveries to come.
abbrev Queue : Type 0
Queue = Bool × List Delivery

abbrev next : Queue → Delivery × Queue
next (up, []) = (failure (negsuc 8), (up, []))
next (up, d ∷ ds) = (d, (up, ds))

abbrev amqp : Amqp Queue
amqp = record {
  tcp_socket_new = λ w. (w.0, w);
  socket_open = λ host port w. (pos 0, w);
  login = λ user password w. (true, w);
  channel_open = λ w. (true, w);
  basic_publish = λ queue text w. (pos 0, w);
  queue_declare = λ queue w. w;
  basic_consume = λ queue w. w;
  consume_message = next;
  basic_ack = λ tag w. w;
  error_string = λ e. txt "error";
  close = λ w. w;
  elapse = λ n w. w;
}

abbrev client : HpcClient
client = record {
  listener_queue = txt "listener";
  response_queue = txt "response_queue_node_01234567";
}

abbrev world : Queue
world = (true, message running 1 ∷ [])

abbrev start : Session Queue
start =
    (hpc_client amqp (some (txt "node")) (txt "0123456789") (txt "t") (txt "listener")
      (rabbitmq_client world)).1

hpc_tests :
    ((hpc_client amqp
        (some (txt "node"))
        (txt "0123456789")
        (txt "t")
        (txt "listener")
        (rabbitmq_client world)).0
      ≡ ok client)
    × (start.queues ≡ txt "listener" ∷ client.response_queue ∷ [])
    × ((get library amqp client (txt "job/1/status") start).0 ≡ ok running)
    × ((hpc_client amqp
          (some (txt "node"))
          (txt "0123456789")
          (txt "t")
          (txt "listener")
          (rabbitmq_client (false, []))).1.calls
        ≡ closed ∷ [])
unfolding hpc_client connect disconnect declare_queue has str_eq is_empty get exchange send receive
    take_delivery
hpc_tests = (refl, refl, refl, refl)

start-has : has start.queues client.response_queue ≡ true
unfolding hpc_client connect declare_queue has str_eq is_empty
start-has = refl

exchange-Answered_example :
    ((x : Exn) × (library.dump
          (message_of library amqp client (txt "GET") (txt "resources") (str []))
        ≡ throw x)
      × (exchange library amqp client (txt "GET") (txt "resources") (str []) start
          ≡ (throw x, start)))
    ⊎ ((text : Str) × (library.dump
            (message_of library amqp client (txt "GET") (txt "resources") (str []))
          ≡ ok text)
        × Answered amqp client text start
            (exchange library amqp client (txt "GET") (txt "resources") (str []) start))
exchange-Answered_example =
    exchange-Answered library amqp client (txt "GET") (txt "resources") (str []) start start-has

del_test :
    Deleted library amqp client
      (txt "DELETEjob/12345")
      start
      (del library amqp client (txt "job/12345") start)
unfolding str_eq
del_test =
    del-Deleted library amqp client (txt "job/12345") (txt "DELETEjob/12345") start start-has refl

Reached-Holds_example :
    Holds library amqp client
      (del library amqp client
        (txt "job/1")
        (get library amqp client (txt "job/1/status") start).1).1
Reached-Holds_example =
    Reached-Holds library amqp client
      (del library amqp client (txt "job/1")
        (get library amqp client (txt "job/1/status") start).1).1
      (deleted (txt "job/1") (
        got (txt "job/1/status") (
          built (some (txt "node")) (txt "0123456789") (txt "t") (txt "listener") world
            hpc_tests.0)))
