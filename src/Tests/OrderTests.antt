-- ===== src/Tests/OrderTests.antt =====
-- Requests over a broker that keeps the order of messages, to the service of ServiceTests.
use mqss_client.Common.{
  ℕ, Bool, false, drop, ◌≡◌, refl, true, some, none, List, [], ◌∷◌, ◌++◌, length, if◌then◌else◌,
  ◌==◌, arith,
}
use mqss_client.Common.Bytes.{Str, txt, str_eq, ends_strictly_with}
use mqss_client.Common.Words.{pos, negsuc}
use mqss_client.Common.Effects.{Result, ok}
use mqss_client.Transport.{Env}
use mqss_client.RabbitMq.{
  Amqp, Session, Delivery, message, failure, rabbitmq_client, send, receive, declare_queue,
  take_delivery, has,
}
use mqss_client.Hpc.{HpcClient, exchange, get, post, del, hpc_transport}
use mqss_client.Hpc.Broker.{Request, getting, deleting, posting, Service, IsServed, envelope}
use mqss_client.Hpc.Order.{request, requests, all_returned, answers, requests-InOrder}
use mqss_client.Hpc.Remote.{direct, IsIdle, run-direct}
use mqss_client.Hpc.Jobs.{submit_job-delivered}
use mqss_client.Client.Programs.Jobs.{Computed}
use mqss_client.Client.Service.{IsService}
use mqss_client.Client.Programs.{Program, finish, invoke, cancellation, status, Answer, run}
use mqss_client.Tests.SampleJson.{Value, str, null, sample-IsDocumented, sample-MakesValues}
use mqss_client.Tests.SampleServer.{library, texts, bell, ising}
use mqss_client.Tests.ServiceTests.{
  answer_at, gives-IsService, Table, submitted_at, with_job, later, busy, duration, compute,
  energy_result,
}
use mqss_client.Job.{path_of}

abbrev pub client : HpcClient
client = record { listener_queue = txt "L"; response_queue = txt "R" }

-- The server of ServiceTests as a service.
abbrev pub remote : Service Value Table
remote = record {
  serve = λ r w. elim r [
    | getting path ↦ (answer_at path w, w)
    | posting path body ↦ (submitted_at w, with_job path w)
    | deleting path ↦ (txt "deleted", w)
  ];
  elapse = later;
}

-- What the service makes of a message, whose method is told by its first letter.
abbrev reply : Str → Table → Str × Table
reply (c ∷ _ ∷ _ ∷ path) w =
    if c == b'G'
    then remote.serve (getting path) w
    else if c == b'P'
    then remote.serve (posting (drop 1 path) null) w
    else (txt "deleted", w)
reply _ w = ([], w)

-- The answers that wait, the state of the service, and whether the response queue is consumed.
pub record World : Type 0 where
  pub waiting : List Str
  pub table : Table
  pub consumes : Bool

abbrev queued : Str × Table → World → World
queued (answer, table) w = record w { waiting = w.waiting ++ answer ∷ []; table = table }

abbrev publish : Str → Str → World → World
publish queue text w = if str_eq queue (txt "L") then queued (reply text w.table) w else w

abbrev consume : Str → World → World
consume queue w = if str_eq queue (txt "R") then record w { consumes = true } else w

-- Without a consumer nothing is delivered.
abbrev take_first : Bool → List Str → World → Delivery × World
take_first false waiting w = (failure (negsuc 12), w)
take_first true [] w = (failure (negsuc 12), w)
take_first true (body ∷ rest) w = (message body 1, record w { waiting = rest })

abbrev pub broker : Amqp World
broker = record {
  tcp_socket_new = λ w. (true, w);
  socket_open = λ host port w. (pos 0, w);
  login = λ user password w. (true, w);
  channel_open = λ w. (true, w);
  basic_publish = λ queue text w. (pos 0, publish queue text w);
  queue_declare = λ queue w. w;
  basic_consume = consume;
  consume_message = λ w. take_first w.consumes w.waiting w;
  basic_ack = λ tag w. w;
  error_string = λ e. txt "error";
  close = λ w. w;
  elapse = λ n w. record w { table = later n w.table };
}

take_first-delivers :
    (consumes : Bool) (waiting : List Str) (w : World) (body : Str) (rest : List Str)
    → consumes ≡ true
    → waiting ≡ body ∷ rest
    → (tag : ℕ) × ((take_first consumes waiting w).0 ≡ message body tag)
      × ((take_first consumes waiting w).1.waiting ≡ rest)
      × ((take_first consumes waiting w).1.table ≡ w.table)
take_first-delivers false waiting w body rest on h = cc
take_first-delivers true [] w body rest on h = cc
take_first-delivers true (first ∷ others) w body rest on h = (1, cc h, cc h, refl)

publishes :
    (r : Request Value) (text : Str) (w : World)
    → library.dump (envelope library (txt "R") r) ≡ ok text
    → ((publish (txt "L") text w).waiting ≡ w.waiting ++ (remote.serve r w.table).0 ∷ [])
      × ((publish (txt "L") text w).table ≡ (remote.serve r w.table).1)
unfolding str_eq
publishes (getting path) text w h =
    let same : text ≡ txt "GET" ++ path = cc h in rw same (refl, refl)
publishes (posting path body) text w h =
    let same : text ≡ txt "POST" ++ path = cc h in rw same (refl, refl)
publishes (deleting path) text w h =
    let same : text ≡ txt "DELETE" ++ path = cc h in rw same (refl, refl)

pub broker-IsServed : IsServed library broker client remote
unfolding str_eq
broker-IsServed = record {
  pending = λ w. w.waiting;
  state = λ w. w.table;
  consumes = λ w. w.consumes;
  publishing = λ r text w h. let (queued', kept) = publishes r text w h in (refl, queued', kept);
  declaring = λ queue w. (refl, refl);
  starting = λ w. (refl, refl, refl);
  delivering = λ w. take_first-delivers w.consumes w.waiting w;
  acking = λ tag w. (refl, refl);
  elapsing = λ n w. (refl, refl);
}

abbrev starting_with : List Str → Session World
starting_with waiting =
    rabbitmq_client (record { waiting = waiting; table = busy; consumes = false })

-- One answer is late.
abbrev start : Session World
start = starting_with (txt "late" ∷ [])

abbrev sample : List (Request Value)
sample = getting (txt "resources") ∷ deleting (txt "job/1") ∷ posting (txt "job") (str []) ∷ []

order_test :
    ((requests library broker client sample start).0
      ≡ ok (some (txt "late") ∷ none ∷ some (txt "deleted") ∷ []))
    × ((requests library broker client sample start).1.world.waiting ≡ submitted_at busy ∷ [])
unfolding requests request get post del exchange send receive declare_queue take_delivery has str_eq
    ends_strictly_with
order_test = (refl, refl)

requests-InOrder_example :
    (taken : List Str) × (length taken ≡ 3)
    × ((requests library broker client sample start).0 ≡ ok (all_returned sample taken))
    × (taken ++ (requests library broker client sample start).1.world.waiting
        ≡ (txt "late" ∷ []) ++ answers remote sample busy)
unfolding broker-IsServed
requests-InOrder_example =
    requests-InOrder library broker client broker-IsServed sample start
      ((_, refl), ((_, refl), ((_, refl), tt)))

-- Cancel a job whatever comes of it, then ask for its status.
abbrev program : Program (Result Answer)
program = invoke (cancellation bell) (λ _. invoke (status bell) finish)

abbrev pub env : Env Value (Session World)
env = record { world = starting_with []; trace = [] }

abbrev direct_env : Env Value Table
direct_env = record { world = busy; trace = [] }

pub env-IsIdle : IsIdle library broker client remote broker-IsServed env.world direct_env.world
unfolding broker-IsServed
env-IsIdle = (refl, refl)

run-direct_example :
    ((run library (hpc_transport library broker client) true program env).0
      ≡ (run library (direct library broker client remote) true program direct_env).0)
    × ((run library (hpc_transport library broker client) true program env).1.trace
        ≡ (run library (direct library broker client remote) true program direct_env).1.trace)
    × IsIdle library broker client remote broker-IsServed
        (run library (hpc_transport library broker client) true program env).1.world
        (run library (direct library broker client remote) true program direct_env).1.world
run-direct_example =
    run-direct library broker client remote broker-IsServed true program env direct_env env-IsIdle
      refl

pub direct-IsService : IsService library (direct library broker client remote) duration compute
direct-IsService =
    gives-IsService (direct library broker client remote) (λ path w. refl) (λ path body w. refl)
      (λ n w. refl)

submit_job-delivered_example :
    Computed library (hpc_transport library broker client) true ising energy_result 2 10 env
unfolding broker-IsServed path_of
submit_job-delivered_example =
    submit_job-delivered library (sample-IsDocumented texts) (sample-MakesValues texts) broker
      client remote broker-IsServed duration compute direct-IsService ising env 2 10 env-IsIdle.0 tt
      (omega arith) (omega arith) (omega arith)
