-- ===== src/Tests/WebTests.antt =====
-- The service of ServiceTests over HTTP.
use mqss_client.Common.{
  ℕ, ◌≡◌, refl, true, false, none, some, List, [], ◌∷◌, ◌++◌, drop, if◌then◌else◌, ◌==◌, arith,
}
use mqss_client.Common.Bytes.{Str, txt}
use mqss_client.Common.Effects.{Result}
use mqss_client.Transport.{Env}
use mqss_client.Rest.Request.{Curl, HttpRequest, WriteFunction, RestClient, rest_transport}
use mqss_client.Rest.Request.Answers.{Taken}
use mqss_client.Rest.Remote.{Outcome, failed, replied, WebService, IsConnected, direct, run-served}
use mqss_client.Client.Programs.{Program, finish, invoke, cancellation, status, Answer, run}
use mqss_client.Tests.SampleJson.{Value}
use mqss_client.Tests.SampleServer.{library, bell}
use mqss_client.Tests.SampleCurl.{lenient, deliver, Taken-deliver}
use mqss_client.Tests.ServiceTests.{answer_at, Table, submitted_at, with_job, later, busy}

abbrev client : RestClient
client = record { url = txt "u/"; headers = [] }

abbrev outcome_of : Str → HttpRequest → Table → Outcome × Table
outcome_of (c ∷ _) asked w =
    if c == b'G'
    then (replied 200 (answer_at (drop 2 asked.url) w ∷ []), w)
    else if c == b'P'
    then (replied 200 (submitted_at w ∷ []), with_job (drop 2 asked.url) w)
    else (replied 404 [], w)
outcome_of [] asked w = (failed 1, w)

-- A server that cannot cancel jobs; its state is the table of ServiceTests.
abbrev server : WebService Table
server = record { respond = λ asked w. outcome_of asked.custom_request asked w; elapse = later }

-- The last status, and the server.
abbrev Network : Type 0
Network = ℕ × Table

abbrev carry : WriteFunction → Str → Outcome × Table → (ℕ × Str) × Network
carry callback out (failed n, w) = ((n, out), (0, w))
carry callback out (replied code pieces, w) = (deliver callback out pieces, (code, w))

abbrev network : Curl Network
network = record {
  parser = lenient;
  easy_init = λ w. (true, w);
  slist_append = λ headers header w. (some (headers ++ header ∷ []), w);
  perform = λ asked callback out w. carry callback out (server.respond asked w.1);
  response_code = λ w. w.0;
  strerror = λ n. txt "error";
  ca_bundle = none;
  has_room = λ out n. true;
  elapse = λ n w. (w.0, later n w.1);
}

carry-state :
    (callback : WriteFunction) (out : Str) (o : Outcome × Table) → (carry callback out o).1.1 ≡ o.1
carry-state callback out (failed n, w) = refl
carry-state callback out (replied code pieces, w) = refl

carry-replied :
    (callback : WriteFunction) (out end : Str) (o : Outcome × Table) (code : ℕ) (pieces : List Str)
    → o.0 ≡ replied code pieces
    → Taken callback out pieces end
    → ((carry callback out o).0 ≡ (0, end)) × ((carry callback out o).1.0 ≡ code)
carry-replied callback out end (failed n, w) code pieces h taken = cc h
carry-replied callback out end (replied code' pieces', w) code pieces h taken =
    let same : pieces' ≡ pieces = cc h in (rw same (Taken-deliver callback taken), cc h)

-- Only a request with no method fails.
outcome_of-failed :
    (method : Str) (asked : HttpRequest) (w : Table) (n : ℕ)
    → (outcome_of method asked w).0 ≡ failed n
    → n ≡ 1
outcome_of-failed [] asked w n h = cc h
outcome_of-failed (c ∷ _) asked w n h = ground (arith, h)

carry-failed :
    (callback : WriteFunction) (out : Str) (o : Outcome × Table) (n : ℕ)
    → o.0 ≡ failed n
    → (carry callback out o).0.0 ≡ n
carry-failed callback out (failed m, w) n h = cc h
carry-failed callback out (replied code pieces, w) n h = cc h

network-IsConnected : IsConnected network server
network-IsConnected = record {
  state = λ w. w.1;
  handle = λ w. (refl, refl);
  room = λ out n. refl;
  performing = λ asked callback out w. carry-state callback out (server.respond asked w.1);
  failing = λ asked callback out w n h. (
    carry-failed callback out (server.respond asked w.1) n h,
    rw (outcome_of-failed asked.custom_request asked w.1 n h) refl,
  );
  replying = λ asked callback out end w. carry-replied callback out end (server.respond asked w.1);
  elapsing = λ n w. refl;
}

abbrev env : Env Value Network
env = record { world = (0, busy); trace = [] }

abbrev direct_env : Env Value Table
direct_env = record { world = busy; trace = [] }

-- Cancel a job whatever comes of it, then ask for its status.
abbrev program : Program (Result Answer)
program = invoke (cancellation bell) (λ _. invoke (status bell) finish)

run-served_example :
    ((run library (rest_transport library network client) false program env).0
      ≡ (run library (direct library network client server) false program direct_env).0)
    × ((run library (rest_transport library network client) false program env).1.trace
        ≡ (run library (direct library network client server) false program direct_env).1.trace)
    × ((run library (rest_transport library network client) false program env).1.world.1
        ≡ (run library (direct library network client server) false program direct_env).1.world)
unfolding network-IsConnected
run-served_example =
    run-served library network client server network-IsConnected false program env direct_env refl
      refl
