-- ===== src/Rest/Remote.antt =====
-- The client over HTTP, and one that speaks to the server directly.
use mqss_client.Common.{
  ℕ, ◌≡◌, refl, true, false, inl, inr, ◌&&◌, none, some, Option, List, [], ◌++◌, concat, ltb, leb,
  ◌*◌, ◌∷◌, length, arith, ap, ◌∙◌, Bool, ◌==◌, if◌then◌else◌,
}
use mqss_client.Common.Bytes.{Str, txt}
use mqss_client.Common.Effects.{
  Result, ok, throw, runtime_error, invalid_argument, out_of_range, json_error, bad_alloc,
  Result-cases,
}
use mqss_client.Common.Stateful.{State, pure, lift, catch_runtime_error, ◌>>=◌, ◌>>◌}
use mqss_client.Standard.ToString.{numeral}
use mqss_client.Json.{JsonLib}
use mqss_client.Transport.{BaseClient, Env}
use mqss_client.Rest.Request.{
  Curl, HttpRequest, WriteFunction, RestClient, write_response, http_request, error_prefix, checked,
  payload_of, request, get, post, del, rest_transport,
}
use mqss_client.Rest.Request.Answers.{Taken, done, more, write_response-Taken}
use mqss_client.Client.Programs.{Program, run}
use mqss_client.Client.Programs.Rules.{Agree, Simulates}
use mqss_client.Client.Programs.Simulation.{run-Alike}

-- What comes of a transfer: libcurl's code if it fails, or a response with its status and the pieces
-- in which its body comes.
pub data Outcome : Type 0 where
  failed : ℕ → Outcome
  replied : ℕ → List Str → Outcome

-- The server and the network, with a state.
pub record WebService (V : Type 0) : Type 0 where
  pub respond : HttpRequest → V → Outcome × V
  pub elapse : ℕ → V → V

module _ {W : Type 0} (curl : Curl W) {V : Type 0} (service : WebService V) where
  -- A transfer that fails has a code above 0; one that does not has the code 0 if the callback takes
  -- the pieces of the body, each whole. There is a handle, and memory for the response.
  pub record IsConnected : Type 0 where
    pub state : W → V
    pub handle : (w : W) → ((curl.easy_init w).0 ≡ true) × (state (curl.easy_init w).1 ≡ state w)
    pub room : (output : Str) (n : ℕ) → curl.has_room output n ≡ true
    pub performing :
        (asked : HttpRequest) (callback : WriteFunction) (out : Str) (w : W)
        → state (curl.perform asked callback out w).1 ≡ (service.respond asked (state w)).1
    pub failing :
        (asked : HttpRequest) (callback : WriteFunction) (out : Str) (w : W) (n : ℕ)
        → (service.respond asked (state w)).0 ≡ failed n
        → ((curl.perform asked callback out w).0.0 ≡ n) × ((n == 0) ≡ false)
    pub replying :
        (asked : HttpRequest) (callback : WriteFunction) (out end : Str) (w : W) (status : ℕ)
        (pieces : List Str)
        → (service.respond asked (state w)).0 ≡ replied status pieces
        → Taken callback out pieces end
        → ((curl.perform asked callback out w).0 ≡ (0, end))
          × (curl.response_code (curl.perform asked callback out w).1 ≡ status)
    pub elapsing : (n : ℕ) (w : W) → state (curl.elapse n w) ≡ service.elapse n (state w)

module _ {W : Type 0} (curl : Curl W)
    (room : (output : Str) (n : ℕ) → curl.has_room output n ≡ true) where
  write_response-takes :
      (piece out : Str) → (write_response curl piece 1 (length piece) out).0 ≡ length piece
  unfolding write_response
  write_response-takes piece out = rw (room out (1 * length piece)) (omega arith)

  takes_all :
      (pieces : List Str) (out : Str) → (end : Str) × Taken (write_response curl) out pieces end
  takes_all [] out = (out, done)
  takes_all (piece ∷ pieces) out =
      let (end, taken) = takes_all pieces (write_response curl piece 1 (length piece) out).1 in
      (end, more (write_response-takes piece out) taken)

module _ (J : JsonLib) {W : Type 0} (curl : Curl W) (client : RestClient) {V : Type 0}
    (service : WebService V) where
  open J use {Json}

  -- What a request makes of what came of its transfer.
  abbrev pub judge : Str → Outcome → Result Str
  judge method (failed n) = throw (runtime_error (error_prefix curl method ++ curl.strerror n))
  judge method (replied status pieces) =
      if leb 200 status && ltb status 300
      then ok (concat pieces)
      else throw (runtime_error (error_prefix curl method ++ (txt "HTTP " ++ numeral status)))

  abbrev pub transfer : Str → Str → Option Str → V → Result Str × V
  transfer method path payload v =
      let r = service.respond (http_request curl client method path payload) v in
      (judge method r.0, r.1)

  -- A request to the server itself: one whose data have no text throws, and is not sent.
  abbrev pub ask : Str → Str → Option Json → State V Str
  ask method path body = do payload ← lift (payload_of J curl body); transfer method path payload

  abbrev pub direct : BaseClient Json V
  direct = record {
    get = λ path. catch_runtime_error (ask (txt "GET") path none) [];
    post = λ path body. catch_runtime_error (ask (txt "POST") path (some body)) [];
    del = λ path. ask (txt "DELETE") path none >> pure tt;
    elapse = service.elapse;
  }

  module _ (net : IsConnected curl service) where
    open net use {state}

    abbrev pub IsAt : W → V → Type 0
    IsAt w v = state w ≡ v

    transfer-judged :
        (method path : Str) (payload : Option Str) (w : W) (o : Outcome)
        → (service.respond (http_request curl client method path payload) (state w)).0 ≡ o
        → let moved =
            curl.perform
              (http_request curl client method path payload)
              (write_response curl)
              []
              w in
          checked curl method moved.0 (curl.response_code moved.1) ≡ judge method o
    unfolding checked
    transfer-judged method path payload w (failed n) h =
        let asked = http_request curl client method path payload in
        let (code, nonzero) = net.failing asked (write_response curl) [] w n h in
        rw (code, nonzero) refl
    transfer-judged method path payload w (replied status pieces) h =
        let asked = http_request curl client method path payload in
        let (end, taken) = takes_all curl net.room pieces [] in
        let (given, status') =
          net.replying asked (write_response curl) [] end w status pieces h taken in
        rw (given, status', write_response-Taken curl taken) refl

    request-Agree :
        (method path : Str) (body : Option Json) (w : W) (v : V)
        → state w ≡ v
        → ((request J curl client method path body w).0 ≡ (ask method path body v).0)
          × (state (request J curl client method path body w).1 ≡ (ask method path body v).1)
    unfolding request
    request-Agree method path body w v same =
        let (given, kept) = net.handle w in
        let w1 = (curl.easy_init w).1 in
        elim (Result-cases (payload_of J curl body)) [
          | inr (x, bad) ↦ rw (given, bad) (refl, cc (kept, same))
          | inl (payload, made) ↦
              let asked = http_request curl client method path payload in
              let here : state w1 ≡ v = cc (kept, same) in
              rw (given, made, ← here)
                (
                  transfer-judged method path payload w1 _ refl,
                  net.performing asked (write_response curl) [] w1,
                )
        ]

    abbrev pub Agrees : {A : Type 0} → Result A × W → Result A × V → Type 0
    Agrees = Agree (rest_transport J curl client) direct IsAt

    caught-Agrees :
        {A : Type 0} (a : A) (r : Result A) (w : W) (v : V)
        → state w ≡ v
        → Agrees (catch_runtime_error (λ _. (r, w)) a w) (catch_runtime_error (λ _. (r, v)) a v)
    caught-Agrees a (ok b) w v same = (refl, same)
    caught-Agrees a (throw (runtime_error m)) w v same = (refl, same)
    caught-Agrees a (throw (invalid_argument m)) w v same = (refl, same)
    caught-Agrees a (throw out_of_range) w v same = (refl, same)
    caught-Agrees a (throw json_error) w v same = (refl, same)
    caught-Agrees a (throw bad_alloc) w v same = (refl, same)

    dropped-Agrees :
        {A : Type 0} (r : Result A) (w : W) (v : V)
        → state w ≡ v
        → Agrees (((λ _. (r, w)) >>= λ _. pure tt) w) (((λ _. (r, v)) >>= λ _. pure tt) v)
    dropped-Agrees (ok b) w v same = (refl, same)
    dropped-Agrees (throw x) w v same = (refl, same)

    get-Agrees :
        (path : Str) (w : W) (v : V)
        → state w ≡ v
        → Agrees (get J curl client path w) (direct.get path v)
    unfolding get
    get-Agrees path w v same =
        let (outcome, same') = request-Agree (txt "GET") path none w v same in
        rw outcome (caught-Agrees [] (ask (txt "GET") path none v).0 _ _ same')

    post-Agrees :
        (path : Str) (body : Json) (w : W) (v : V)
        → state w ≡ v
        → Agrees (post J curl client path body w) (direct.post path body v)
    unfolding post
    post-Agrees path body w v same =
        let (outcome, same') = request-Agree (txt "POST") path (some body) w v same in
        rw outcome (caught-Agrees [] (ask (txt "POST") path (some body) v).0 _ _ same')

    del-Agrees :
        (path : Str) (w : W) (v : V)
        → state w ≡ v
        → Agrees (del J curl client path w) (direct.del path v)
    unfolding del
    del-Agrees path w v same =
        let (outcome, same') = request-Agree (txt "DELETE") path none w v same in
        rw outcome (dropped-Agrees (ask (txt "DELETE") path none v).0 _ _ same')

    pub rest-Simulates : Simulates (rest_transport J curl client) direct IsAt
    rest-Simulates = record {
      getting = get-Agrees;
      posting = post-Agrees;
      deleting = del-Agrees;
      elapsing = λ n w v same. net.elapsing n w ∙ ap (service.elapse n) same;
    }

    -- Over HTTP a program has the outcome that it has when the client speaks to the server
    -- directly: a GET or POST gives the body of a response with a status of success and is empty if
    -- the transfer fails or the status is another, and a DELETE throws then. This holds after the
    -- same requests and sleeps, whichever methods the program calls and however it goes on from
    -- what they return or throw, and the server comes to the same state. There is a handle, and
    -- memory for the response.
    pub run-served :
        (is_hpc : Bool) {A : Type 0} (p : Program A) (e : Env Json W) (f : Env Json V)
        → state e.world ≡ f.world
        → e.trace ≡ f.trace
        → ((run J (rest_transport J curl client) is_hpc p e).0 ≡ (run J direct is_hpc p f).0)
          × ((run J (rest_transport J curl client) is_hpc p e).1.trace
              ≡ (run J direct is_hpc p f).1.trace)
          × (state (run J (rest_transport J curl client) is_hpc p e).1.world
              ≡ (run J direct is_hpc p f).1.world)
    run-served is_hpc = run-Alike J (rest_transport J curl client) direct IsAt rest-Simulates is_hpc
