-- ===== src/Rest/Request.antt =====
-- `MQSSRestClient`: its construction and its requests, over libcurl.
pub mod Answers
pub mod Serving
pub mod Construction
pub mod Calls
pub mod Waiting
use mqss_client.Common.{
  ℕ, ◌*◌, Bool, ◌&&◌, Option, none, some, List, [], ◌++◌, take, ltb, leb, ◌==◌, if◌then◌else◌,
}
use mqss_client.Common.Bytes.{Str, txt}
use mqss_client.Common.Effects.{Result, ok, throw, runtime_error, bad_alloc}
use mqss_client.Common.Stateful.{State, pure, lift, call, catch_runtime_error, ◌>>=◌, ◌>>◌}
use mqss_client.Standard.ToString.{numeral}
use mqss_client.Json.{JsonLib}
use mqss_client.Transport.{BaseClient}
use mqss_client.Rest.Url.{UrlParser, normalize_url}

-- The options that a request sets on its handle.
pub record HttpRequest : Type 0 where
  pub url : Str
  pub headers : List Str
  pub connect_timeout_ms : ℕ
  pub timeout_ms : ℕ
  pub ca_info : Option Str
  pub custom_request : Str
  pub post_fields : Option Str

-- A write callback: the bytes it takes of a piece of `size * nmemb` bytes, and the output that it
-- leaves.
abbrev pub WriteFunction : Type 0
WriteFunction = Str → (size nmemb : ℕ) → Str → ℕ × Str

-- libcurl, over a world `W`: the network, the server and the memory.
pub record Curl (W : Type 0) : Type 0 where
  pub parser : UrlParser
  -- `curl_easy_init`, whether it gives a handle
  pub easy_init : W → Bool × W
  -- `curl_slist_append`, `none` for the null pointer
  pub slist_append : List Str → Str → W → Option (List Str) × W
  -- `curl_easy_perform`, with the callback and the output it starts from: a code, and the output
  pub perform : HttpRequest → WriteFunction → Str → W → (ℕ × Str) × W
  -- `curl_easy_getinfo` of the response code
  pub response_code : W → ℕ
  pub strerror : ℕ → Str
  -- `std::getenv("CURL_CA_BUNDLE")`
  pub ca_bundle : Option Str
  -- Whether `std::string::append` finds the memory for so many more bytes
  pub has_room : Str → ℕ → Bool
  -- What becomes of the world while the client sleeps for some seconds
  pub elapse : ℕ → W → W

pub record RestClient : Type 0 where
  pub url : Str
  pub headers : List Str

module _ {W : Type 0} (curl : Curl W) where
  unfoldable pub write_response : WriteFunction
  write_response piece size nmemb output =
      if curl.has_room output (size * nmemb)
      then (size * nmemb, output ++ take (size * nmemb) piece)
      else (0, output)

  abbrev pub http_request : RestClient → Str → Str → Option Str → HttpRequest
  http_request client method path payload = record {
    url = client.url ++ path;
    headers = client.headers;
    connect_timeout_ms = 3000;
    timeout_ms = 5000;
    ca_info = curl.ca_bundle;
    custom_request = method;
    post_fields = payload;
  }

  abbrev pub error_prefix : Str → Str
  error_prefix method = txt "REST " ++ (method ++ txt " failed: ")

  -- What `request` makes of the code, the response and the status.
  unfoldable pub checked : Str → ℕ × Str → ℕ → Result Str
  checked method (result, response) status =
      if result == 0
      then (if leb 200 status && ltb status 300
          then ok response
          else throw (runtime_error (error_prefix method ++ (txt "HTTP " ++ numeral status))))
      else throw (runtime_error (error_prefix method ++ curl.strerror result))

module _ (J : JsonLib) {W : Type 0} (curl : Curl W) where
  open J use {Json, dump}

  -- `data ? data->dump() : std::string{}`, with whether there is data
  unfoldable pub payload_of : Option Json → Result (Option Str)
  payload_of none = ok none
  payload_of (some body) = elim (dump body) [ ok text ↦ ok (some text) | throw x ↦ throw x ]

  unfoldable pub request : RestClient → Str → Str → Option Json → State W Str
  unfolding payload_of checked
  request client method path body = do
    handle ← call curl.easy_init
    if handle
        then (do
          payload ← lift (payload_of body)
          outcome ←
              call (
                curl.perform (http_request curl client method path payload) (write_response curl)
                  [])
          λ w. (checked curl method outcome (curl.response_code w), w))
        else lift (throw (runtime_error (txt "Failed to initialize REST connection")))

  unfoldable pub append_header : List Str → Str → State W (List Str)
  append_header headers header = do
    appended ← call (curl.slist_append headers header)
    elim appended [ none ↦ lift (throw bad_alloc) | some longer ↦ pure longer ]

  -- `MQSSRestClient::MQSSRestClient`
  unfoldable pub rest_client : Str → Str → State W RestClient
  rest_client token url = do
    base ← lift (normalize_url curl.parser url)
    headers ← append_header [] (txt "Authorization: Bearer " ++ token)
    headers' ← append_header headers (txt "Content-Type: application/json")
    let client : RestClient = record { url = base; headers = headers' }
    request client (txt "GET") (txt "resources") none >> pure client

  unfoldable pub get : RestClient → Str → State W Str
  get client path = catch_runtime_error (request client (txt "GET") path none) []

  unfoldable pub post : RestClient → Str → Json → State W Str
  post client path data_ = catch_runtime_error (request client (txt "POST") path (some data_)) []

  unfoldable pub del : RestClient → Str → State W (Unit {0})
  del client path = request client (txt "DELETE") path none >> pure tt

  abbrev pub rest_transport : RestClient → BaseClient Json W
  rest_transport client = record {
    get = get client;
    post = post client;
    del = del client;
    elapse = curl.elapse;
  }
