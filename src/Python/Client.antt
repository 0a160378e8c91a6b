-- ===== src/Python/Client.antt =====
-- bindings/client.cpp: the client as a Python class, with the defaults of its arguments, which
-- include/mqss/client.h has too.
use mqss_client.Common.{ℕ, ◌≡◌, refl, ap, Bool, true, false, Option, none, some, [], arith}
use mqss_client.Common.Bytes.{Str, txt}
use mqss_client.Common.Effects.{Result, ok}
use mqss_client.Json.{JsonLib}
use mqss_client.Transport.{BaseClient, M}
use mqss_client.Job.{JobRequest, JobResult}
use mqss_client.Client.{get_job_result}
use mqss_client.Rest.Url.{normalize_url, port}
use mqss_client.Rest.Url.Portal.{lrz, given, version_slash, normalize_url-spelling}
use mqss_client.Rest.Request.{Curl, RestClient, rest_client}
use mqss_client.Rest.Request.Answers.{IsDocumented}
use mqss_client.Rest.Request.Construction.{IsReady, rest_client-IsReady}
use mqss_client.RabbitMq.{Amqp}
use mqss_client.Client.Connect.{MqssClient, over_http, new_client, http_client-made, or_null}

-- `MQP_DEFAULT_URL`
abbrev pub mqp_default_url : Str
mqp_default_url = txt "https://portal.quantum.lrz.de:4000/v1/"

-- An argument that may be left out.
abbrev pub given_or {ℓ} : {A : Type ℓ} → A → Option A → A
given_or default none = default
given_or default (some a) = a

module _ (J : JsonLib) {W : Type 0} (amqp : Amqp W) (curl : Curl W) (host : Option Str)
    (uuid : Str) where
  -- `MQSSClient(token, url_or_queue, is_hpc)`
  unfoldable pub python_client :
      (token url_or_queue : Option Str) → (is_hpc : Option Bool) → W → Result (MqssClient W)
  python_client token url_or_queue is_hpc =
      new_client J amqp curl host uuid (given_or [] token) (given_or mqp_default_url url_or_queue)
        (given_or false is_hpc)

  module _ (doc : IsDocumented curl) where
    -- A Python client that is constructed with a token alone, if libcurl behaves as documented and
    -- takes the default URL as an HTTPS URL, is one over HTTP with the default URL as its base URL,
    -- and has served a GET of the resources with the token.
    pub python_client-default :
        (token : Str) (w : W) (c : MqssClient W)
        → curl.parser.curl_url ≡ true
        → curl.parser.curl_url_set mqp_default_url ≡ true
        → curl.parser.curl_url_get mqp_default_url ≡ some (txt "https")
        → python_client (some token) none none w ≡ ok c
        → (r : RestClient) × (w' : W) × (c ≡ record { is_hpc = false; client = over_http r w' })
          × (r.url ≡ mqp_default_url)
          × IsReady J curl doc token mqp_default_url w r w'
    unfolding python_client new_client
    python_client-default token w c handle taken scheme e =
        let (r, made, same) =
          http_client-made J amqp curl host uuid (rest_client J curl token mqp_default_url w) c
            (ap (or_null J amqp curl host uuid) e) in
        let ready = rest_client-IsReady J curl doc token mqp_default_url w r made in
        let normalised : normalize_url curl.parser mqp_default_url ≡ ok mqp_default_url =
          normalize_url-spelling b'p' (txt "ortal") (txt ".quantum.lrz.de") (txt ".quantum.lrz.de")
            (ground arith) refl lrz curl.parser port (txt "/v1/") given version_slash handle taken
            scheme in
        (
          r,
          (rest_client J curl token mqp_default_url w).1,
          same,
          cc (ready.base, normalised),
          ready,
        )

module _ (J : JsonLib) {W : Type 0} (base : BaseClient J.Json W) (is_hpc : Bool) where
  open J use {Json}

  -- `job_results(job, wait, timeout)`
  unfoldable pub python_job_results :
      JobRequest → (wait : Option Bool) → (timeout : Option ℕ) → M Json W (Option JobResult)
  python_job_results job wait timeout =
      get_job_result J base is_hpc job (given_or false wait) (given_or 100 timeout)
