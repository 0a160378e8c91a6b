-- ===== src/Rest/Request/Waiting.antt =====
-- Waiting for a job's result over the REST transport.
use mqss_client.Common.{ℕ, ◌<◌, ◌≡◌, refl, ap, Bool, Option, ◌++◌, arith, Bool-cases, inl, inr}
use mqss_client.Common.Bytes.{Str, txt, is_empty}
use mqss_client.Common.Words.{pos}
use mqss_client.Common.Effects.{Exn, Result, ok, throw, Result-cases, is_ok}
use mqss_client.Json.{JsonLib}
use mqss_client.Json as Json
use mqss_client.Transport.{BaseClient, Env}
use mqss_client.Job.{JobRequest, JobResult, job_result_of_json}
use mqss_client.Client.{get_job_status, fetch_result, wait_for_job_result, job_path}
use mqss_client.Client.Wait.Rounds.{
  Polls, Ends, timed_out, completed, failed, broken, wait_for_job_result-Explained,
}
use mqss_client.Rest.Request.{Curl, RestClient, rest_transport}
use mqss_client.Rest.Request.Answers.{IsDocumented}
use mqss_client.Rest.Request.Serving.{get-Served}
use mqss_client.Rest.Request.Calls.{get_job_status-total}

module _ (J : JsonLib) (doc : mqss_client.Json.IsDocumented J) {W : Type 0} (curl : Curl W)
    (served : IsDocumented curl) (client : RestClient) (is_hpc : Bool) (job : JobRequest) where
  abbrev base : BaseClient J.Json W
  base = rest_transport J curl client

  -- What the server answers in `e` to the GET of the job's result is a JSON text that is no result of
  -- a job, for which reading it throws `x`.
  pub record IsNoResult (e : Env J.Json W) (x : Exn) : Type 0 where
    pub response : Str
    pub value : J.Json
    pub answered : (base.get (job_path job ++ txt "/result") e.world).0 ≡ ok response
    pub parsed : J.parse response ≡ ok value
    pub thrown : job_result_of_json J value ≡ throw x

  fetch_result-throws :
      (e : Env J.Json W) (x : Exn) → (fetch_result J base is_hpc job e).0 ≡ throw x → IsNoResult e x
  unfolding fetch_result
  fetch_result-throws e x h =
      let (resp, answered, _) =
        get-Served J curl served client (job_path job ++ txt "/result") e.world in
      elim (Bool-cases (is_empty resp)) [
        | inl nothing ↦ cc (rw (fetch_result, answered, nothing) at h)
        | inr something ↦ elim (Bool-cases (J.accept resp)) [
          | inr refused ↦ cc (rw (fetch_result, answered, something, refused) at h)
          | inl accepted ↦ elim (Result-cases (J.parse resp)) [
            | inr (y, bad) ↦
                absurd (ground (arith, doc.parse_accepted resp, ap is_ok bad, accepted))
            | inl (value, parsed) ↦ elim (Result-cases (job_result_of_json J value)) [
              | inl (r, read) ↦
                  cc (rw (fetch_result, answered, something, accepted, parsed, read) at h)
              | inr (y, bad) ↦ record {
                response = resp;
                value = value;
                answered = answered;
                parsed = parsed;
                thrown =
                    cc (bad, (rw (fetch_result, answered, something, accepted, parsed, bad) at h));
              }
            ]
          ]
        ]
      ]

  -- Waiting from `e` for `t` seconds made pending polls up to `before`, with time left; then the job
  -- was reported as completed, and the result that was fetched right after it is none.
  pub record IsSpoilt (p t : ℕ) (e : Env J.Json W) (x : Exn) : Type 0 where
    pub left : ℕ
    pub before : Env J.Json W
    pub after : Env J.Json W
    pub polls : Polls J base is_hpc job p t e left before
    pub in_time : 0 < left
    pub reported : get_job_status J base is_hpc job before ≡ (ok (txt "COMPLETED"), after)
    pub fetched :
        wait_for_job_result J base is_hpc job (pos t) p e ≡ fetch_result J base is_hpc job after
    pub no_result : IsNoResult after x

  -- An end of waiting that throws.
  record IsThrown (left : ℕ) (e : Env J.Json W) (out : Result (Option JobResult) × Env J.Json W)
      (x : Exn) : Type 0 where
    after : Env J.Json W
    in_time : 0 < left
    reported : get_job_status J base is_hpc job e ≡ (ok (txt "COMPLETED"), after)
    fetched : out ≡ fetch_result J base is_hpc job after
    no_result : IsNoResult after x

  Ends-throws :
      (p t : ℕ) (e : Env J.Json W) (out : Result (Option JobResult) × Env J.Json W) (x : Exn)
      → Ends J base is_hpc job p t e out
      → out.0 ≡ throw x
      → IsThrown t e out x
  Ends-throws p t e out x (timed_out over) h = cc h
  Ends-throws p t e out x (completed e₁ ht reported) h = record {
    after = e₁;
    in_time = ht;
    reported = reported;
    fetched = refl;
    no_result = fetch_result-throws e₁ x h;
  }
  Ends-throws p t e out x (failed status e₁ ht reported gave_up) h = cc h
  Ends-throws p t e out x (broken y e₁ ht reported) h =
      let (resp, answered, (s, status, _)) =
        get_job_status-total J doc curl served client is_hpc job e in
      cc (ap (λ o. o.0) reported, status)

  -- Over REST, with polling every p seconds, p at least 1, and if libcurl and the JSON library
  -- behave as documented, waiting throws only if, after pending polls and with time left, it polled
  -- that the job is completed, the text that the server then answered for its result is JSON but no
  -- result, and the exception is what reading it throws: no failure of the network or the server is
  -- thrown.
  pub wait_for_job_result-IsSpoilt :
      (p t : ℕ) (e : Env J.Json W) (x : Exn)
      → 0 < p
      → (wait_for_job_result J base is_hpc job (pos t) p e).0 ≡ throw x
      → IsSpoilt p t e x
  wait_for_job_result-IsSpoilt p t e x hp h =
      let out = wait_for_job_result J base is_hpc job (pos t) p e in
      let explained = (wait_for_job_result-Explained J base is_hpc job p t e out hp).0 refl in
      let end = Ends-throws p explained.left explained.last out x explained.ends h in
      record {
        left = explained.left;
        before = explained.last;
        after = end.after;
        polls = explained.polls;
        in_time = end.in_time;
        reported = end.reported;
        fetched = end.fetched;
        no_result = end.no_result;
      }
