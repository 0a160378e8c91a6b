-- ===== src/Rest/Request/Calls.antt =====
-- The client's operations over the REST transport.
use mqss_client.Common.{ap, Bool, ◌≡◌, ◌++◌}
use mqss_client.Common.Bytes.{Str, txt}
use mqss_client.Common.Effects.{ok}
use mqss_client.Json.{JsonLib}
use mqss_client.Json as Json
use mqss_client.Transport.{Env}
use mqss_client.Job.{JobRequest}
use mqss_client.Client.{get_job_status, job_path}
use mqss_client.Client.Status.{IsStatus, get_job_status-IsStatus}
use mqss_client.Rest.Request.{Curl, RestClient, get, rest_transport}
use mqss_client.Rest.Request.Answers.{IsDocumented}
use mqss_client.Rest.Request.Serving.{get-Served}

module _ (J : JsonLib) (doc : mqss_client.Json.IsDocumented J) {W : Type 0} (curl : Curl W)
    (served : IsDocumented curl) where
  -- Over REST, reading a job's status never throws, whatever the network and the server do, if
  -- libcurl and the JSON library behave as documented: the result is the status that the response
  -- of the GET reports, or empty if it reports none.
  pub get_job_status-total :
      (client : RestClient) (is_hpc : Bool) (job : JobRequest) (e : Env J.Json W)
      → (resp : Str) × ((get J curl client (job_path job ++ txt "/status") e.world).0 ≡ ok resp)
        × ((s : Str) × ((get_job_status J (rest_transport J curl client) is_hpc job e).0 ≡ ok s)
            × IsStatus J resp s)
  get_job_status-total client is_hpc job e =
      let (resp, answered, _) =
        get-Served J curl served client (job_path job ++ txt "/status") e.world in
      (
        resp,
        answered,
        get_job_status-IsStatus J doc (rest_transport J curl client) is_hpc job e resp _
            (ap (λ r. (r, (get J curl client (job_path job ++ txt "/status") e.world).1)) answered),
      )
