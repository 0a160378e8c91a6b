-- ===== src/Tests/RequestTests.antt =====
-- The REST transport over a scripted libcurl.
use mqss_client.Common.{none, ap, some, ◌⊎◌, ◌++◌, false, ◌≡◌, refl, [], ◌∷◌}
use mqss_client.Common.Bytes.{
  Str, txt, is_empty, str_eq, starts_with, find, any, ends_strictly_with,
}
use mqss_client.Common.Effects.{Exn, ok, throw, runtime_error}
use mqss_client.Standard.ToString.{numeral}
use mqss_client.Rest.Url.{normalize_url}
use mqss_client.Rest.Request.{
  rest_transport, post, RestClient, request, rest_client, get, del, write_response, append_header,
}
use mqss_client.Rest.Request.Serving.{Served, post-Served, del-Served}
use mqss_client.Rest.Request.Construction.{IsReady, rest_client-IsReady}
use mqss_client.Rest.Request.Calls.{get_job_status-total}
use mqss_client.Common.{arith}
use mqss_client.Common.Words.{pos}
use mqss_client.Common.Effects.{json_error}
use mqss_client.Transport.{Env}
use mqss_client.Job.{get_path, job_result_of_json}
use mqss_client.Client.{wait_for_job_result, fetch_result}
use mqss_client.Rest.Request.Waiting.{IsSpoilt, wait_for_job_result-IsSpoilt}
use mqss_client.Tests.SampleServer.{completed}
use mqss_client.Tests.SampleCurl.{curl-IsDocumented, Transfers, curl, perform}
use mqss_client.Job.{to_json}
use mqss_client.Client.{get_job_status, job_path}
use mqss_client.Client.Status.{IsStatus}
use mqss_client.Tests.SampleJson.{Value, sample-IsDocumented}
use mqss_client.Tests.SampleServer.{bell, ising, texts, library, running}

abbrev portal : RestClient
portal = record {
  url = txt "https://portal.quantum.lrz.de:4000/v1/";
  headers = txt "Authorization: Bearer t" ∷ txt "Content-Type: application/json" ∷ [];
}

-- A status in two pieces, a missing page, and a connection that fails.
abbrev served : Transfers
served = (0, (0, 200, txt "{\"status\":" ∷ txt "\"RUNNING\"}" ∷ []) ∷ [])

abbrev missing : Transfers
missing = (0, (0, 404, txt "no" ∷ []) ∷ [])

abbrev failing : Transfers
failing = (0, (7, 0, []) ∷ [])

abbrev ising_json : Value
ising_json = to_json library false ising

request_tests :
    (get library curl portal (txt "x") served ≡ (ok running, (200, [])))
    × (get library curl portal (txt "x") missing ≡ (ok [], (404, [])))
    × (del library curl portal (txt "x") missing
        ≡ (throw (runtime_error (txt "REST DELETE failed: HTTP 404")), (404, [])))
    × (del library curl portal (txt "x") failing
        ≡ (throw (runtime_error (txt "REST DELETE failed: error")), (0, [])))
    × (rest_client library curl (txt "t") (txt "https://Portal.quantum.lrz.de") served
        ≡ (ok portal, (200, [])))
unfolding get del request write_response numeral perform rest_client append_header normalize_url
    is_empty str_eq starts_with find any ends_strictly_with
request_tests = (refl, refl, refl, refl, refl)

post_missing_test :
    ((x : Exn) × (library.dump ising_json ≡ throw x)
      × ((post library curl portal (txt "hamiltonian_job") ising_json missing).0 ≡ throw x))
    ⊎ ((r : Str) × ((post library curl portal (txt "hamiltonian_job") ising_json missing).0 ≡ ok r)
        × ((r ≡ [])
            ⊎ Served library curl curl-IsDocumented portal
                (txt "POST")
                (txt "hamiltonian_job")
                (some ising_json)
                missing
                (post library curl portal (txt "hamiltonian_job") ising_json missing).1
                r))
post_missing_test =
    post-Served library curl curl-IsDocumented portal (txt "hamiltonian_job") ising_json missing

del_missing_test :
    (((del library curl portal (txt "job/12345") missing).0 ≡ ok tt)
      × ((r : Str) × Served library curl curl-IsDocumented portal
            (txt "DELETE")
            (txt "job/12345")
            none
            missing
            (del library curl portal (txt "job/12345") missing).1
            r))
    ⊎ ((message : Str) × ((del library curl portal (txt "job/12345") missing).0
          ≡ throw (runtime_error message)))
del_missing_test = del-Served library curl curl-IsDocumented portal (txt "job/12345") missing

rest_client-IsReady_test :
    IsReady library curl curl-IsDocumented
      (txt "t")
      (txt "https://Portal.quantum.lrz.de")
      served
      portal
      (rest_client library curl (txt "t") (txt "https://Portal.quantum.lrz.de") served).1
rest_client-IsReady_test =
    rest_client-IsReady library curl curl-IsDocumented (txt "t")
      (txt "https://Portal.quantum.lrz.de") served portal (ap (λ r. r.0) request_tests.4)

get_job_status-total_example :
    (resp : Str) × ((get library curl portal (job_path bell ++ txt "/status") served).0 ≡ ok resp)
    × ((s : Str) × ((get_job_status library
            (rest_transport library curl portal)
            false
            bell
            (record { world = served; trace = [] })).0
          ≡ ok s)
        × IsStatus library resp s)
get_job_status-total_example =
    get_job_status-total library (sample-IsDocumented texts) curl curl-IsDocumented portal false
      bell (record { world = served; trace = [] })

-- A job that is done, and an answer that is no result.
abbrev spoilt : Env Value Transfers
spoilt = record { world = (0, (0, 200, completed ∷ []) ∷ (0, 200, running ∷ []) ∷ []); trace = [] }

spoilt_test :
    (wait_for_job_result library (rest_transport library curl portal) false bell (pos 5) 2 spoilt).0
    ≡ throw json_error
unfolding wait_for_job_result get_job_status fetch_result job_result_of_json get request
    write_response perform is_empty str_eq get_path
spoilt_test = refl

wait_for_job_result-IsSpoilt_example :
    IsSpoilt library
      (sample-IsDocumented texts)
      curl
      curl-IsDocumented
      portal
      false
      bell
      2
      5
      spoilt
      json_error
wait_for_job_result-IsSpoilt_example =
    wait_for_job_result-IsSpoilt library (sample-IsDocumented texts) curl curl-IsDocumented portal
      false bell 2 5 spoilt json_error (omega arith) spoilt_test
