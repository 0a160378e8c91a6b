-- ===== src/Tests/ClientTests.antt =====
-- The client over the scripted server.
use mqss_client.Common.{
  ◌+◌, ◌-◌, ◌^◌, ◌≤◌, ◌<◌, min, ◌≡◌, refl, ◌↔◌, true, false, none, some, List, [], ◌∷◌, ◌++◌, arith,
}
use mqss_client.Common.Bytes.{Str, txt, str_eq, is_empty, find, starts_with}
use mqss_client.Common.Words.{pos, to_int}
use mqss_client.Common.Effects.{ok}
use mqss_client.Standard.Map.{insert}
use mqss_client.Standard.Regex.{find_all}
use mqss_client.Standard.Stoi.{stoi}
use mqss_client.Transport.{Env, got, posted, deleted, slept, total_slept}
use mqss_client.Resource.{Resource, resource_of_json}
use mqss_client.Job.{JobResult, get_path, to_json, job_result_of_json}
use mqss_client.Job.Results.{IsResult, job_result_of_json-IsResult}
use mqss_client.Client.{
  job_path, get_all_resources, get_resource_info, submit_job, cancel_job, get_job_status,
  fetch_result, wait_for_job_result, get_job_result, get_number_pending_jobs,
}
use mqss_client.Client.Requests.{one_request}
use mqss_client.Client.Resources.{
  AreRead, get_all_resources-AreRead, IsUnknown, get_resource_info-IsUnknown,
}
use mqss_client.Client.Status.{IsStatus, get_job_status-IsStatus}
use mqss_client.Client.Submit.{IsSubmitted, submit_job-IsSubmitted}
use mqss_client.Job.Encoding.{read_job, read_job-to_json}
use mqss_client.Tests.SampleJson.{sample-MakesValues}
use mqss_client.Client.Pending.{IsCounted, get_number_pending_jobs-IsCounted}
use mqss_client.Tests.SampleServer.{three_pending, counts}
use mqss_client.Common.Effects.{throw, json_error}
use mqss_client.Common.Words.{negsuc}
use mqss_client.Client.Wait.Bounds.{round, wait_for_job_result-round, wait_for_job_result-slept}
use mqss_client.Client.Wait.Rounds.{Explained, wait_for_job_result-Explained}
use mqss_client.Client.Wait.Timeout.{get_job_result-timeout}
use mqss_client.Tests.SampleJson.{Value, sample-IsDocumented}
use mqss_client.Tests.SampleServer.{
  texts, Script, scripted, at_start, running, completed, submitted, counts, result, result_value,
  fake, library, bell, ising,
}

client : Unit {0}
unfolding get_all_resources get_resource_info submit_job cancel_job get_job_status fetch_result
    wait_for_job_result get_job_result get_number_pending_jobs str_eq is_empty find starts_with
    to_int get_path to_json job_result_of_json insert resource_of_json find_all stoi
client = tt

-- Running, then done: two polls, one sleep, and the result.
abbrev run : Env Value Script
run = at_start (running ∷ completed ∷ result ∷ [])

abbrev pub bell_result : JobResult
bell_result = record {
  results = ((txt "10", 100) ∷ []) ∷ ((txt "01", 7) ∷ (txt "10", 200) ∷ []) ∷ [];
  timestamp_completed = txt "2026-05-26 11:26:07.615381";
  timestamp_submitted = txt "2026-05-25 08:52:14.503964";
  timestamp_scheduled = txt "2026-05-26 08:07:40.026325";
}

abbrev after_run : Env Value Script
after_run = record {
  world = [];
  trace =
      got (txt "job/12345/result")
      ∷ got (txt "job/12345/status")
      ∷ slept 2
      ∷ got (txt "job/12345/status")
      ∷ [];
}

wait_test :
    wait_for_job_result library scripted false bell (pos 5) 2 run
    ≡ (ok (some bell_result), after_run)
unfolding client
wait_test = refl

-- With two seconds the second poll is not made.
short_test : (wait_for_job_result library scripted false bell (pos 2) 2 run).0 ≡ ok none
unfolding client
short_test = refl

wait_for_job_result-Explained_example :
    (wait_for_job_result library scripted false bell (pos 5) 2 run
      ≡ (ok (some bell_result), after_run))
    ↔ Explained library scripted false bell 2 5 run (ok (some bell_result), after_run)
wait_for_job_result-Explained_example =
    wait_for_job_result-Explained library scripted false bell 2 5 run
      (ok (some bell_result), after_run) (omega arith)

wait_for_job_result-slept_example :
    total_slept (wait_for_job_result library scripted false bell (pos 5) 2 run).1.trace
    ≤ total_slept run.trace + 5
wait_for_job_result-slept_example = wait_for_job_result-slept library scripted false bell 5 2 run

wait_for_job_result-round_example :
    wait_for_job_result library scripted false bell (pos 5) 2
    ≡ round library scripted false bell
        (min 5 2)
        (wait_for_job_result library scripted false bell (pos (5 - min 5 2)) 2)
wait_for_job_result-round_example =
    wait_for_job_result-round library scripted false bell 5 2 (omega arith) (omega arith)

get_job_result-timeout_example :
    (3_000_000_000 < 2 ^ 31
      → get_job_result library scripted false bell true 3_000_000_000
        ≡ wait_for_job_result library scripted false bell (pos 3_000_000_000) 2)
    × (2 ^ 31 ≤ 3_000_000_000
        → 3_000_000_000 < 2 ^ 32
        → (e : Env Value Script)
        → get_job_result library scripted false bell true 3_000_000_000 e ≡ (ok none, e))
get_job_result-timeout_example = get_job_result-timeout library scripted false bell 3_000_000_000

get_job_status-IsStatus_example :
    (s : Str) × ((get_job_status library scripted false bell run).0 ≡ ok s)
    × IsStatus library running s
get_job_status-IsStatus_example =
    get_job_status-IsStatus library (sample-IsDocumented texts) scripted false bell run running
      (completed ∷ result ∷ []) refl

submit_test : submit_job library scripted false ising (at_start (submitted ∷ [])) ≡ (
  ok (some (txt "12345"), record ising { uuid = txt "12345" }),
  record { world = []; trace = posted (txt "hamiltonian_job") (to_json library false ising) ∷ [] },
)
unfolding client
submit_test = refl

submit_job-IsSubmitted_example :
    IsSubmitted library ising submitted
      (submit_job library scripted false ising (at_start (submitted ∷ []))).0
submit_job-IsSubmitted_example =
    submit_job-IsSubmitted library (sample-IsDocumented texts) scripted false ising
      (at_start (submitted ∷ [])) submitted [] refl

-- A number, an object without one, and a list.
pending_tests :
    ((get_number_pending_jobs library scripted false (txt "Fake") (at_start (three_pending ∷ []))).0
      ≡ ok (pos 3))
    × ((get_number_pending_jobs library scripted false (txt "Fake") (at_start (submitted ∷ []))).0
        ≡ ok (negsuc 0))
    × ((get_number_pending_jobs library scripted false (txt "Fake") (at_start (counts ∷ []))).0
        ≡ throw json_error)
unfolding client
pending_tests = (refl, refl, refl)

get_number_pending_jobs-IsCounted_example :
    IsCounted library three_pending
      (get_number_pending_jobs library scripted false
        (txt "Fake")
        (at_start (three_pending ∷ []))).0
get_number_pending_jobs-IsCounted_example =
    get_number_pending_jobs-IsCounted library (sample-IsDocumented texts) scripted false
      (txt "Fake") (at_start (three_pending ∷ [])) three_pending [] refl

one_request_example :
    ((get_all_resources library scripted false run).1.trace ≡ got (txt "resources") ∷ [])
    × ((get_resource_info library scripted false (txt "Fake") run).1.trace
        ≡ got (txt "resources/" ++ txt "Fake") ∷ [])
    × ((submit_job library scripted false bell run).1.trace
        ≡ posted (get_path bell) (to_json library false bell) ∷ [])
    × ((cancel_job library scripted false bell run).1.trace ≡ deleted (job_path bell) ∷ [])
    × ((get_job_status library scripted false bell run).1.trace
        ≡ got (job_path bell ++ txt "/status") ∷ [])
    × ((fetch_result library scripted false bell run).1.trace
        ≡ got (job_path bell ++ txt "/result") ∷ [])
    × ((get_number_pending_jobs library scripted false (txt "Fake") run).1.trace
        ≡ got (txt "resources/" ++ (txt "Fake" ++ txt "/num_pending_jobs")) ∷ [])
one_request_example = one_request library scripted false bell (txt "Fake") run

abbrev listing : Env Value Script
listing = at_start (txt "[fake]" ∷ [])

get_all_resources-AreRead_example :
    ((j : Value) (rs : List Resource)
      → library.accept (txt "[fake]") ≡ true
      → library.parse (txt "[fake]") ≡ ok j
      → ((get_all_resources library scripted false listing).0 ≡ ok rs)
        ↔ AreRead library (library.elements j) rs)
    × (library.accept (txt "[fake]") ≡ false
        → (get_all_resources library scripted false listing).0 ≡ ok [])
get_all_resources-AreRead_example =
    get_all_resources-AreRead library scripted false listing (txt "[fake]") [] refl

get_resource_info-IsUnknown_test :
    ((get_resource_info library scripted false (txt "Fake") (at_start (fake ∷ []))).0 ≡ ok none)
    ↔ IsUnknown library fake
get_resource_info-IsUnknown_test =
    get_resource_info-IsUnknown library scripted false (txt "Fake") (at_start (fake ∷ [])) fake []
      refl

result_test : job_result_of_json library result_value ≡ ok bell_result
unfolding client
result_test = refl

job_result_of_json-IsResult_example : IsResult library result_value bell_result
unfolding client
job_result_of_json-IsResult_example =
    job_result_of_json-IsResult library result_value counts bell_result refl refl result_test

read_job-to_json_example :
    read_job library (get_path bell) (to_json library true bell) ≡ ok bell.kind
read_job-to_json_example =
    read_job-to_json library (sample-IsDocumented texts) (sample-MakesValues texts) true bell
      (omega arith)
