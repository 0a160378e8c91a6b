-- ===== src/Client/Requests.antt =====
-- What each operation of the client asks of the server.
use mqss_client.Common.{◌≡◌, Bool, ◌∷◌, ◌++◌, arith}
use mqss_client.Common.Bytes.{Str, txt}
use mqss_client.Json.{JsonLib}
use mqss_client.Transport.{BaseClient, Env, got, posted, deleted}
use mqss_client.Job.{JobRequest, get_path, to_json}
use mqss_client.Client.{
  get_all_resources, get_resource_info, submit_job, cancel_job, get_job_status, fetch_result,
  get_number_pending_jobs, job_path,
}

module _ (J : JsonLib) {W : Type 0} (base : BaseClient J.Json W) (is_hpc : Bool) where
  -- Each operation that does not wait makes one request, whatever is answered or thrown: a GET of
  -- the resources, of one resource, of a job's status, result or of the number of pending jobs, a
  -- POST of the job's JSON to the path of its kind, or a DELETE of the job.
  pub one_request :
      (job : JobRequest) (name : Str) (e : Env J.Json W)
      → ((get_all_resources J base is_hpc e).1.trace ≡ got (txt "resources") ∷ e.trace)
        × ((get_resource_info J base is_hpc name e).1.trace
            ≡ got (txt "resources/" ++ name) ∷ e.trace)
        × ((submit_job J base is_hpc job e).1.trace
            ≡ posted (get_path job) (to_json J is_hpc job) ∷ e.trace)
        × ((cancel_job J base is_hpc job e).1.trace ≡ deleted (job_path job) ∷ e.trace)
        × ((get_job_status J base is_hpc job e).1.trace
            ≡ got (job_path job ++ txt "/status") ∷ e.trace)
        × ((fetch_result J base is_hpc job e).1.trace
            ≡ got (job_path job ++ txt "/result") ∷ e.trace)
        × ((get_number_pending_jobs J base is_hpc name e).1.trace
            ≡ got (txt "resources/" ++ (name ++ txt "/num_pending_jobs")) ∷ e.trace)
  unfolding get_all_resources get_resource_info submit_job cancel_job get_job_status fetch_result
      get_number_pending_jobs
  one_request job name e = (
    ground arith,
    ground arith,
    ground arith,
    ground arith,
    ground arith,
    ground arith,
    ground arith,
  )
