-- ===== src/Client.antt =====
-- src/client.cpp, `MQSSClient`, over any transport.
pub mod Requests
pub mod Resources
pub mod Pending
pub mod Submit
pub mod Status
pub mod Wait
pub mod Service
pub mod Connect
pub mod Programs
pub mod ResourceInfo
use mqss_client.Common.{
  ℕ, zero, suc, ◌-◌, min, Bool, ◌||◌, Option, none, some, List, [], ◌∷◌, ◌++◌, ◌==◌, is_some,
  if◌then◌else◌,
}
use mqss_client.Common.Bytes.{Str, txt, str_eq, is_empty, find}
use mqss_client.Common.Words.{ℤ, pos, negsuc, to_int}
use mqss_client.Common.Effects.{Result, ok, throw}
use mqss_client.Json.{JsonLib}
use mqss_client.Transport.{BaseClient, M, pure, lift, ◌>>=◌, ◌>>◌, get, post, del, sleep}
use mqss_client.Resource.{Resource, resource_of_json}
use mqss_client.Job.{JobRequest, get_path, set_uuid, to_json, JobResult, job_result_of_json}

-- The path of a submitted job, `job.getPath() + "/" + job.getUuid()`.
abbrev pub job_path : JobRequest → Str
job_path job = get_path job ++ (txt "/" ++ job.uuid)

module _ (J : JsonLib) where
  -- `for (auto& item : parsed) Resources.push_back(Resource(item));`
  pub read_resources : List J.Json → Result (List Resource)
  read_resources [] = ok []
  read_resources (j ∷ js) = elim (resource_of_json J j) [
    | throw x ↦ throw x
    | ok r ↦ elim (read_resources js) [ throw x ↦ throw x | ok rs ↦ ok (r ∷ rs) ]
  ]

-- The statuses at which waiting is given up.
abbrev pub has_failed : Str → Bool
has_failed status =
    str_eq status (txt "FAILED") || str_eq status (txt "CANCELLED") || is_empty status

module _ (J : JsonLib) {W : Type 0} (base : BaseClient J.Json W) (is_hpc : Bool) where
  open J use {Json, accept, parse, contains, item, is_string, get_string, value_int, elements}

  unfoldable pub get_all_resources : M Json W (List Resource)
  unfolding read_resources
  get_all_resources = do
    resp ← get base (txt "resources")
    if accept resp
        then (do parsed ← lift (parse resp); lift (read_resources J (elements parsed)))
        else pure []

  unfoldable pub get_resource_info : Str → M Json W (Option Resource)
  get_resource_info resource = do
    resp ← get base (txt "resources/" ++ resource)
    if is_some (find resp (txt "RESOURCE NOT FOUND"))
        then pure none
        else if accept resp
        then (do
          parsed ← lift (parse resp)
          if contains parsed (txt "ERROR")
              then pure none
              else (do r ← lift (resource_of_json J parsed); pure (some r)))
        else pure none

  -- The job comes back with the answer, since `setUuid` changes it.
  unfoldable pub submit_job : JobRequest → M Json W (Option Str × JobRequest)
  submit_job job = do
    result ← post base (get_path job) (to_json J is_hpc job)
    if is_empty result
        then pure (none, job)
        else if accept result
        then (do
          parsed ← lift (parse result)
          if contains parsed (txt "uuid")
              then (do
                value ← lift (item parsed (txt "uuid"))
                uuid ← lift (get_string value)
                pure (some uuid, set_uuid uuid job))
              else pure (none, job))
        else pure (none, job)

  unfoldable pub cancel_job : JobRequest → M Json W (Unit {0})
  cancel_job job = del base (job_path job)

  unfoldable pub get_job_status : JobRequest → M Json W Str
  get_job_status job = do
    resp ← get base (job_path job ++ txt "/status")
    if is_empty resp
        then pure []
        else if accept resp
        then (do
          parsed ← lift (parse resp)
          if contains parsed (txt "status")
              then (do
                status ← lift (item parsed (txt "status"))
                if is_string status then lift (get_string status) else pure [])
              else pure [])
        else pure []

  -- `getJobResult` with `wait` false; `none` is the null pointer.
  unfoldable pub fetch_result : JobRequest → M Json W (Option JobResult)
  fetch_result job = do
    resp ← get base (job_path job ++ txt "/result")
    if is_empty resp
        then pure none
        else if accept resp
        then (do
          parsed ← lift (parse resp)
          result ← lift (job_result_of_json J parsed)
          pure (some result))
        else pure none

  -- The loop of `waitForJobResult`, with fuel.
  pub wait_loop : ℕ → JobRequest → (timeout poll_seconds : ℕ) → M Json W (Option JobResult)
  wait_loop zero job timeout poll_seconds = pure none
  wait_loop (suc f) job timeout poll_seconds =
      let sleep_seconds = min timeout poll_seconds in
      let rest =
        sleep base sleep_seconds >> wait_loop f job (timeout - sleep_seconds) poll_seconds in
      if timeout == 0 then pure none else (do
        status ← get_job_status job
        if str_eq status (txt "COMPLETED")
            then fetch_result job
            else if has_failed status
            then pure none
            else rest)

  -- `waitForJobResult`: a timeout below zero ends the loop before its first round.
  unfoldable pub wait_for_job_result : JobRequest → ℤ → ℕ → M Json W (Option JobResult)
  unfolding wait_loop
  wait_for_job_result job (pos timeout) poll_seconds = wait_loop timeout job timeout poll_seconds
  wait_for_job_result job (negsuc _) poll_seconds = pure none

  -- The `size_t` timeout is passed on as an `int`, and polling is every two seconds.
  unfoldable pub get_job_result : JobRequest → Bool → ℕ → M Json W (Option JobResult)
  get_job_result job wait timeout =
      if wait then wait_for_job_result job (to_int timeout) 2 else fetch_result job

  unfoldable pub get_number_pending_jobs : Str → M Json W ℤ
  get_number_pending_jobs resource = do
    resp ← get base (txt "resources/" ++ (resource ++ txt "/num_pending_jobs"))
    if is_empty resp
        then pure (negsuc 0)
        else if accept resp
        then (do
          parsed ← lift (parse resp)
          lift (value_int parsed (txt "num_pending_jobs") (negsuc 0)))
        else pure (negsuc 0)
