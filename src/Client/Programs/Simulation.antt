-- ===== src/Client/Programs/Simulation.antt =====
-- Programs cannot tell two transports apart that answer alike.
use mqss_client.Common.{ℕ, zero, suc, ◌-◌, min, ◌==◌, Bool, ◌≡◌, refl}
use mqss_client.Common.Bytes.{Str, txt, str_eq}
use mqss_client.Common.Words.{ℤ, pos, negsuc, to_int}
use mqss_client.Json.{JsonLib}
use mqss_client.Transport.{BaseClient, Env, M}
use mqss_client.Job.{JobRequest}
use mqss_client.Client.{
  get_all_resources, get_resource_info, submit_job, cancel_job, get_job_status, fetch_result,
  has_failed, wait_loop, wait_for_job_result, get_job_result, get_number_pending_jobs,
}
use mqss_client.Client.Programs.{
  Method, all_resources, resource_info, pending_jobs, submission, cancellation, status, result,
  Program, finish, invoke, perform, run,
}
use mqss_client.Client.Programs.Rules.{
  Simulates, Tracks, track_if, track_bind, track_sleep, tracking,
}

module _ (J : JsonLib) {W V : Type 0} (base : BaseClient J.Json W) (spec : BaseClient J.Json V)
    (R : W → V → Type 0) (sim : Simulates base spec R) (is_hpc : Bool) where
  abbrev pub TracksIt : {A : Type 0} → M J.Json W A → M J.Json V A → Type 0
  TracksIt = Tracks base spec R

  get_all_resources-Tracks :
      TracksIt (get_all_resources J base is_hpc) (get_all_resources J spec is_hpc)
  unfolding get_all_resources
  get_all_resources-Tracks = search (tracking, sim) depth 14

  get_resource_info-Tracks :
      (name : Str)
      → TracksIt (get_resource_info J base is_hpc name) (get_resource_info J spec is_hpc name)
  unfolding get_resource_info
  get_resource_info-Tracks name = search (tracking, sim) depth 14

  pub submit_job-Tracks :
      (job : JobRequest) → TracksIt (submit_job J base is_hpc job) (submit_job J spec is_hpc job)
  unfolding submit_job
  submit_job-Tracks job = search (tracking, sim) depth 14

  cancel_job-Tracks :
      (job : JobRequest) → TracksIt (cancel_job J base is_hpc job) (cancel_job J spec is_hpc job)
  unfolding cancel_job
  cancel_job-Tracks job = search (tracking, sim) depth 14

  get_job_status-Tracks :
      (job : JobRequest)
      → TracksIt (get_job_status J base is_hpc job) (get_job_status J spec is_hpc job)
  unfolding get_job_status
  get_job_status-Tracks job = search (tracking, sim) depth 14

  fetch_result-Tracks :
      (job : JobRequest)
      → TracksIt (fetch_result J base is_hpc job) (fetch_result J spec is_hpc job)
  unfolding fetch_result
  fetch_result-Tracks job = search (tracking, sim) depth 14

  get_number_pending_jobs-Tracks :
      (name : Str)
      → TracksIt
          (get_number_pending_jobs J base is_hpc name)
          (get_number_pending_jobs J spec is_hpc name)
  unfolding get_number_pending_jobs
  get_number_pending_jobs-Tracks name = search (tracking, sim) depth 14

  wait_loop-Tracks :
      (f : ℕ) (job : JobRequest) (timeout poll : ℕ)
      → TracksIt
          (wait_loop J base is_hpc f job timeout poll)
          (wait_loop J spec is_hpc f job timeout poll)
  unfolding wait_loop
  wait_loop-Tracks zero job timeout poll = search tracking
  wait_loop-Tracks (suc f) job timeout poll =
      let rest = wait_loop-Tracks f job (timeout - min timeout poll) poll in
      let slept =
        track_bind base spec R (track_sleep base spec R sim (min timeout poll)) (λ _. rest) in
      track_if base spec R (timeout == 0) (search tracking) (
        track_bind base spec R (get_job_status-Tracks job) λ s.
          track_if base spec R (str_eq s (txt "COMPLETED")) (fetch_result-Tracks job)
            (track_if base spec R (has_failed s) (search tracking) slept))

  pub wait_for_job_result-Tracks :
      (job : JobRequest) (timeout : ℤ) (poll : ℕ)
      → TracksIt
          (wait_for_job_result J base is_hpc job timeout poll)
          (wait_for_job_result J spec is_hpc job timeout poll)
  unfolding wait_for_job_result
  wait_for_job_result-Tracks job (pos t) poll = wait_loop-Tracks t job t poll
  wait_for_job_result-Tracks job (negsuc _) poll = search tracking

  get_job_result-Tracks :
      (job : JobRequest) (wait : Bool) (timeout : ℕ)
      → TracksIt
          (get_job_result J base is_hpc job wait timeout)
          (get_job_result J spec is_hpc job wait timeout)
  unfolding get_job_result
  get_job_result-Tracks job wait timeout =
      track_if base spec R wait (wait_for_job_result-Tracks job (to_int timeout) 2)
        (fetch_result-Tracks job)

  perform-Tracks : (m : Method) → TracksIt (perform J base is_hpc m) (perform J spec is_hpc m)
  unfolding perform
  perform-Tracks all_resources = search (tracking, get_all_resources-Tracks)
  perform-Tracks (resource_info name) = search (tracking, get_resource_info-Tracks)
  perform-Tracks (pending_jobs name) = search (tracking, get_number_pending_jobs-Tracks)
  perform-Tracks (submission job) = search (tracking, submit_job-Tracks)
  perform-Tracks (cancellation job) = search (tracking, cancel_job-Tracks)
  perform-Tracks (status job) = search (tracking, get_job_status-Tracks)
  perform-Tracks (result job wait timeout) = search (tracking, get_job_result-Tracks)

  -- If two transports have the same outcome for every request from related worlds, and keep the
  -- worlds related, also while the client sleeps, then no program can tell them apart: from related
  -- worlds it returns or throws the same over both, after the same requests and sleeps, whichever
  -- methods of the client it calls and however it goes on from what they return or throw.
  pub run-Alike :
      {A : Type 0} (p : Program A) (e : Env J.Json W) (f : Env J.Json V)
      → R e.world f.world
      → e.trace ≡ f.trace
      → ((run J base is_hpc p e).0 ≡ (run J spec is_hpc p f).0)
        × ((run J base is_hpc p e).1.trace ≡ (run J spec is_hpc p f).1.trace)
        × R (run J base is_hpc p e).1.world (run J spec is_hpc p f).1.world
  unfolding run
  run-Alike (finish a) e f related same = (refl, same, related)
  run-Alike (invoke m next) e f related same =
      let (outcome, (related', same')) = (perform-Tracks m).apply e f (related, same) in
      rw (outcome, run)
        (run-Alike (next (perform J spec is_hpc m f).0) (perform J base is_hpc m e).1
          (perform J spec is_hpc m f).1 related' same')
