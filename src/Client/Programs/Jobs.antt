-- ===== src/Client/Programs/Jobs.antt =====
-- A job from its submission to its result, over a transport that answers as a service does.
use mqss_client.Common.{ℕ, ◌≤◌, ◌<◌, ◌+◌, min, ◌≡◌, refl, Bool, some}
use mqss_client.Common.Bytes.{Str}
use mqss_client.Common.Words.{pos}
use mqss_client.Common.Effects.{ok}
use mqss_client.Json.{JsonLib, IsDocumented, MakesValues}
use mqss_client.Transport.{BaseClient, Env}
use mqss_client.Job.{JobKind, JobRequest, JobResult, set_uuid}
use mqss_client.Job.Encoding.{IsUnsigned}
use mqss_client.Client.{submit_job, wait_for_job_result}
use mqss_client.Client.Service.{IsService, submit_job-computed}
use mqss_client.Client.Programs.Rules.{Simulates}
use mqss_client.Client.Programs.Simulation.{submit_job-Tracks, wait_for_job_result-Tracks}

module _ (J : JsonLib) {W : Type 0} (base : BaseClient J.Json W) (is_hpc : Bool) where
  -- A job was submitted, and waiting for it returned a result.
  abbrev pub Computed : JobRequest → JobResult → (poll timeout : ℕ) → Env J.Json W → Type 0
  Computed job r p t e =
      (uuid : Str) × ((submit_job J base is_hpc job e).0 ≡ ok (some uuid, set_uuid uuid job))
      × ((wait_for_job_result J base is_hpc (set_uuid uuid job) (pos t) p
            (submit_job J base is_hpc job e).1).0
          ≡ ok (some r))

module _ (J : JsonLib) (doc : IsDocumented J) (made : MakesValues J) {W V : Type 0}
    (base : BaseClient J.Json W) (spec : BaseClient J.Json V) (R : W → V → Type 0)
    (sim : Simulates base spec R) (is_hpc : Bool) (duration : JobKind → ℕ)
    (compute : JobKind → JobResult) (able : IsService J spec duration compute) where
  pub submit_job-Computed :
      (job : JobRequest) (e : Env J.Json W) (v : V) (p t : ℕ)
      → R e.world v
      → IsUnsigned J job.kind
      → 0 < p
      → 0 < t
      → duration job.kind + min t p ≤ t
      → Computed J base is_hpc job (compute job.kind) p t e
  submit_job-Computed job e v p t related small hp ht enough =
      let f : Env J.Json V = record { world = v; trace = e.trace } in
      let (uuid, f', submitted, result) =
        submit_job-computed J doc made spec is_hpc duration compute able job f p t small hp ht
          enough in
      let (same, alike) =
        (submit_job-Tracks J base spec R sim is_hpc job).apply e f (related, refl) in
      let (same', _) =
        (wait_for_job_result-Tracks J base spec R sim is_hpc (set_uuid uuid job) (pos t) p).apply
          (submit_job J base is_hpc job e).1 (submit_job J spec is_hpc job f).1 alike in
      (uuid, cc (same, submitted), cc (same', submitted, result))
