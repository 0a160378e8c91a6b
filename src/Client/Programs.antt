-- ===== src/Client/Programs.antt =====
-- What a program makes of the client: calls of its methods, each chosen by what the earlier ones
-- returned or threw.
pub mod Rules
pub mod Simulation
pub mod Jobs
use mqss_client.Common.{ℕ, Bool, Option, List}
use mqss_client.Common.Bytes.{Str}
use mqss_client.Common.Words.{ℤ}
use mqss_client.Common.Effects.{Result, ok}
use mqss_client.Json.{JsonLib}
use mqss_client.Transport.{BaseClient, M, pure, ◌>>=◌}
use mqss_client.Resource.{Resource}
use mqss_client.Job.{JobRequest, JobResult}
use mqss_client.Client.{
  get_all_resources, get_resource_info, submit_job, cancel_job, get_job_status, get_job_result,
  get_number_pending_jobs,
}

-- The public methods of `MQSSClient`, with their arguments.
pub data Method : Type 0 where
  all_resources : Method
  resource_info pending_jobs : Str → Method
  submission cancellation status : JobRequest → Method
  result : JobRequest → (wait : Bool) → (timeout : ℕ) → Method

-- What they return. A submission gives the job back with its identifier.
pub data Answer : Type 0 where
  resources : List Resource → Answer
  info : Option Resource → Answer
  submitted : Option Str → JobRequest → Answer
  cancelled : Answer
  reported : Str → Answer
  computed : Option JobResult → Answer
  waiting : ℤ → Answer

pub data Program (A : Type 0) : Type 0 where
  finish : A → Program A
  invoke : Method → (Result Answer → Program A) → Program A

module _ (J : JsonLib) {W : Type 0} (base : BaseClient J.Json W) (is_hpc : Bool) where
  unfoldable pub perform : Method → M J.Json W Answer
  perform all_resources = do rs ← get_all_resources J base is_hpc; pure (resources rs)
  perform (resource_info name) = do r ← get_resource_info J base is_hpc name; pure (info r)
  perform (pending_jobs name) = do n ← get_number_pending_jobs J base is_hpc name; pure (waiting n)
  perform (submission job) = do s ← submit_job J base is_hpc job; pure (submitted s.0 s.1)
  perform (cancellation job) = do u ← cancel_job J base is_hpc job; pure cancelled
  perform (status job) = do s ← get_job_status J base is_hpc job; pure (reported s)
  perform (result job wait timeout) = do
    r ← get_job_result J base is_hpc job wait timeout
    pure (computed r)

  -- A program goes on from what a method returned or threw.
  unfoldable pub run : {A : Type 0} → Program A → M J.Json W A
  run (finish a) = pure a
  run (invoke m next) = λ e. let o = perform m e in run (next o.0) o.1
