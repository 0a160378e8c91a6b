-- ===== src/CApi/Handles/Service.antt =====
-- A C caller that submits a job and waits for its result, over a transport with a server that runs
-- jobs.
use mqss_client.Common.{
  ℕ, ◌≤◌, ◌<◌, ◌+◌, ◌^◌, min, ◌≡◌, refl, Bool, true, some, List, [], ◌∷◌, ◌==◌, Bool-cases, arith,
  inl, inr,
}
use mqss_client.Common.Bytes.{Str}
use mqss_client.Common.Effects.{ok}
use mqss_client.Json.{JsonLib, IsDocumented, MakesValues}
use mqss_client.Transport.{BaseClient, Env}
use mqss_client.Job.{JobKind, JobRequest, JobResult, set_uuid}
use mqss_client.Job.Encoding.{IsUnsigned}
use mqss_client.Client.{submit_job}
use mqss_client.Client.Service.{IsService}
use mqss_client.Client.Programs.Rules.{Simulates}
use mqss_client.Client.Programs.Jobs.{Computed, submit_job-Computed}
use mqss_client.Client.Wait.Timeout.{get_job_result-timeout}
use mqss_client.CApi.Heap.{allocated}
use mqss_client.CApi.Calls.{job_number, mqss_client_submit_job, mqss_client_get_job_result}
use mqss_client.CApi.Handles.{
  job_object, result_object, Store, Sizes, object_at, put, job_at, submit_job_at, get_job_result_at,
  new_handle,
}

object_at-put :
    {A : Type 0} (p : ℕ) (old new : A) (os : List (ℕ × A))
    → object_at p os ≡ some old
    → object_at p (put p new os) ≡ some new
unfolding object_at put
object_at-put p old new [] h = cc h
object_at-put p old new ((q, o) ∷ os) h = elim (Bool-cases (p == q)) [
  | inl here ↦ rw (here, here) refl
  | inr other ↦ rw (other, other) (object_at-put p old new os (rw other at h))
]

module _ (sizes : Sizes) {W : Type 0} (J : JsonLib) {V : Type 0} (base : BaseClient J.Json V)
    (is_hpc : Bool) where
  -- The two calls of a caller that holds a job by the handle `p`, from the store `s`, and the stores
  -- after them.
  pub record IsRun (p : ℕ) (job : JobRequest) (r : JobResult) (timeout : ℕ) (s : Store W)
      (e : Env J.Json V) : Type 0 where
    pub uuid : Str
    pub between : Store W
    pub env : Env J.Json V
    pub submitted :
        submit_job_at sizes J base is_hpc (some p) s e ≡ (ok (job_number (some uuid), between), env)
    pub labelled : job_at (some p) between ≡ some (set_uuid uuid job)
    pub after : Store W
    pub result : ℕ
    pub returned :
        (get_job_result_at sizes J base is_hpc (some p) true timeout between env).0
        ≡ ok (some result, after)
    pub computed : after.objects ≡ (result, result_object r) ∷ between.objects
    pub block : after.heap ≡ allocated sizes.job_result between.heap

  Computed-IsRun :
      (p : ℕ) (job : JobRequest) (r : JobResult) (t : ℕ) (s : Store W) (e : Env J.Json V)
      → object_at p s.objects ≡ some (job_object job)
      → t < 2 ^ 31
      → Computed J base is_hpc job r 2 t e
      → IsRun p job r t s e
  unfolding new_handle submit_job_at get_job_result_at job_at mqss_client_submit_job
      mqss_client_get_job_result
  Computed-IsRun p job r t s e there small_t (uuid, submitted, result) =
      let job' = set_uuid uuid job in
      let s₁ = record s { objects = put p (job_object job') s.objects } in
      let here = object_at-put p (job_object job) (job_object job') s.objects there in
      let waits = (get_job_result-timeout J base is_hpc job' t).0 small_t in
      record {
        uuid = uuid;
        between = s₁;
        env = (submit_job J base is_hpc job e).1;
        submitted = rw (there, submitted) refl;
        labelled = rw here refl;
        after = (new_handle sizes (some (result_object r)) s₁).1;
        result = s₁.heap.next;
        returned = rw (here, waits, result) refl;
        computed = refl;
        block = refl;
      }

module _ (sizes : Sizes) {W : Type 0} (J : JsonLib) (doc : IsDocumented J) (made : MakesValues J)
    {V U : Type 0} (base : BaseClient J.Json V) (spec : BaseClient J.Json U) (R : V → U → Type 0)
    (sim : Simulates base spec R) (is_hpc : Bool) (duration : JobKind → ℕ)
    (compute : JobKind → JobResult) (able : IsService J spec duration compute) where
  -- A C caller that submits a job and waits for it is given what the server computes, over any
  -- transport that has for every request the outcome of speaking to the server directly: if the
  -- server accepts every request it can read, gives it an identifier and from then on knows the
  -- job, runs it for a duration and keeps its result, and the JSON library behaves as documented,
  -- then MQSSClientSubmitJob of a handle to a job whose number of shots is an unsigned returns the
  -- number that is made of the identifier and leaves the job with it, and MQSSClientGetJobResult
  -- with waiting, and a timeout above 0 and below 2^31 that is at least the job's duration and an
  -- interval, which is two seconds or the timeout if that is less, returns a new handle to the
  -- computed result, for which one block is allocated.
  pub get_job_result_at-IsRun :
      (p : ℕ) (job : JobRequest) (t : ℕ) (s : Store W) (e : Env J.Json V) (u : U)
      → R e.world u
      → object_at p s.objects ≡ some (job_object job)
      → IsUnsigned J job.kind
      → 0 < t
      → t < 2 ^ 31
      → duration job.kind + min t 2 ≤ t
      → IsRun sizes J base is_hpc p job (compute job.kind) t s e
  get_job_result_at-IsRun p job t s e u related there small ht small_t enough =
      Computed-IsRun sizes J base is_hpc p job (compute job.kind) t s e there small_t (
        submit_job-Computed J doc made base spec R sim is_hpc duration compute able job e u 2 t
          related small (omega arith) ht enough)
