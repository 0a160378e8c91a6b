-- ===== src/CApi/Calls.antt =====
-- src/c_bindings/client.cpp: the client's operations for a C caller. A `throw` is an exception that
-- leaves the C function.
pub mod Laws
use mqss_client.Common.{
  ℕ, suc, ◌+◌, ◌*◌, Bool, true, false, ◌&&◌, Option, none, some, List, [], ◌∷◌, length,
  if◌then◌else◌,
}
use mqss_client.Common.Bytes.{Str}
use mqss_client.Common.Words.{ℤ, pos, negsuc, to_int}
use mqss_client.Common.Effects.{Result, ok, throw}
use mqss_client.Standard.Stoi.{stoi}
use mqss_client.Json.{JsonLib}
use mqss_client.Transport.{BaseClient, Env, M, pure, ◌>>=◌}
use mqss_client.Resource.{Resource}
use mqss_client.Job.{
  JobRequest, JobKind, circuit, hamiltonian, circuit_job_request, hamiltonian_job_request,
  JobResult,
}
use mqss_client.Client.{
  get_all_resources, get_resource_info, submit_job, cancel_job, get_job_result,
  get_number_pending_jobs,
}
use mqss_client.CApi.Heap.{Heap, malloc, allocated}

-- `MQSSClientCreateCircuitJob` and `MQSSClientCreateHamiltonianJob`, of strings that may be null.
abbrev pub create_circuit_job :
    (source circuit_format resource_name : Option Str)
    → (shots : ℕ) → (no_modify queued : Bool) → Option JobRequest
create_circuit_job (some c) (some f) (some r) shots no_modify queued =
    some (record { uuid = []; kind = circuit (circuit_job_request c f r shots no_modify queued) })
create_circuit_job _ _ _ shots no_modify queued = none

abbrev pub create_hamiltonian_job :
    (resource_name interaction_str coefficients_str : Option Str) → Option JobRequest
create_hamiltonian_job (some r) (some i) (some c) =
    some (record { uuid = []; kind = hamiltonian (hamiltonian_job_request r i c) })
create_hamiltonian_job _ _ _ = none

-- `new Resource(resources_[i])` for each resource. The size of the object is an argument.
pub new_resources : ℕ → List Resource → Heap → List (ℕ × Resource) × Heap
new_resources size [] h = ([], h)
new_resources size (r ∷ rs) h =
    let (copies, h') = new_resources size rs (allocated size h) in ((h.next, r) ∷ copies, h')

-- The array of resources, `none` for the null pointer, and what is written to `*size`, if it is.
abbrev pub Resources : Type 0
Resources = Option (ℕ × List (ℕ × Resource)) × Option ℤ

module _ (fits : ℕ → ℕ → Bool) (size : ℕ) where
  -- What is made of the resources.
  pub resource_array : List Resource → Heap → Resources × Heap
  resource_array rs h =
      let (p, h') = malloc fits (8 * length rs) h in
      elim p [
        | none ↦ ((none, some (to_int (length rs))), h')
        | some array ↦
            let (copies, h'') = new_resources size rs h' in
            ((some (array, copies), some (to_int (length rs))), h'')
      ]

-- The number that is made of the identifier of a submitted job.
abbrev pub job_number : Option Str → ℤ
job_number none = negsuc 0
job_number (some uuid) = elim (stoi uuid) [ ok n ↦ n | throw x ↦ negsuc 1 ]

module _ (J : JsonLib) {W : Type 0} (base : BaseClient J.Json W) (is_hpc : Bool) where
  open J use {Json}

  -- `given` says whether the pointers that a function tests are not null.
  unfoldable pub mqss_client_submit_job : (given : Bool) → JobRequest → M Json W (ℤ × JobRequest)
  mqss_client_submit_job false job = pure (negsuc 0, job)
  mqss_client_submit_job true job = do
    (uuid, job') ← submit_job J base is_hpc job
    pure (job_number uuid, job')

  abbrev contained : Result (Unit {0}) × Env Json W → Result (Unit {0}) × Env Json W
  contained (r, e) = (ok tt, e)

  unfoldable pub mqss_client_cancel_job : (given : Bool) → JobRequest → M Json W (Unit {0})
  mqss_client_cancel_job false job e = (ok tt, e)
  mqss_client_cancel_job true job e = contained (cancel_job J base is_hpc job e)

  unfoldable pub mqss_client_get_job_result :
      (given : Bool) → JobRequest → (wait : Bool) → (timeout : ℕ) → M Json W (Option JobResult)
  mqss_client_get_job_result false job wait timeout = pure none
  mqss_client_get_job_result true job wait timeout = get_job_result J base is_hpc job wait timeout

  unfoldable pub mqss_client_get_number_pending_jobs : (given : Bool) → Str → M Json W ℤ
  mqss_client_get_number_pending_jobs false name = pure (negsuc 0)
  mqss_client_get_number_pending_jobs true name = get_number_pending_jobs J base is_hpc name

  unfoldable pub mqss_client_get_resource_info : (given : Bool) → Str → M Json W (Option Resource)
  mqss_client_get_resource_info false name = pure none
  mqss_client_get_resource_info true name = get_resource_info J base is_hpc name

  module _ (fits : ℕ → ℕ → Bool) (size : ℕ) where
    unfoldable pub mqss_client_get_all_resources :
        (given : Bool) → Heap → M Json W (Resources × Heap)
    unfolding resource_array new_resources
    mqss_client_get_all_resources false h = pure ((none, none), h)
    mqss_client_get_all_resources true h = do
      rs ← get_all_resources J base is_hpc
      pure (resource_array fits size rs h)
