-- ===== src/CApi/Handles.antt =====
-- src/c_bindings: the objects that a C caller holds by its handles, and the functions that free
-- them. An object and what it owns count as one block.
pub mod Lifetimes
pub mod Sessions
pub mod Service
use mqss_client.Common.{
  ℕ, Bool, true, false, Option, none, some, List, [], ◌∷◌, ◌==◌, if◌then◌else◌,
}
use mathlib.Core.Option
use mqss_client.Common.Bytes.{Str}
use mqss_client.Common.Words.{ℤ, negsuc}
use mqss_client.Json.{JsonLib}
use mqss_client.Transport.{BaseClient, M, pure, ◌>>=◌}
use mqss_client.Job.{JobKind, JobRequest, JobResult, circuit, hamiltonian}
use mqss_client.RabbitMq.{Amqp, Session, disconnect}
use mqss_client.Rest.Request.{Curl}
use mqss_client.Client.Connect.{MqssClient, Connection, over_broker, over_http, create_client}
use mqss_client.CApi.Heap.{Heap, allocated, free}
use mqss_client.CApi.Calls.{
  create_circuit_job, create_hamiltonian_job, mqss_client_submit_job, mqss_client_get_job_result,
}

-- `MQSSClientRef`, `MQSSJobRef` and `MQSSJobResultRef` point to these.
pub data Object (W : Type 0) : Type 0 where
  client_object : MqssClient W → Object W
  job_object : JobRequest → Object W
  result_object : JobResult → Object W

-- The objects that were made and not deleted yet, with their addresses, the latest first.
pub record Store (W : Type 0) : Type 0 where
  pub heap : Heap
  pub objects : List (ℕ × Object W)

unfoldable pub object_at {ℓ} : {A : Type ℓ} → ℕ → List (ℕ × A) → Option A
object_at p [] = none
object_at p ((q, o) ∷ os) = let rest = object_at p os in if p == q then some o else rest

unfoldable pub erase {ℓ} : {A : Type ℓ} → ℕ → List (ℕ × A) → List (ℕ × A)
erase p [] = []
erase p ((q, o) ∷ os) = let rest = erase p os in if p == q then os else (q, o) ∷ rest

-- What is at an address is replaced.
unfoldable pub put {ℓ} : {A : Type ℓ} → ℕ → A → List (ℕ × A) → List (ℕ × A)
put p new [] = []
put p new ((q, o) ∷ os) = let rest = put p new os in if p == q then (q, new) ∷ os else (q, o) ∷ rest

-- What a handle to a job stands for.
abbrev pub as_job : {W : Type 0} → Option (Object W) → Option JobRequest
as_job (some (job_object job)) = some job
as_job _ = none

module _ {W : Type 0} where
  unfoldable pub job_at : Option ℕ → Store W → Option JobRequest
  job_at none s = none
  job_at (some p) s = as_job (object_at p s.objects)

  -- `delete unwrap<T>(ref)`
  unfoldable pub delete_object : Option ℕ → Store W → Store W
  delete_object none s = s
  delete_object (some p) s = record { heap = free (some p) s.heap; objects = erase p s.objects }

  unfoldable pub free_job : Option ℕ → Store W → Store W
  unfolding delete_object
  free_job job s = delete_object job s

  unfoldable pub free_job_result : Option ℕ → Store W → Store W
  unfolding delete_object
  free_job_result result s = delete_object result s

  -- What the destructor of a client leaves of its session: the broker's client disconnects.
  abbrev pub closing : Amqp W → Option (Object W) → Option (Session W)
  closing amqp (some (client_object c)) = elim c.client [
    | over_broker _ session ↦ some (disconnect amqp session).1
    | over_http _ w ↦ none
  ]
  closing amqp _ = none

  unfoldable pub free_client : Amqp W → Option ℕ → Store W → Option (Session W) × Store W
  unfolding delete_object
  free_client amqp none s = (none, s)
  free_client amqp (some p) s = (closing amqp (object_at p s.objects), delete_object (some p) s)

-- `sizeof` of the classes.
pub record Sizes : Type 0 where
  pub client : ℕ
  pub circuit_job : ℕ
  pub hamiltonian_job : ℕ
  pub job_result : ℕ

abbrev pub job_size : Sizes → JobKind → ℕ
job_size sizes (circuit _) = sizes.circuit_job
job_size sizes (hamiltonian _) = sizes.hamiltonian_job

abbrev pub size_of : {W : Type 0} → Sizes → Object W → ℕ
size_of sizes (client_object _) = sizes.client
size_of sizes (job_object job) = job_size sizes job.kind
size_of sizes (result_object _) = sizes.job_result

module _ (sizes : Sizes) {W : Type 0} where
  -- `wrap<RefT>(new T(…))` of an object, whose block `new` allocates, or the null pointer.
  unfoldable pub new_handle : Option (Object W) → Store W → Option ℕ × Store W
  new_handle none s = (none, s)
  new_handle (some o) s = (
    some s.heap.next,
    record { heap = allocated (size_of sizes o) s.heap; objects = (s.heap.next, o) ∷ s.objects },
  )

  unfoldable pub new_circuit_job :
      (source circuit_format resource_name : Option Str)
      → (shots : ℕ) → (no_modify queued : Bool) → Store W
      → Option ℕ × Store W
  unfolding new_handle
  new_circuit_job c f r shots no_modify queued s =
      new_handle (Option.map job_object (create_circuit_job c f r shots no_modify queued)) s

  unfoldable pub new_hamiltonian_job :
      (resource_name interaction_str coefficients_str : Option Str) → Store W → Option ℕ × Store W
  unfolding new_handle
  new_hamiltonian_job r i c s = new_handle (Option.map job_object (create_hamiltonian_job r i c)) s

  module _ (J : JsonLib) (amqp : Amqp W) (curl : Curl W) (host : Option Str) (uuid : Str) where
    unfoldable pub new_client_object :
        (token url_or_queue : Option Str) → (is_hpc : Bool) → W → Store W → Option ℕ × Store W
    unfolding new_handle
    new_client_object token url_or_queue is_hpc w s =
        new_handle
          (Option.map client_object
            (create_client J amqp curl host uuid token url_or_queue is_hpc w))
          s

  -- The calls of a client, over its transport. A handle that is null or stands for no job is taken
  -- for null.
  module _ (J : JsonLib) {V : Type 0} (base : BaseClient J.Json V) (is_hpc : Bool) where
    open J use {Json}

    abbrev pub submit_found : ℕ → Option JobRequest → Store W → M Json V (ℤ × Store W)
    submit_found p none s = pure (negsuc 0, s)
    submit_found p (some job) s = do
      (n, job') ← mqss_client_submit_job J base is_hpc true job
      pure (n, record s { objects = put p (job_object job') s.objects })

    unfoldable pub submit_job_at : Option ℕ → Store W → M Json V (ℤ × Store W)
    submit_job_at none s = pure (negsuc 0, s)
    submit_job_at (some p) s = submit_found p (job_at (some p) s) s

    abbrev pub result_of_found :
        Option JobRequest → (wait : Bool) → (timeout : ℕ) → Store W → M Json V (Option ℕ × Store W)
    result_of_found none wait timeout s = pure (none, s)
    result_of_found (some job) wait timeout s = do
      result ← mqss_client_get_job_result J base is_hpc true job wait timeout
      pure (new_handle (Option.map result_object result) s)

    unfoldable pub get_job_result_at :
        Option ℕ → (wait : Bool) → (timeout : ℕ) → Store W → M Json V (Option ℕ × Store W)
    unfolding new_handle
    get_job_result_at job wait timeout s = result_of_found (job_at job s) wait timeout s
