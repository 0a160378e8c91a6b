-- ===== src/Python/Jobs.antt =====
-- bindings/job.cpp: the job requests and results as Python classes, with the setters and getters of
-- include/mqss/job.h.
pub mod Built
use mqss_client.Common.{ℕ, Bool, Option, none, some, List, [], ◌∷◌, if◌then◌else◌, map}
use mqss_client.Common.Options.{◌>>=◌}
use mqss_client.Common.Bytes.{Str, txt, str_eq}
use mqss_client.Job.{
  circuit_job_request, hamiltonian_job_request, CircuitJobRequest, HamiltonianJobRequest, JobResult,
}
use mqss_client.Python.{lookup_name, Kind, text, word, flag, Val, Python, PyClass}

-- A request as an object: what `JobRequest` has, its identifier, and what the derived class has.
pub record Submittable (R : Type 0) : Type 0 where
  pub uuid : Str
  pub request : R

pub data CircuitField : Type 0 where
  circuit circuit_format shots resource_name no_modify queued : CircuitField

abbrev pub circuit_kind : CircuitField → Kind
circuit_kind circuit = text
circuit_kind circuit_format = text
circuit_kind shots = word
circuit_kind resource_name = text
circuit_kind no_modify = flag
circuit_kind queued = flag

-- `getCircuit` and the other getters.
abbrev pub get_circuit_field : (f : CircuitField) → CircuitJobRequest → Val (circuit_kind f)
get_circuit_field circuit r = r.circuit
get_circuit_field circuit_format r = r.circuit_format
get_circuit_field shots r = r.shots
get_circuit_field resource_name r = r.resource_name
get_circuit_field no_modify r = r.no_modify
get_circuit_field queued r = r.queued

-- `setCircuit` and the other setters.
abbrev pub set_circuit_field :
    (f : CircuitField) → Val (circuit_kind f) → CircuitJobRequest → CircuitJobRequest
set_circuit_field circuit v r = record r { circuit = v }
set_circuit_field circuit_format v r = record r { circuit_format = v }
set_circuit_field shots v r = record r { shots = v }
set_circuit_field resource_name v r = record r { resource_name = v }
set_circuit_field no_modify v r = record r { no_modify = v }
set_circuit_field queued v r = record r { queued = v }

-- `py::class_<CircuitJobRequest>` with its `def_property` lines.
abbrev pub circuit_class : PyClass
circuit_class = record {
  Object = Submittable CircuitJobRequest;
  Field = CircuitField;
  named = lookup_name (
      (txt "circuit", circuit)
      ∷ (txt "circuit_format", circuit_format)
      ∷ (txt "shots", shots)
      ∷ (txt "resource_name", resource_name)
      ∷ (txt "no_modify", no_modify)
      ∷ (txt "queued", queued)
      ∷ []);
  kind = circuit_kind;
  read = λ f o. get_circuit_field f o.request;
  write = λ f v o. record o { request = set_circuit_field f v o.request };
}

-- `CircuitJobRequest() {}`, which leaves the number and the flags as they are in memory.
abbrev pub default_circuit : ℕ → Bool → Bool → Submittable CircuitJobRequest
default_circuit s n q = record {
  uuid = [];
  request = record {
    circuit = [];
    circuit_format = [];
    resource_name = [];
    shots = s;
    no_modify = n;
    queued = q;
  };
}

pub data HamiltonianField : Type 0 where
  resource_name interaction coefficients : HamiltonianField

abbrev pub get_hamiltonian_field : HamiltonianField → HamiltonianJobRequest → Str
get_hamiltonian_field resource_name r = r.resource_name
get_hamiltonian_field interaction r = r.interaction_str
get_hamiltonian_field coefficients r = r.coefficients_str

abbrev pub set_hamiltonian_field :
    HamiltonianField → Str → HamiltonianJobRequest → HamiltonianJobRequest
set_hamiltonian_field resource_name v r = record r { resource_name = v }
set_hamiltonian_field interaction v r = record r { interaction_str = v }
set_hamiltonian_field coefficients v r = record r { coefficients_str = v }

abbrev pub hamiltonian_class : PyClass
hamiltonian_class = record {
  Object = Submittable HamiltonianJobRequest;
  Field = HamiltonianField;
  named = lookup_name (
      (txt "resource_name", resource_name)
      ∷ (txt "interaction", interaction)
      ∷ (txt "coefficients", coefficients)
      ∷ []);
  kind = λ _. text;
  read = λ f o. get_hamiltonian_field f o.request;
  write = λ f v o. record o { request = set_hamiltonian_field f v o.request };
}

-- `HamiltonianJobRequest() {}`
abbrev pub default_hamiltonian : Submittable HamiltonianJobRequest
default_hamiltonian = record {
  uuid = [];
  request = record { resource_name = []; interaction_str = []; coefficients_str = [] };
}

module _ (P : Python) where
  open P use {Value, load, give}

  -- `py::init` with the arguments "circuit", "circuit_format", "resource_name", "shots",
  -- "no_modify" and "queued", then with "resource_name", "interaction" and "coefficients". The
  -- identifier is empty.
  unfoldable pub circuit_init :
      Value → Value → Value → Value → Value → Value → Option (Submittable CircuitJobRequest)
  circuit_init c f r s n q = do
    c' ← load text c
    f' ← load text f
    r' ← load text r
    s' ← load word s
    n' ← load flag n
    q' ← load flag q
    some (record { uuid = []; request = circuit_job_request c' f' r' s' n' q' })

  unfoldable pub hamiltonian_init :
      Value → Value → Value → Option (Submittable HamiltonianJobRequest)
  hamiltonian_init r i c = do
    r' ← load text r
    i' ← load text i
    c' ← load text c
    some (record { uuid = []; request = hamiltonian_job_request r' i' c' })
