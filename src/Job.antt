-- ===== src/Job.antt =====
-- src/job.cpp and include/mqss/job.h: the requests that are submitted, and results read from JSON.
pub mod Encoding
pub mod Results
use mqss_client.Common.{ℕ, Bool, List, [], ◌∷◌, if◌then◌else◌}
use mqss_client.Common.Bytes.{Str, txt}
use mqss_client.Common.Effects.{Result, ok, ◌>>=◌}
use mqss_client.Standard.Map.{insert}
use mqss_client.Json.{JsonLib}

pub record CircuitJobRequest : Type 0 where
  pub circuit : Str
  pub circuit_format : Str
  pub resource_name : Str
  pub shots : ℕ
  pub no_modify : Bool
  pub queued : Bool

pub record HamiltonianJobRequest : Type 0 where
  pub resource_name : Str
  pub interaction_str : Str
  pub coefficients_str : Str

-- `CircuitJobRequest::CircuitJobRequest` and `HamiltonianJobRequest::HamiltonianJobRequest`
abbrev pub circuit_job_request :
    (source circuit_format resource_name : Str)
    → (shots : ℕ) → (no_modify queued : Bool) → CircuitJobRequest
circuit_job_request source circuit_format resource_name shots no_modify queued = record {
  circuit = source;
  circuit_format = circuit_format;
  resource_name = resource_name;
  shots = shots;
  no_modify = no_modify;
  queued = queued;
}

abbrev pub hamiltonian_job_request :
    (resource_name interaction_str coefficients_str : Str) → HamiltonianJobRequest
hamiltonian_job_request resource_name interaction_str coefficients_str = record {
  resource_name = resource_name;
  interaction_str = interaction_str;
  coefficients_str = coefficients_str;
}

-- The two classes that derive from `JobRequest`.
pub data JobKind : Type 0 where
  circuit : CircuitJobRequest → JobKind
  hamiltonian : HamiltonianJobRequest → JobKind

pub record JobRequest : Type 0 where
  pub uuid : Str
  pub kind : JobKind

unfoldable pub path_of : JobKind → Str
path_of (circuit _) = txt "job"
path_of (hamiltonian _) = txt "hamiltonian_job"

-- `getPath`
unfoldable pub get_path : JobRequest → Str
unfolding path_of
get_path job = path_of job.kind

-- `setUuid`
abbrev pub set_uuid : Str → JobRequest → JobRequest
set_uuid uuid job = record job { uuid = uuid }

abbrev pub Histogram : Type 0
Histogram = List (Str × ℕ)

pub record JobResult : Type 0 where
  pub results : List Histogram
  pub timestamp_completed : Str
  pub timestamp_submitted : Str
  pub timestamp_scheduled : Str

module _ (J : JsonLib) where
  open J use {
    Json, string, number, boolean, array, object, accept, parse, at, is_array, get_string,
    get_unsigned, elements, items,
  }

  -- `CircuitJobRequest::toJson`
  pub circuit_to_json : Bool → CircuitJobRequest → Json
  circuit_to_json is_hpc r = object (
      (txt "circuit", if is_hpc then array (string r.circuit ∷ []) else string r.circuit)
      ∷ (txt "circuit_format", string r.circuit_format)
      ∷ (txt "resource_name", string r.resource_name)
      ∷ (txt "shots", number r.shots)
      ∷ (txt "no_modify", boolean r.no_modify)
      ∷ (txt "queued", boolean r.queued)
      ∷ [])

  -- `HamiltonianJobRequest::toJson`
  pub hamiltonian_to_json : HamiltonianJobRequest → Json
  hamiltonian_to_json r = object (
      (txt "resource_name", string r.resource_name)
      ∷ (txt "interaction_str", string r.interaction_str)
      ∷ (txt "coefficients_str", string r.coefficients_str)
      ∷ [])

  pub kind_to_json : Bool → JobKind → Json
  unfolding circuit_to_json hamiltonian_to_json
  kind_to_json is_hpc (circuit r) = circuit_to_json is_hpc r
  kind_to_json is_hpc (hamiltonian r) = hamiltonian_to_json r

  unfoldable pub to_json : Bool → JobRequest → Json
  unfolding kind_to_json
  to_json is_hpc job = kind_to_json is_hpc job.kind

  -- `for (auto& [key, value] : m.items()) result[key] = value.get<unsigned int>();`
  pub read_counts : Histogram → List (Str × Json) → Result Histogram
  read_counts result [] = ok result
  read_counts result ((key, value) ∷ rest) = do
    n ← get_unsigned value
    read_counts (insert key n result) rest

  -- The loop over an array of result maps.
  pub read_maps : List Json → Result (List Histogram)
  unfolding read_counts
  read_maps [] = ok []
  read_maps (m ∷ ms) = do
    result ← read_counts [] (items m)
    results ← read_maps ms
    ok (result ∷ results)

  pub read_results : Json → Result (List Histogram)
  unfolding read_counts read_maps
  read_results maps =
      if is_array maps
      then read_maps (elements maps)
      else (do result ← read_counts [] (items maps); ok (result ∷ []))

  pub string_at : Json → Str → Result Str
  string_at json key = at json key >>= get_string

  -- `JobResult::JobResult(const nlohmann::json&)`
  unfoldable pub job_result_of_json : Json → Result JobResult
  unfolding read_results string_at
  job_result_of_json parsed = do
    text ← string_at parsed (txt "result")
    if accept text
        then (do
          maps ← parse text
          results ← read_results maps
          completed ← string_at parsed (txt "timestamp_completed")
          submitted ← string_at parsed (txt "timestamp_submitted")
          scheduled ← string_at parsed (txt "timestamp_scheduled")
          ok (record {
            results = results;
            timestamp_completed = completed;
            timestamp_submitted = submitted;
            timestamp_scheduled = scheduled;
          }))
        else ok (record {
          results = [];
          timestamp_completed = [];
          timestamp_submitted = [];
          timestamp_scheduled = [];
        })
