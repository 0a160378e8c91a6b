-- ===== src/Tests/PythonTests.antt =====
-- Requests that a Python program builds.
use mqss_client.Common.{
  ℕ, Bool, Option, none, some, List, [], ◌∷◌, ◌≡◌, refl, true, false, ◌^◌, ltb, if◌then◌else◌,
}
use mqss_client.Common.Bytes.{Str, txt, str_eq}
use mqss_client.Job.{JobResult}
use mqss_client.Resource.{Gate}
use mqss_client.Common.Words.{ℤ, pos, negsuc}
use mqss_client.Python.{view}
use mqss_client.Python.{lookup_name}
use mqss_client.Python.Views.{result_view}
use mqss_client.Job.{CircuitJobRequest, HamiltonianJobRequest}
use mqss_client.Python.{Python, Kind, text, word, flag, Val, assign, get_attribute}
use mqss_client.Python.Jobs.{
  Submittable, circuit, circuit_format, shots, resource_name, no_modify, queued, interaction,
  coefficients, circuit_class, hamiltonian_class, circuit_init, hamiltonian_init, default_circuit,
  default_hamiltonian, CircuitField, HamiltonianField,
}
use mqss_client.Python.Jobs.Built.{
  hamiltonian-IsPyClass, circuit_init-assigned, hamiltonian_init-assigned, circuit-IsPyClass,
}
use mqss_client.Python.Assigned.{last_assigned}

mutual
  data PyValue : Type 0 where
    py_none : PyValue
    py_str : Str → PyValue
    py_int : ℕ → PyValue
    py_negative : ℕ → PyValue
    py_bool : Bool → PyValue
    py_list : PyList → PyValue
    py_gate : Gate → PyValue

  -- The elements of a list or the items of a dictionary, whose keys count for nothing in a list.
  data PyList : Type 0 where
    end : PyList
    item : Str → PyValue → PyList → PyList

abbrev of_items : List (Str × PyValue) → PyList
of_items [] = end
of_items ((k, v) ∷ rest) = item k v (of_items rest)

abbrev of_list : List PyValue → PyList
of_list [] = end
of_list (v ∷ rest) = item [] v (of_list rest)

abbrev of_int : ℤ → PyValue
of_int (pos n) = py_int n
of_int (negsuc n) = py_negative n

abbrev load_value : (k : Kind) → PyValue → Option (Val k)
load_value text (py_str s) = some s
load_value word (py_int n) = if ltb n (2 ^ 32) then some n else none
load_value flag (py_bool b) = some b
load_value text _ = none
load_value word _ = none
load_value flag _ = none

abbrev give_value : (k : Kind) → Val k → PyValue
give_value text s = py_str s
give_value word n = py_int n
give_value flag b = py_bool b

abbrev python : Python
python = record {
  Value = PyValue;
  load = load_value;
  give = give_value;
  give_int = of_int;
  give_list = λ vs. py_list (of_list vs);
  give_dict = λ vs. py_list (of_items vs);
  give_gate = py_gate;
}

-- The resource is named twice, and the circuit is given last.
abbrev assignments : List (Str × PyValue)
assignments =
    (txt "resource_name", py_str (txt "QExa20"))
    ∷ (txt "shots", py_int 100)
    ∷ (txt "queued", py_bool true)
    ∷ (txt "no_modify", py_bool false)
    ∷ (txt "resource_name", py_str (txt "Fake"))
    ∷ (txt "circuit_format", py_str (txt "qasm"))
    ∷ (txt "circuit", py_str (txt "OPENQASM 2.0;"))
    ∷ []

abbrev built : Str → Submittable CircuitJobRequest
built uuid = record {
  uuid = uuid;
  request = record {
    circuit = txt "OPENQASM 2.0;";
    circuit_format = txt "qasm";
    resource_name = txt "Fake";
    shots = 100;
    no_modify = false;
    queued = true;
  };
}

-- A request with values from memory that has been submitted.
abbrev used : Submittable CircuitJobRequest
used = record (default_circuit 4_294_967_295 true true) { uuid = txt "12345" }

abbrev last_values : CircuitField → PyValue
last_values circuit = py_str (txt "OPENQASM 2.0;")
last_values circuit_format = py_str (txt "qasm")
last_values shots = py_int 100
last_values resource_name = py_str (txt "Fake")
last_values no_modify = py_bool false
last_values queued = py_bool true

are_last :
    (f : CircuitField)
    → last_assigned python circuit_class circuit-IsPyClass f assignments ≡ some (last_values f)
unfolding lookup_name str_eq
are_last circuit = refl
are_last circuit_format = refl
are_last shots = refl
are_last resource_name = refl
are_last no_modify = refl
are_last queued = refl

assignments_test : assign python circuit_class assignments used ≡ some (built (txt "12345"))
unfolding assign lookup_name str_eq
assignments_test = refl

-- A name that is none of the attributes, and a value of another type.
refused_tests :
    (assign python circuit_class ((txt "qubits", py_int 3) ∷ []) used ≡ none)
    × (assign python circuit_class ((txt "shots", py_int (2 ^ 32)) ∷ []) used ≡ none)
    × (assign python hamiltonian_class ((txt "interaction", py_none) ∷ []) default_hamiltonian
        ≡ none)
unfolding assign lookup_name str_eq
refused_tests = (refl, refl, refl)

circuit_init-assigned_example :
    (circuit_init python
        (py_str (txt "OPENQASM 2.0;"))
        (py_str (txt "qasm"))
        (py_str (txt "Fake"))
        (py_int 100)
        (py_bool false)
        (py_bool true)
      ≡ some (built []))
    × ((built (txt "12345")).uuid ≡ used.uuid)
circuit_init-assigned_example =
    circuit_init-assigned python assignments used (built (txt "12345")) last_values are_last
      assignments_test

abbrev ising_assignments : List (Str × PyValue)
ising_assignments =
    (txt "coefficients", py_str (txt "0.5"))
    ∷ (txt "interaction", py_str (txt "Z0 Z1"))
    ∷ (txt "resource_name", py_str (txt "Fake"))
    ∷ []

abbrev ising_values : HamiltonianField → PyValue
ising_values resource_name = py_str (txt "Fake")
ising_values interaction = py_str (txt "Z0 Z1")
ising_values coefficients = py_str (txt "0.5")

ising_are_last :
    (f : HamiltonianField)
    → last_assigned python hamiltonian_class hamiltonian-IsPyClass f ising_assignments
      ≡ some (ising_values f)
unfolding lookup_name str_eq
ising_are_last resource_name = refl
ising_are_last interaction = refl
ising_are_last coefficients = refl

abbrev ising_built : Submittable HamiltonianJobRequest
ising_built = record {
  uuid = [];
  request = record {
    resource_name = txt "Fake";
    interaction_str = txt "Z0 Z1";
    coefficients_str = txt "0.5";
  };
}

ising_test :
    assign python hamiltonian_class ising_assignments default_hamiltonian ≡ some ising_built
unfolding assign lookup_name str_eq
ising_test = refl

ising_init_test :
    (hamiltonian_init python (py_str (txt "Fake")) (py_str (txt "Z0 Z1")) (py_str (txt "0.5"))
      ≡ some ising_built)
    × (ising_built.uuid ≡ default_hamiltonian.uuid)
ising_init_test =
    hamiltonian_init-assigned python ising_assignments default_hamiltonian ising_built ising_values
      ising_are_last ising_test

abbrev counted : JobResult
counted = record {
  results = ((txt "01", 7) ∷ []) ∷ [];
  timestamp_completed = txt "2026-05-26 11:26:07.615381";
  timestamp_submitted = [];
  timestamp_scheduled = [];
}

view_tests :
    (view (result_view python) (txt "results") counted
      ≡ some (py_list (item [] (py_list (item (txt "01") (py_int 7) end)) end)))
    × (view (result_view python) (txt "timestamp_completed") counted
        ≡ some (py_str (txt "2026-05-26 11:26:07.615381")))
    × (view (result_view python) (txt "histogram") counted ≡ none)
unfolding view str_eq
view_tests = (refl, refl, refl)

get_attribute_tests :
    (get_attribute python hamiltonian_class (txt "interaction") ising_built
      ≡ some (py_str (txt "Z0 Z1")))
    × (get_attribute python hamiltonian_class (txt "shots") ising_built ≡ none)
unfolding get_attribute lookup_name str_eq
get_attribute_tests = (refl, refl)
