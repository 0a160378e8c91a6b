-- ===== src/Resource.antt =====
-- src/resource.cpp and include/mqss/resource.h: a resource read from the server's JSON.
pub mod Patterns
pub mod Couplings
pub mod Gates
pub mod TupleText
pub mod GateText
pub mod Ints
use mqss_client.Common.{
  ℕ, ◌≡◌, Bool, true, false, ◌&&◌, Option, none, some, List, [], ◌∷◌, ◌++◌, if◌then◌else◌,
}
use mqss_client.Common.Bytes.{Str, txt, str_eq}
use mqss_client.Common.Words.{ℤ, to_unsigned}
use mqss_client.Common.Effects.{Result, ok, throw, invalid_argument, ◌>>=◌}
use mqss_client.Standard.Regex.{find_all, group}
use mqss_client.Standard.Stoi.{stoi}
use mqss_client.Json.{JsonLib}
use Patterns.{pair_pattern, gate_pattern, tuple_pattern, number_pattern}

pub record Gate : Type 0 where
  pub name : Str
  pub qubit_number : ℕ
  pub parameter_number : ℕ
  pub supported_qubits : List (List ℕ)

pub record Resource : Type 0 where
  pub name : Str
  pub qubit_count : ℕ
  pub online : Bool
  pub coupling_map : List (List ℤ)
  pub native_gateset : List Gate

-- The loop over the matches of `extractCouplingMap`.
pub read_pairs : List (List Str) → Result (List (List ℤ))
read_pairs [] = ok []
read_pairs (m ∷ ms) = do
  a ← stoi (group 1 2 m)
  b ← stoi (group 5 2 m)
  rest ← read_pairs ms
  ok ((a ∷ b ∷ []) ∷ rest)

unfoldable pub gate_properties : Str → Result (ℕ × ℕ)
gate_properties name =
    if str_eq name (txt "cz")
    then ok (2, 0)
    else if str_eq name (txt "measure")
    then ok (1, 0)
    else if str_eq name (txt "id")
    then ok (1, 0)
    else if str_eq name (txt "r")
    then ok (1, 2)
    else if str_eq name (txt "rx")
    then ok (1, 1)
    else if str_eq name (txt "rz")
    then ok (1, 1)
    else if str_eq name (txt "rxx")
    then ok (2, 1)
    else if str_eq name (txt "if_else")
    then ok (1, 0)
    else if str_eq name (txt "reset")
    then ok (1, 0)
    else if str_eq name (txt "swap")
    then ok (2, 0)
    else throw (invalid_argument (txt "Unknown Gate: " ++ name))

-- The innermost loop of `extractGates`: the numbers of one tuple.
pub read_qubits : List (List Str) → Result (List ℕ)
read_qubits [] = ok []
read_qubits (m ∷ ms) = do n ← stoi (group 0 2 m); rest ← read_qubits ms; ok (to_unsigned n ∷ rest)

-- The loop over the tuples of one gate, which appends to `supported`.
pub read_tuples : List (List ℕ) → List (List Str) → Result (List (List ℕ))
read_tuples supported [] = ok supported
read_tuples supported (m ∷ ms) = do
  qubits ← read_qubits (find_all number_pattern (group 0 1 m))
  read_tuples (supported ++ qubits ∷ []) ms

-- The loop over the gates. `supported` is declared outside it; `emplace_back` moves it into the
-- gate, which leaves it empty for the next round.
pub read_gates : List (List ℕ) → List (List Str) → Result (List Gate)
read_gates supported [] = ok []
read_gates supported (m ∷ ms) = do
  let name = group 3 2 m
  let body = group 9 3 m
  supported' ← read_tuples supported (find_all tuple_pattern body)
  (qubits, parameters) ← gate_properties name
  rest ← read_gates [] ms
  ok (
      record {
        name = name;
        qubit_number = qubits;
        parameter_number = parameters;
        supported_qubits = supported';
      }
      ∷ rest)

module _ (J : JsonLib) where
  open J use {
    Json, find, contains, item, is_string, is_number, get_string, get_unsigned, value_string,
    value_bool,
  }

  -- The text under a key, if there is one that is neither another kind of value nor "None".
  unfoldable pub listed : Json → Str → Result (Option Str)
  listed response key = elim (find response key) [
    | none ↦ ok none
    | some it ↦
        if is_string it
        then (do text ← get_string it; ok (if str_eq text (txt "None") then none else some text))
        else ok none
  ]

  unfoldable pub extract_coupling_map : Json → Str → Result (List (List ℤ))
  unfolding listed read_pairs
  extract_coupling_map response key = do
    found ← listed response key
    elim found [ none ↦ ok [] | some text ↦ read_pairs (find_all pair_pattern text) ]

  unfoldable pub extract_gates : Json → Str → Result (List Gate)
  unfolding listed read_gates read_tuples read_qubits gate_properties
  extract_gates response key = do
    found ← listed response key
    elim found [ none ↦ ok [] | some text ↦ read_gates [] (find_all gate_pattern text) ]

  unfoldable pub qubit_count : Json → Result ℕ
  qubit_count json =
      if contains json (txt "qubits")
      then (do
        qubits ← item json (txt "qubits")
        if is_number qubits then get_unsigned qubits else ok 0)
      else ok 0

  -- `Resource::Resource(const nlohmann::json&)`
  unfoldable pub resource_of_json : Json → Result Resource
  unfolding qubit_count extract_coupling_map extract_gates
  resource_of_json json = do
    name ← value_string json (txt "name") []
    qubits ← qubit_count json
    online ← value_bool json (txt "online") false
    couplings ← extract_coupling_map json (txt "connectivity")
    gates ← extract_gates json (txt "instructions")
    ok (record {
      name = name;
      qubit_count = qubits;
      online = online;
      coupling_map = couplings;
      native_gateset = gates;
    })
