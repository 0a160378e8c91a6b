-- ===== src/Python/Jobs/Built.antt =====
-- Requests that are built by assignments.
use mqss_client.Common.{
  ℕ, Option, none, some, List, [], ◌≡◌, refl, ◌==◌, false, arith, if◌then◌else◌,
}
use mqss_client.Common.Bytes.{Str}
use mqss_client.Job.{CircuitJobRequest, HamiltonianJobRequest}
use mqss_client.Python.{Python, IsPyClass, assign, Val, text}
use mqss_client.Python.Assigned.{last_assigned, assign-last, assign-kept}
use mqss_client.Python.Jobs.{
  Submittable, set_hamiltonian_field, get_hamiltonian_field, CircuitField, circuit, circuit_format,
  shots, resource_name, no_modify, queued, get_circuit_field, set_circuit_field, circuit_class,
  HamiltonianField, interaction, coefficients, get_hamiltonian_field, hamiltonian_class,
  circuit_init, hamiltonian_init, circuit_kind,
}

abbrev pub circuit_code : CircuitField → ℕ
circuit_code circuit = 0
circuit_code circuit_format = 1
circuit_code shots = 2
circuit_code resource_name = 3
circuit_code no_modify = 4
circuit_code queued = 5

abbrev pub circuit_decode : ℕ → Option CircuitField
circuit_decode n =
    if n == 0
    then some circuit
    else if n == 1
    then some circuit_format
    else if n == 2
    then some shots
    else if n == 3
    then some resource_name
    else if n == 4
    then some no_modify
    else if n == 5
    then some queued
    else none

pub circuit_decode_code : (f : CircuitField) → circuit_decode (circuit_code f) ≡ some f
circuit_decode_code f = ground arith

pub circuit_read_write :
    (f : CircuitField) (v : Val (circuit_kind f)) (r : CircuitJobRequest)
    → get_circuit_field f (set_circuit_field f v r) ≡ v
circuit_read_write circuit v r = refl
circuit_read_write circuit_format v r = refl
circuit_read_write shots v r = refl
circuit_read_write resource_name v r = refl
circuit_read_write no_modify v r = refl
circuit_read_write queued v r = refl

module _ (g : CircuitField) (v : Val (circuit_kind g)) (r : CircuitJobRequest) where
  -- Setting one attribute leaves another as it is.
  abbrev pub CircuitApart : CircuitField → Type 0
  CircuitApart f =
      (circuit_code f == circuit_code g) ≡ false
      → get_circuit_field f (set_circuit_field g v r) ≡ get_circuit_field f r

pub circuit_read_other :
    (f g : CircuitField) (v : Val (circuit_kind g)) (r : CircuitJobRequest) → CircuitApart g v r f
circuit_read_other f circuit v r = elim f as (CircuitApart circuit v r) [
  | circuit ↦ λ apart. cc
  | _ ↦ λ apart. refl
]
circuit_read_other f circuit_format v r = elim f as (CircuitApart circuit_format v r) [
  | circuit_format ↦ λ apart. cc
  | _ ↦ λ apart. refl
]
circuit_read_other f shots v r = elim f as (CircuitApart shots v r) [
  | shots ↦ λ apart. cc
  | _ ↦ λ apart. refl
]
circuit_read_other f resource_name v r = elim f as (CircuitApart resource_name v r) [
  | resource_name ↦ λ apart. cc
  | _ ↦ λ apart. refl
]
circuit_read_other f no_modify v r = elim f as (CircuitApart no_modify v r) [
  | no_modify ↦ λ apart. cc
  | _ ↦ λ apart. refl
]
circuit_read_other f queued v r = elim f as (CircuitApart queued v r) [
  | queued ↦ λ apart. cc
  | _ ↦ λ apart. refl
]

abbrev pub circuit-IsPyClass : IsPyClass circuit_class
circuit-IsPyClass = record {
  code = circuit_code;
  decode = circuit_decode;
  decode_code = circuit_decode_code;
  read_write = λ f v o. circuit_read_write f v o.request;
  read_other = λ f g v o. circuit_read_other f g v o.request;
}

abbrev pub hamiltonian_code : HamiltonianField → ℕ
hamiltonian_code resource_name = 0
hamiltonian_code interaction = 1
hamiltonian_code coefficients = 2

abbrev pub hamiltonian_decode : ℕ → Option HamiltonianField
hamiltonian_decode n =
    if n == 0
    then some resource_name
    else if n == 1
    then some interaction
    else if n == 2
    then some coefficients
    else none

pub hamiltonian_decode_code :
    (f : HamiltonianField) → hamiltonian_decode (hamiltonian_code f) ≡ some f
hamiltonian_decode_code f = ground arith

pub hamiltonian_read_write :
    (f : HamiltonianField) (v : Str) (r : HamiltonianJobRequest)
    → get_hamiltonian_field f (set_hamiltonian_field f v r) ≡ v
hamiltonian_read_write f v r = ground arith

pub hamiltonian_read_other :
    (f g : HamiltonianField) (v : Str) (r : HamiltonianJobRequest)
    → (hamiltonian_code f == hamiltonian_code g) ≡ false
    → get_hamiltonian_field f (set_hamiltonian_field g v r) ≡ get_hamiltonian_field f r
hamiltonian_read_other f g v r apart = ground (arith, apart)

abbrev pub hamiltonian-IsPyClass : IsPyClass hamiltonian_class
hamiltonian-IsPyClass = record {
  code = hamiltonian_code;
  decode = hamiltonian_decode;
  decode_code = hamiltonian_decode_code;
  read_write = λ f v o. hamiltonian_read_write f v o.request;
  read_other = λ f g v o. hamiltonian_read_other f g v o.request;
}

module _ (P : Python) where
  open P use {Value}

  -- A circuit request that a Python program builds by assignments to attributes, accepted ones that
  -- reach each of the six, in any order and however often, and on whatever object, is the one that
  -- the constructor makes of the values assigned last, but for the identifier: the object keeps its
  -- own, also that of an earlier submission, and one from the constructor has none.
  pub circuit_init-assigned :
      (ws : List (Str × Value)) (before after : Submittable CircuitJobRequest)
      (value : CircuitField → Value)
      → ((f : CircuitField) → last_assigned P circuit_class circuit-IsPyClass f ws ≡ some (value f))
      → assign P circuit_class ws before ≡ some after
      → (circuit_init P
            (value circuit)
            (value circuit_format)
            (value resource_name)
            (value shots)
            (value no_modify)
            (value queued)
          ≡ some (record after { uuid = [] }))
        × (after.uuid ≡ before.uuid)
  unfolding circuit_init
  circuit_init-assigned ws before after value last e =
      let held : (f : CircuitField)
          → P.load (circuit_kind f) (value f) ≡ some (get_circuit_field f after.request) =
        λ f. assign-last P circuit_class circuit-IsPyClass f ws (value f) before after e (last f) in
      (
        rw
            (
              held circuit,
              held circuit_format,
              held resource_name,
              held shots,
              held no_modify,
              held queued,
            )
            refl,
        assign-kept P circuit_class (λ o. o.uuid) (λ f v o. refl) ws before after e,
      )

  pub hamiltonian_init-assigned :
      (ws : List (Str × Value)) (before after : Submittable HamiltonianJobRequest)
      (value : HamiltonianField → Value)
      → ((f : HamiltonianField)
          → last_assigned P hamiltonian_class hamiltonian-IsPyClass f ws ≡ some (value f))
      → assign P hamiltonian_class ws before ≡ some after
      → (hamiltonian_init P (value resource_name) (value interaction) (value coefficients)
          ≡ some (record after { uuid = [] }))
        × (after.uuid ≡ before.uuid)
  unfolding hamiltonian_init
  hamiltonian_init-assigned ws before after value last e =
      let held : (f : HamiltonianField)
          → P.load text (value f) ≡ some (get_hamiltonian_field f after.request) =
        λ f.
          assign-last P hamiltonian_class hamiltonian-IsPyClass f ws (value f) before after e
            (last f) in
      (
        rw (held resource_name, held interaction, held coefficients) refl,
        assign-kept P hamiltonian_class (λ o. o.uuid) (λ f v o. refl) ws before after e,
      )
