-- ===== src/CApi/ResourceInfo.antt =====
-- src/c_bindings/resource.cpp: what a resource and a gate give to a C caller.
pub mod Memory
pub mod Contents
use mqss_client.Common.{
  ℕ, suc, ◌+◌, ◌*◌, Bool, true, false, Option, none, some, List, [], ◌∷◌, ◌++◌, length, map,
}
use mqss_client.Common.Bytes.{Str}
use mqss_client.Common.Words.{ℤ, pos, to_int, to_unsigned}
use mqss_client.Resource.{Gate, Resource}
use mqss_client.CApi.Heap.{Heap, malloc, free}

-- The outer loop of `flatten2D` that sums the lengths of the rows.
pub total_length {ℓ} : {A : Type ℓ} → List (List A) → ℕ
total_length [] = 0
total_length (row ∷ rows) = length row + total_length rows

-- The loops that convert the entries of each row in turn.
pub flattened : {A : Type 0} → (A → ℤ) → List (List A) → List ℤ
flattened to [] = []
flattened to (row ∷ rows) = map to row ++ flattened to rows

-- An array of `int`: its address and its entries.
abbrev pub IntArray : Type 0
IntArray = ℕ × List ℤ

-- What a caller gets for a resource: the copy of its name, its two numbers, its coupling map, the
-- number of entries of that, and the array of its gates' copies, each with its address.
pub record ResourceInfo : Type 0 where
  pub name : ℕ × Str
  pub qubit_count : ℕ
  pub online : Bool
  pub coupling_map : IntArray
  pub coupling_map_size : ℕ
  pub native_gateset : ℕ × List (ℕ × Gate)
  pub gate_count : ℕ

pub record GateInfo : Type 0 where
  pub name : ℕ × Str
  pub qubit_number : ℕ
  pub parameter_number : ℕ
  pub supported_qubits : IntArray
  pub supported_qubit_count : ℕ

-- A call's end: `failed n` for the code -n, after which the variables of the caller are not looked
-- at, or what it has written to them, with the code 0.
pub data Outcome (A : Type 0) : Type 0 where
  failed : ℕ → Outcome A
  succeeded : A → Outcome A

-- `static_cast<unsigned>` of a `size_t`.
abbrev pub low_word : ℕ → ℕ
low_word n = to_unsigned (pos n)

module _ (fits : ℕ → ℕ → Bool) where
  -- `flatten2D`, `none` for the null pointer. The count is not written then.
  unfoldable pub flatten_2d :
      {A : Type 0} → (A → ℤ) → List (List A) → Heap → Option (IntArray × ℕ) × Heap
  unfolding total_length flattened
  flatten_2d to input h =
      let (p, h') = malloc fits (4 * total_length input) h in
      elim p [
        | none ↦ (none, h')
        | some result ↦ (some ((result, flattened to input), low_word (total_length input)), h')
      ]

  -- `new Gate(gates[i])` for each gate. The size of a gate's object is an argument.
  pub new_gates : ℕ → List Gate → Heap → List (ℕ × Gate) × Heap
  new_gates size [] h = ([], h)
  new_gates size (g ∷ gs) h =
      let (copies, h') =
        new_gates size gs (record h { next = suc h.next; live = (h.next, size) ∷ h.live }) in
      ((h.next, g) ∷ copies, h')

  -- `MQSSClientResourceGetInfo`. `given` says whether the pointers to the outputs are not null.
  unfoldable pub resource_get_info :
      ℕ → Option Resource → (given : Bool) → Heap → Outcome ResourceInfo × Heap
  unfolding flatten_2d new_gates
  resource_get_info size resource false h = (failed 1, h)
  resource_get_info size none true h = (failed 2, h)
  resource_get_info size (some r) true h =
      let (name, h1) = malloc fits (length r.name + 1) h in
      elim name [
        | none ↦ (failed 3, h1)
        | some n ↦
            let (couplings, h2) = flatten_2d (λ q. q) r.coupling_map h1 in
            elim couplings [
              | none ↦ (failed 4, free (some n) h2)
              | some (couplings', count) ↦
                  let gates = r.native_gateset in
                  let (gateset, h3) = malloc fits (8 * length gates) h2 in
                  elim gateset [
                    | none ↦ (failed 5, free (some n) (free (some couplings'.0) h3))
                    | some g ↦
                        let (copies, h4) = new_gates size gates h3 in
                        (
                          succeeded (record {
                            name = (n, r.name ++ 0 ∷ []);
                            qubit_count = r.qubit_count;
                            online = r.online;
                            coupling_map = couplings';
                            coupling_map_size = count;
                            native_gateset = (g, copies);
                            gate_count = low_word (length gates);
                          }),
                          h4,
                        )
                  ]
            ]
      ]

  -- `MQSSClientResourceGetGateInfo`.
  unfoldable pub resource_get_gate_info :
      Option Gate → (given : Bool) → Heap → Outcome GateInfo × Heap
  unfolding flatten_2d
  resource_get_gate_info none given h = (failed 1, h)
  resource_get_gate_info (some g) false h = (failed 1, h)
  resource_get_gate_info (some g) true h =
      let (name, h1) = malloc fits (length g.name + 1) h in
      elim name [
        | none ↦ (failed 2, h1)
        | some n ↦
            let (qubits, h2) = flatten_2d to_int g.supported_qubits h1 in
            elim qubits [
              | none ↦ (failed 2, free (some n) h2)
              | some (qubits', count) ↦ (
                succeeded (record {
                  name = (n, g.name ++ 0 ∷ []);
                  qubit_number = g.qubit_number;
                  parameter_number = g.parameter_number;
                  supported_qubits = qubits';
                  supported_qubit_count = count;
                }),
                h2,
              )
            ]
      ]
