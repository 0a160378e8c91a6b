-- ===== src/Resource/Gates.antt =====
-- The native gates: the table of `getGateProterties`, and each gate on its own.
use mqss_client.Common.{◌≡◌, refl, Option, none, some, List, [], ◌∷◌, All, arith}
use mqss_client.Common.Bytes.{Str}
use mqss_client.Common.Effects.{Result, ok, >>=-eq-ok, ◌>>=◌}
use mqss_client.Standard.Regex.{find_all, group}
use mqss_client.Json.{JsonLib}
use mqss_client.Resource.{Gate, read_gates, read_tuples, gate_properties, listed, extract_gates}
use mqss_client.Resource.Patterns.{gate_pattern, tuple_pattern}

-- The arity and the number of parameters of a gate are those of the table for its name.
abbrev pub IsTabled : Gate → Type 0
IsTabled g = gate_properties g.name ≡ ok (g.qubit_number, g.parameter_number)

-- The gate that one match describes, read with no gate before it.
pub read_gate : List Str → Result Gate
read_gate m = do
  tuples ← read_tuples [] (find_all tuple_pattern (group 9 3 m))
  (qubits, parameters) ← gate_properties (group 3 2 m)
  ok (record {
    name = group 3 2 m;
    qubit_number = qubits;
    parameter_number = parameters;
    supported_qubits = tuples;
  })

abbrev pub map_result : {A B : Type 0} → (A → Result B) → List A → Result (List B)
map_result f [] = ok []
map_result f (x ∷ xs) = do y ← f x; ys ← map_result f xs; ok (y ∷ ys)

read_gates-map_result : (ms : List (List Str)) → read_gates [] ms ≡ map_result read_gate ms
unfolding read_gates read_gate
read_gates-map_result [] = refl
read_gates-map_result (m ∷ ms) = ground (arith, read_gates-map_result ms)

read_gates-IsTabled :
    (ms : List (List Str)) (gs : List Gate) → read_gates [] ms ≡ ok gs → All IsTabled gs
unfolding read_gates
read_gates-IsTabled [] [] e = tt
read_gates-IsTabled [] (_ ∷ _) e = cc
read_gates-IsTabled (m ∷ ms) gs e =
    let (tuples, et, e₁) = >>=-eq-ok (read_tuples [] (find_all tuple_pattern (group 9 3 m))) _ e in
    let (counts, ec, e₂) = >>=-eq-ok (gate_properties (group 3 2 m)) _ e₁ in
    let (rest, er, e₃) = >>=-eq-ok (read_gates [] ms) _ e₂ in
    let first : Gate = record {
      name = group 3 2 m;
      qubit_number = counts.0;
      parameter_number = counts.1;
      supported_qubits = tuples;
    } in
    let same : first ∷ rest ≡ gs = cc in rw (← same) (ec, read_gates-IsTabled ms rest er)

module _ (J : JsonLib) where
  -- Every gate that is read carries the numbers of the table for its name; so a gateset with an
  -- unknown name is never returned.
  pub extract_gates-IsTabled :
      (response : J.Json) (key : Str) (gs : List Gate)
      → extract_gates J response key ≡ ok gs
      → All IsTabled gs
  unfolding extract_gates
  extract_gates-IsTabled response key gs e =
      let (found, _, e') = >>=-eq-ok (listed J response key) _ e in gates found e'
    where
      gates :
          (found : Option Str)
          → (elim found [ none ↦ ok [] | some text ↦ read_gates [] (find_all gate_pattern text) ])
            ≡ ok gs
          → All IsTabled gs
      gates none q = read_gates-IsTabled [] gs q
      gates (some text) q = read_gates-IsTabled _ gs q
