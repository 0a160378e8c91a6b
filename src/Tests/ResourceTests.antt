-- ===== src/Tests/ResourceTests.antt =====
-- Resources.
use mqss_client.Common.{List, arith, map, All, ℕ, ◌≡◌, refl, [], ◌∷◌}
use mqss_client.Common.Bytes.{Str, txt, str_eq}
use mqss_client.Common.Words.{pos, to_unsigned}
use mqss_client.Common.Effects.{ok}
use mqss_client.Standard.Regex.{find_all}
use mqss_client.Standard.Stoi.{stoi}
use mqss_client.Resource.{gate_properties, Gate, extract_coupling_map, extract_gates}
use mqss_client.Resource.Couplings.{print_couplings, row, extract_coupling_map-print_couplings}
use mqss_client.Resource.Ints.{IsPair, extract_coupling_map-IsPair}
use mqss_client.Resource.Gates.{IsTabled, extract_gates-IsTabled}
use mqss_client.Resource.GateText.{IsPrintable, print_gates, extract_gates-print_gates}
use mqss_client.Tests.SampleJson.{Value, sample, str, obj, end, field}

couplings :
    extract_coupling_map
      (sample [])
      (obj (field (txt "connectivity") (str (txt "[[0, 2], [12,0]]")) end))
      (txt "connectivity")
    ≡ ok ((pos 0 ∷ pos 2 ∷ []) ∷ (pos 12 ∷ pos 0 ∷ []) ∷ [])
unfolding extract_coupling_map find_all stoi str_eq
couplings = refl

gates :
    extract_gates
      (sample [])
      (obj (
        field (txt "k") (str (txt "[('r',{(0,):None, (1,):None}), (\"cz\", {(0, 1): None})]")) end))
      (txt "k")
    ≡ ok (
        record {
          name = txt "r";
          qubit_number = 1;
          parameter_number = 2;
          supported_qubits = (0 ∷ []) ∷ (1 ∷ []) ∷ [];
        }
        ∷ record {
          name = txt "cz";
          qubit_number = 2;
          parameter_number = 0;
          supported_qubits = (0 ∷ 1 ∷ []) ∷ [];
        }
        ∷ [])
unfolding extract_gates find_all stoi str_eq to_unsigned
gates = refl

abbrev response : Str → Value
response text = obj (field (txt "k") (str text) end)

abbrev line : List (ℕ × ℕ)
line = (0, 2) ∷ (12, 0) ∷ []

extract_coupling_map-print_couplings_example :
    extract_coupling_map (sample []) (response (print_couplings line)) (txt "k") ≡ ok (map row line)
unfolding str_eq
extract_coupling_map-print_couplings_example =
    extract_coupling_map-print_couplings (sample []) (response (print_couplings line))
      (str (print_couplings line)) (txt "k") line refl refl refl (omega arith)

extract_coupling_map-IsPair_example : All IsPair ((pos 0 ∷ pos 2 ∷ []) ∷ (pos 12 ∷ pos 0 ∷ []) ∷ [])
extract_coupling_map-IsPair_example =
    extract_coupling_map-IsPair (sample [])
      (obj (field (txt "connectivity") (str (txt "[[0, 2], [12,0]]")) end)) (txt "connectivity")
      ((pos 0 ∷ pos 2 ∷ []) ∷ (pos 12 ∷ pos 0 ∷ []) ∷ []) couplings

abbrev gateset : List Gate
gateset =
    record {
      name = txt "r";
      qubit_number = 1;
      parameter_number = 2;
      supported_qubits = (0 ∷ []) ∷ (1 ∷ []) ∷ [];
    }
    ∷ record {
      name = txt "cz";
      qubit_number = 2;
      parameter_number = 0;
      supported_qubits = (0 ∷ 1 ∷ []) ∷ [];
    }
    ∷ []

gateset-IsPrintable : All IsPrintable gateset
unfolding gate_properties str_eq
gateset-IsPrintable = (
  record {
    first = b'r';
    others = [];
    named = refl;
    unquoted = (refl, tt);
    tabled = refl;
    ints = omega arith;
  },
  (
    record {
      first = b'c';
      others = txt "z";
      named = refl;
      unquoted = (refl, (refl, tt));
      tabled = refl;
      ints = omega arith;
    },
    tt,
  ),
)

extract_gates-print_gates_example :
    extract_gates (sample []) (response (print_gates gateset)) (txt "k") ≡ ok gateset
unfolding str_eq
extract_gates-print_gates_example =
    extract_gates-print_gates (sample []) (response (print_gates gateset))
      (str (print_gates gateset)) (txt "k") gateset refl refl refl gateset-IsPrintable

gateset-IsTabled : All IsTabled gateset
gateset-IsTabled =
    extract_gates-IsTabled (sample [])
      (obj (
        field (txt "k") (str (txt "[('r',{(0,):None, (1,):None}), (\"cz\", {(0, 1): None})]")) end))
      (txt "k") gateset gates
