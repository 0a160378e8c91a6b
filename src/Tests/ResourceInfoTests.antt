-- ===== src/Tests/ResourceInfoTests.antt =====
-- A resource asked for by its name.
use mqss_client.Common.{false, arith, ◌≡◌, refl, true, some, All, [], ◌∷◌}
use mqss_client.Common.Bytes.{txt, str_eq, find, starts_with}
use mqss_client.Common.Words.{pos}
use mqss_client.Common.Effects.{ok}
use mqss_client.Resource.{Resource, gate_properties}
use mqss_client.Resource.Couplings.{print_couplings}
use mqss_client.Resource.GateText.{IsPrintable, print_gates}
use mqss_client.Resource.TupleText.{entries}
use mqss_client.Standard.ToString.{numeral}
use mqss_client.Client.{get_resource_info}
use mqss_client.Client.ResourceInfo.{Describes, get_resource_info-Describes}
use mqss_client.Tests.SampleJson.{str, num, sample-IsDocumented}
use mqss_client.Tests.SampleServer.{texts, library, scripted, at_start, fake, fake_value}

abbrev fake_resource : Resource
fake_resource = record {
  name = txt "Fake";
  qubit_count = 5;
  online = true;
  coupling_map = (pos 0 ∷ pos 2 ∷ []) ∷ (pos 2 ∷ pos 0 ∷ []) ∷ [];
  native_gateset =
      record {
        name = txt "r";
        qubit_number = 1;
        parameter_number = 2;
        supported_qubits = (0 ∷ []) ∷ (1 ∷ []) ∷ [];
      }
      ∷ [];
}

fake-IsPrintable : All IsPrintable fake_resource.native_gateset
unfolding gate_properties str_eq
fake-IsPrintable = (
  record {
    first = b'r';
    others = [];
    named = refl;
    unquoted = (refl, tt);
    tabled = refl;
    ints = omega arith;
  },
  tt,
)

fake-Describes : Describes library fake_value fake_resource
unfolding str_eq print_couplings print_gates numeral entries
fake-Describes = record {
  couplings = (0, 2) ∷ (2, 0) ∷ [];
  ints = omega arith;
  rows = refl;
  printable = fake-IsPrintable;
  name = refl;
  qubits = num 5;
  qubits_there = refl;
  qubits_found = refl;
  qubits_number = refl;
  qubits_read = refl;
  online = refl;
  connectivity = record {
    member = str (txt "[[0, 2], [2, 0]]");
    found = refl;
    string = refl;
    read = refl;
  };
  instructions = record {
    member = str (txt "[('r', {(0,): None, (1,): None})]");
    found = refl;
    string = refl;
    read = refl;
  };
}

get_resource_info-Describes_example :
    (get_resource_info library scripted false (txt "Fake") (at_start (fake ∷ []))).0
    ≡ ok (some fake_resource)
unfolding str_eq find starts_with
get_resource_info-Describes_example =
    get_resource_info-Describes library scripted false (sample-IsDocumented texts) (txt "Fake") fake
      fake_value fake_resource (at_start (fake ∷ [])) [] refl refl refl refl fake-Describes
