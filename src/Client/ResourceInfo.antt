-- ===== src/Client/ResourceInfo.antt =====
-- `getResourceInfo` from the server's text to the resource.
use mqss_client.Common.{
  ℕ, ◌≡◌, refl, ap, Bool, true, false, none, some, List, [], ◌++◌, map, All, is_some, ◌∙◌,
}
use mqss_client.Common.Bytes.{Str, txt, find}
use mqss_client.Common.Effects.{ok, is_ok}
use mqss_client.Json.{JsonLib, IsDocumented}
use mqss_client.Transport.{BaseClient, Env}
use mqss_client.Resource.{Resource, qubit_count, resource_of_json}
use mqss_client.Resource.Couplings.{
  AreInts, row, print_couplings, extract_coupling_map-print_couplings,
}
use mqss_client.Resource.GateText.{IsPrintable, print_gates, extract_gates-print_gates}
use mqss_client.Client.{get_resource_info}

module _ (J : JsonLib) where
  open J use {
    Json, item, contains, is_string, is_number, get_string, get_unsigned, value_string, value_bool,
  }

  -- The text of a member that is a string.
  pub record Says (json : Json) (key text : Str) : Type 0 where
    pub member : Json
    pub found : J.find json key ≡ some member
    pub string : is_string member ≡ true
    pub read : get_string member ≡ ok text

  -- A JSON value that describes a resource, with its couplings, pairs of numbers below 2^31, and its
  -- gates printed as texts.
  pub record Describes (json : Json) (r : Resource) : Type 0 where
    pub couplings : List (ℕ × ℕ)
    pub ints : AreInts couplings
    pub rows : map row couplings ≡ r.coupling_map
    pub printable : All IsPrintable r.native_gateset
    pub name : value_string json (txt "name") [] ≡ ok r.name
    pub qubits : Json
    pub qubits_there : contains json (txt "qubits") ≡ true
    pub qubits_found : item json (txt "qubits") ≡ ok qubits
    pub qubits_number : is_number qubits ≡ true
    pub qubits_read : get_unsigned qubits ≡ ok r.qubit_count
    pub online : value_bool json (txt "online") false ≡ ok r.online
    pub connectivity : Says json (txt "connectivity") (print_couplings couplings)
    pub instructions : Says json (txt "instructions") (print_gates r.native_gateset)

  pub resource_of_json-Describes :
      (json : Json) (r : Resource) → Describes json r → resource_of_json J json ≡ ok r
  unfolding resource_of_json qubit_count
  resource_of_json-Describes json r d =
      let c = d.connectivity in
      let g = d.instructions in
      let couplings =
        extract_coupling_map-print_couplings J json c.member (txt "connectivity") d.couplings
          c.found c.string c.read d.ints in
      let gates =
        extract_gates-print_gates J json g.member (txt "instructions") r.native_gateset g.found
          g.string g.read d.printable in
      rw
        (
          d.name, d.qubits_there, d.qubits_found, d.qubits_number, d.qubits_read, d.online,
          couplings, gates, d.rows,
        )
        refl

  module _ {W : Type 0} (base : BaseClient J.Json W) (is_hpc : Bool) where
    -- If the JSON library behaves as documented and the transport answers with a JSON text that has
    -- no "RESOURCE NOT FOUND" in it and no member "ERROR", and that describes a resource, with its
    -- couplings, pairs of numbers below 2^31, and its gates, of the table, printed as texts, then
    -- getResourceInfo returns that resource.
    pub get_resource_info-Describes :
        (doc : IsDocumented J) (name resp : Str) (json : Json) (r : Resource) (e : Env J.Json W)
        (w : W)
        → base.get (txt "resources/" ++ name) e.world ≡ (ok resp, w)
        → find resp (txt "RESOURCE NOT FOUND") ≡ none
        → J.parse resp ≡ ok json
        → J.find json (txt "ERROR") ≡ none
        → Describes json r
        → (get_resource_info J base is_hpc name e).0 ≡ ok (some r)
    unfolding get_resource_info
    get_resource_info-Describes doc name resp json r e w answer known parsed no_error d =
        let accepted : J.accept resp ≡ true = doc.parse_accepted resp ∙ ap is_ok parsed in
        let fine : contains json (txt "ERROR") ≡ false =
          doc.contains_found json (txt "ERROR") ∙ ap is_some no_error in
        rw (answer, known, accepted, parsed, fine, resource_of_json-Describes json r d) refl
