-- ===== src/Job/Encoding.antt =====
-- The JSON of a job request, read again.
use mqss_client.Common.{
  ◌<◌, ◌^◌, ◌≡◌, refl, ◌∙◌, Bool, true, false, List, [], ◌∷◌, some, if◌then◌else◌,
}
use mqss_client.Common.Bytes.{Str, txt, str_eq}
use mqss_client.Common.Effects.{Result, ok, throw, json_error, ◌>>=◌, >>=-ok}
use mqss_client.Standard.Map.{lookup}
use mqss_client.Json.{JsonLib, IsDocumented, MakesValues}
use mqss_client.Job.{
  CircuitJobRequest, HamiltonianJobRequest, JobKind, circuit, hamiltonian, JobRequest,
  circuit_job_request, hamiltonian_job_request, circuit_to_json, hamiltonian_to_json, to_json,
  get_path, path_of, kind_to_json, string_at,
}

module _ (J : JsonLib) where
  open J use {Json, at, is_array, elements, get_string, get_unsigned, get_bool}

  -- The first of a list of texts.
  first_string : List Json → Result Str
  first_string [] = throw json_error
  first_string (j ∷ js) = get_string j

  -- What a request is for one who receives it: the circuit is a text, or the first of a list.
  abbrev text_of : Json → Result Str
  text_of j = if is_array j then first_string (elements j) else get_string j

  pub read_circuit_job : Json → Result CircuitJobRequest
  read_circuit_job j = do
    c ← at j (txt "circuit")
    source ← text_of c
    circuit_format ← string_at J j (txt "circuit_format")
    resource_name ← string_at J j (txt "resource_name")
    s ← at j (txt "shots")
    shots ← get_unsigned s
    n ← at j (txt "no_modify")
    no_modify ← get_bool n
    q ← at j (txt "queued")
    queued ← get_bool q
    ok (circuit_job_request source circuit_format resource_name shots no_modify queued)

  pub read_hamiltonian_job : Json → Result HamiltonianJobRequest
  read_hamiltonian_job j = do
    resource_name ← string_at J j (txt "resource_name")
    interaction_str ← string_at J j (txt "interaction_str")
    coefficients_str ← string_at J j (txt "coefficients_str")
    ok (hamiltonian_job_request resource_name interaction_str coefficients_str)

  -- The path says of which kind a request is.
  abbrev pub read_job : Str → Json → Result JobKind
  read_job path j =
      if str_eq path (txt "job")
      then (do r ← read_circuit_job j; ok (circuit r))
      else if str_eq path (txt "hamiltonian_job")
      then (do r ← read_hamiltonian_job j; ok (hamiltonian r))
      else throw json_error

  -- The number of shots is an `unsigned`.
  abbrev pub IsUnsigned : JobKind → Type 0
  IsUnsigned (circuit r) = r.shots < 2 ^ 32
  IsUnsigned (hamiltonian r) = Unit

module _ (J : JsonLib) (doc : IsDocumented J) (made : MakesValues J) where
  open J use {Json, object, at, string}

  at-object :
      (members : List (Str × Json)) (k : Str) (v : Json)
      → lookup k members ≡ some v
      → at (object members) k ≡ ok v
  at-object members k v h = doc.at_found (object members) k v (made.find_object members k ∙ h)

  string_at-object :
      (members : List (Str × Json)) (k s : Str)
      → lookup k members ≡ some (string s)
      → string_at J (object members) k ≡ ok s
  unfolding string_at
  string_at-object members k s h = rw (at-object members k (string s) h) (made.get_string_made s)

  text_of-made :
      (is_hpc : Bool) (s : Str)
      → text_of J (if is_hpc then J.array (string s ∷ []) else string s) ≡ ok s
  unfolding first_string
  text_of-made true s =
      rw (made.is_array_made (string s ∷ []), made.elements_made (string s ∷ []))
        (made.get_string_made s)
  text_of-made false s = rw (made.is_array_string s) (made.get_string_made s)

  read_circuit_job-to_json :
      (is_hpc : Bool) (r : CircuitJobRequest)
      → r.shots < 2 ^ 32
      → read_circuit_job J (circuit_to_json J is_hpc r) ≡ ok r
  unfolding read_circuit_job circuit_to_json lookup str_eq
  read_circuit_job-to_json is_hpc r small = >>=-ok _ (at-object _ _ _ refl) (
      >>=-ok _ (text_of-made is_hpc r.circuit) (
        >>=-ok _ (string_at-object _ _ _ refl) (
          >>=-ok _ (string_at-object _ _ _ refl) (
            >>=-ok _ (at-object _ _ _ refl) (
              >>=-ok _ (made.get_unsigned_made r.shots small) (
                >>=-ok _ (at-object _ _ _ refl) (
                  >>=-ok _ (made.get_bool_made r.no_modify) (
                    >>=-ok _ (at-object _ _ _ refl)
                      (>>=-ok _ (made.get_bool_made r.queued) refl)))))))))

  read_hamiltonian_job-to_json :
      (r : HamiltonianJobRequest) → read_hamiltonian_job J (hamiltonian_to_json J r) ≡ ok r
  unfolding read_hamiltonian_job hamiltonian_to_json lookup str_eq
  read_hamiltonian_job-to_json r =
      >>=-ok _ (string_at-object _ _ _ refl)
        (>>=-ok _ (string_at-object _ _ _ refl) (>>=-ok _ (string_at-object _ _ _ refl) refl))

  read_kind-to_json :
      (is_hpc : Bool) (kind : JobKind)
      → IsUnsigned J kind
      → read_job J (path_of kind) (kind_to_json J is_hpc kind) ≡ ok kind
  unfolding path_of kind_to_json str_eq
  read_kind-to_json is_hpc (circuit r) small =
      >>=-ok _ (read_circuit_job-to_json is_hpc r small) refl
  read_kind-to_json is_hpc (hamiltonian r) small = >>=-ok _ (read_hamiltonian_job-to_json r) refl

  -- A job request is read again from what is posted for it, its path and its JSON: by one who takes
  -- the kind of the request from the path, the circuit as a text or the first of a list, and the
  -- other members as texts, numbers and flags; for every job whose number of shots is an unsigned,
  -- with the list for the broker or without, if the JSON library behaves as documented.
  pub read_job-to_json :
      (is_hpc : Bool) (job : JobRequest)
      → IsUnsigned J job.kind
      → read_job J (get_path job) (to_json J is_hpc job) ≡ ok job.kind
  unfolding get_path to_json
  read_job-to_json is_hpc job small = read_kind-to_json is_hpc job.kind small
