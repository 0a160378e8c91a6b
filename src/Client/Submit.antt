-- ===== src/Client/Submit.antt =====
-- `submitJob`: the job learns the identifier that is returned, and is left alone otherwise.
use mqss_client.Common.{◌≡◌, Bool, false, Option, none, some, [], ◌∷◌, arith, Bool-cases, inl, inr}
use mqss_client.Common.Bytes.{Str, txt, is_empty}
use mqss_client.Common.Effects.{Result, ok, throw, json_error}
use mqss_client.Json.{JsonLib, IsDocumented}
use mqss_client.Json.Members.{
  HasMember, look, refused, absent, present, refused-member, absent-member,
}
use mqss_client.Transport.{BaseClient, Env}
use mqss_client.Job.{JobRequest, get_path, set_uuid, to_json}
use mqss_client.Client.{submit_job}
use mqss_client.Client.Status.{get_string-ok}

-- What is left of the job: with an identifier it is the same job under that identifier.
abbrev pub Labelled : JobRequest → Option Str × JobRequest → Type 0
Labelled job (none, job') = job' ≡ job
Labelled job (some uuid, job') = (job'.uuid ≡ uuid) × (job'.kind ≡ job.kind)

module _ (J : JsonLib) {W : Type 0} (base : BaseClient J.Json W) (is_hpc : Bool) where
  -- If submitJob returns an identifier, the job carries it and is otherwise unchanged; if it
  -- returns none, the job is unchanged.
  pub submit_job-Labelled :
      (job : JobRequest) (e e' : Env J.Json W) (r : Option Str × JobRequest)
      → submit_job J base is_hpc job e ≡ (ok r, e')
      → Labelled job r
  unfolding submit_job
  submit_job-Labelled job e e' (none, job') h = ground arith
  submit_job-Labelled job e e' (some uuid, job') h = (ground arith, ground arith)

module _ (J : JsonLib) where
  open J use {Json, is_string, get_string}

  -- What submitting a job comes to, by the answer: an identifier, which the job then carries; an
  -- exception, for a member "uuid" that is no string; or no identifier.
  pub data IsSubmitted (job : JobRequest) (resp : Str)
      : Result (Option Str × JobRequest) → Type 0 where
    named :
        (member : Json) (uuid : Str)
        → HasMember J resp (txt "uuid") member
        → get_string member ≡ ok uuid
        → IsSubmitted job resp (ok (some uuid, set_uuid uuid job))
    misnamed :
        (member : Json)
        → HasMember J resp (txt "uuid") member
        → is_string member ≡ false
        → IsSubmitted job resp (throw json_error)
    unnamed :
        ((member : Json) → ¬ HasMember J resp (txt "uuid") member)
        → IsSubmitted job resp (ok (none, job))

module _ (J : JsonLib) (doc : IsDocumented J) {W : Type 0} (base : BaseClient J.Json W)
    (is_hpc : Bool) where
  open J use {accept, is_string, get_string}

  -- If the transport answers and the JSON library behaves as documented, submitting a job returns
  -- the identifier that the answer has as its member "uuid", which the job then carries, and no
  -- identifier with the job unchanged exactly if the answer is no JSON or has no such member; a
  -- member that is no string makes it throw.
  pub submit_job-IsSubmitted :
      (job : JobRequest) (e : Env J.Json W) (resp : Str) (w : W)
      → base.post (get_path job) (to_json J is_hpc job) e.world ≡ (ok resp, w)
      → IsSubmitted J job resp (submit_job J base is_hpc job e).0
  unfolding submit_job is_empty
  submit_job-IsSubmitted job e [] w answer =
      rw answer (unnamed (λ v. refused-member J doc [] (txt "uuid") v doc.accept_empty))
  submit_job-IsSubmitted job e (c ∷ cs) w answer = elim (look J doc (c ∷ cs) (txt "uuid")) [
    | refused not_json ↦
        rw (answer, not_json) (unnamed (λ v. refused-member J doc (c ∷ cs) (txt "uuid") v not_json))
    | absent j accepted parsed missing without ↦
        rw (answer, accepted, parsed, without)
          (unnamed (λ v. absent-member J doc (c ∷ cs) (txt "uuid") j v parsed missing))
    | present j v accepted parsed found there taken ↦
        let member : HasMember J (c ∷ cs) (txt "uuid") v = record {
          value = j;
          parsed = parsed;
          found = found;
        } in
        elim (Bool-cases (is_string v)) [
          | inr other ↦
              rw (answer, accepted, parsed, there, taken, doc.get_string_throws v other)
                (misnamed v member other)
          | inl text ↦
              let (s, read) = get_string-ok J doc v text in
              rw (answer, accepted, parsed, there, taken, read) (named v s member read)
        ]
  ]
