-- ===== src/Client/Status.antt =====
-- `getJobStatus`: the status that the server reports, or the empty string.
use mqss_client.Common.{
  ap, some, ◌≡◌, refl, ap, ◌⊎◌, inl, inr, Bool, true, false, some, [], ◌∷◌, ◌++◌, arith, Bool-cases,
}
use mqss_client.Common.Bytes.{Str, txt, is_empty}
use mqss_client.Common.Effects.{ok, is_ok, Result-cases}
use mqss_client.Json.{JsonLib, IsDocumented}
use mqss_client.Json.Members.{look, refused, absent, present, refused-member}
use mqss_client.Transport.{BaseClient, Env}
use mqss_client.Job.{JobRequest}
use mqss_client.Client.{get_job_status, job_path}

module _ (J : JsonLib) where
  open J use {Json, parse, find, get_string}

  -- The text is a JSON value whose member "status" is the string `s`.
  pub record Reports (resp s : Str) : Type 0 where
    pub value : Json
    pub member : Json
    pub parsed : parse resp ≡ ok value
    pub found : find value (txt "status") ≡ some member
    pub text : get_string member ≡ ok s

  -- The status that a response stands for: the empty string if it reports none.
  abbrev pub IsStatus : Str → Str → Type 0
  IsStatus resp s = Reports resp s ⊎ ((s ≡ []) × ((t : Str) → ¬ Reports resp t))

module _ (J : JsonLib) (doc : IsDocumented J) where
  open J use {Json, accept, parse, find, contains, item, is_string, get_string}

  pub get_string-ok : (j : Json) → is_string j ≡ true → (s : Str) × (get_string j ≡ ok s)
  get_string-ok j h = elim (Result-cases (get_string j)) [
    | inl text ↦ text
    | inr (x, e) ↦ absurd (ground (arith, doc.get_string_kind j, ap is_ok e))
  ]

  unread : (resp s : Str) → accept resp ≡ false → ¬ Reports J resp s
  unread resp s not_json r =
      refused-member J doc resp (txt "status") r.member not_json
        (record { value = r.value; parsed = r.parsed; found = r.found })

  module _ {W : Type 0} (base : BaseClient J.Json W) (is_hpc : Bool) where
    -- If the transport answers and the JSON library behaves as documented, the status is read and
    -- nothing is thrown, whatever the answer is: the result is the string that the answer reports,
    -- or empty if it reports none.
    pub get_job_status-IsStatus :
        (job : JobRequest) (e : Env J.Json W) (resp : Str) (w : W)
        → base.get (job_path job ++ txt "/status") e.world ≡ (ok resp, w)
        → (s : Str) × ((get_job_status J base is_hpc job e).0 ≡ ok s) × IsStatus J resp s
    unfolding get_job_status is_empty
    get_job_status-IsStatus job e [] w answer =
        ([], rw answer, inr (refl, λ t r. unread [] t doc.accept_empty r))
    get_job_status-IsStatus job e (c ∷ cs) w answer = elim (look J doc (c ∷ cs) (txt "status")) [
      | refused not_json ↦
          ([], rw (answer, not_json), inr (refl, λ t r. unread (c ∷ cs) t not_json r))
      | absent j accepted parsed missing without ↦ (
        [],
        rw (answer, accepted, parsed, without),
        inr (refl, λ t r. cc (parsed, r.parsed, r.found, missing)),
      )
      | present j it accepted parsed found there taken ↦ elim (Bool-cases (is_string it)) [
        | inr other ↦ (
          [],
          rw (answer, accepted, parsed, there, taken, other),
          inr (
            refl,
            λ t r. cc (parsed, r.parsed, r.found, found, r.text, doc.get_string_throws it other),
          ),
        )
        | inl text ↦
            let (s, read) = get_string-ok it text in
            (
              s,
              rw (answer, accepted, parsed, there, taken, text) read,
              inl (record { value = j; member = it; parsed = parsed; found = found; text = read }),
            )
      ]
    ]
