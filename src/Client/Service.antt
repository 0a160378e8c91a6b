-- ===== src/Client/Service.antt =====
-- A job from its submission to its result, with a server that runs jobs.
use mqss_client.Common.{ℕ, ◌≤◌, ◌<◌, ◌+◌, min, ◌≡◌, ap, sym, subst, ◌∙◌, Bool, Option, some, arith}
use mqss_client.Common.Bytes.{Str, txt}
use mqss_client.Common.Words.{pos}
use mqss_client.Common.Effects.{Result, ok}
use mqss_client.Json.{JsonLib, IsDocumented, MakesValues}
use mqss_client.Json.Members.{HasMember, HasMember-unique}
use mqss_client.Transport.{BaseClient, Env}
use mqss_client.Job.{JobKind, JobRequest, JobResult, get_path, set_uuid, to_json}
use mqss_client.Job.Encoding.{read_job, IsUnsigned, read_job-to_json}
use mqss_client.Client.{submit_job, wait_for_job_result}
use mqss_client.Client.Submit.{IsSubmitted, named, misnamed, unnamed, submit_job-IsSubmitted}
use mqss_client.Client.Wait.Progress.{Runs}
use mqss_client.Client.Wait.Delivery.{Keeps, wait_for_job_result-IsDelivered}

module _ (J : JsonLib) {W : Type 0} (base : BaseClient J.Json W) where
  -- A request was accepted: the answer has an identifier, from then on the server knows the job of
  -- that identifier, and while it knows the job it runs it, for a duration, and keeps its result.
  pub record Accepts (duration : ℕ) (result : JobResult) (kind : JobKind) (path : Str)
      (body : J.Json) (w : W) : Type 1 where
    pub resp : Str
    pub after : W
    pub member : J.Json
    pub uuid : Str
    pub answer : base.post path body w ≡ (ok resp, after)
    pub has_uuid : HasMember J resp (txt "uuid") member
    pub text : J.get_string member ≡ ok uuid
    pub knows : W → Type 0
    pub due : W → ℕ
    pub known : knows after
    pub starts : due after ≡ duration
    pub runs : Runs J base (record { uuid = uuid; kind = kind }) knows due
    pub keeps : Keeps J base (record { uuid = uuid; kind = kind }) knows due result

  -- A server that accepts every request that it can read, and computes a result for it.
  abbrev pub IsService : (JobKind → ℕ) → (JobKind → JobResult) → Type 1
  IsService duration compute =
      (path : Str) (body : J.Json) (kind : JobKind) (w : W)
      → read_job J path body ≡ ok kind
      → Accepts (duration kind) (compute kind) kind path body w

module _ (J : JsonLib) (doc : IsDocumented J) (made : MakesValues J) {W : Type 0}
    (base : BaseClient J.Json W) (is_hpc : Bool) (duration : JobKind → ℕ)
    (compute : JobKind → JobResult) (service : IsService J base duration compute) where
  submit_job-world :
      (job : JobRequest) (e : Env J.Json W)
      → (submit_job J base is_hpc job e).1.world
        ≡ (base.post (get_path job) (to_json J is_hpc job) e.world).1
  unfolding submit_job
  submit_job-world job e = ground arith

  submitted-uuid :
      (job : JobRequest) (resp uuid : Str) (member : J.Json)
      (out : Result (Option Str × JobRequest))
      → IsSubmitted J job resp out
      → HasMember J resp (txt "uuid") member
      → J.get_string member ≡ ok uuid
      → out ≡ ok (some uuid, set_uuid uuid job)
  submitted-uuid job resp uuid member _ (named m u h read) has text =
      let one : m ≡ member = HasMember-unique J resp (txt "uuid") m member h has in
      let same : u ≡ uuid = cc (one, read, text) in ap (λ v. ok (some v, set_uuid v job)) same
  submitted-uuid job resp uuid member _ (misnamed m h other) has text =
      let one : m ≡ member = HasMember-unique J resp (txt "uuid") m member h has in
      absurd (cc (one, doc.get_string_throws m other, text))
  submitted-uuid job resp uuid member _ (unnamed nothing) has text = absurd (nothing member has)

  -- Over a server that accepts every request it can read, gives it an identifier and from then on
  -- knows the job, runs it for a duration and keeps its result, a job comes to what the server
  -- computes for it: if the JSON library behaves as documented, submitting a job whose number of
  -- shots is an unsigned returns an identifier and the job with it, and waiting for that job, with
  -- polling every p seconds, p at least 1, and a timeout of at least its duration and one interval,
  -- or any timeout above 0 for a job without duration, returns the result that the server computes
  -- for the submitted request.
  pub submit_job-computed :
      (job : JobRequest) (e : Env J.Json W) (p t : ℕ)
      → IsUnsigned J job.kind
      → 0 < p
      → 0 < t
      → duration job.kind + min t p ≤ t
      → (uuid : Str) × (e₁ : Env J.Json W) × (submit_job J base is_hpc job e
          ≡ (ok (some uuid, set_uuid uuid job), e₁))
        × ((wait_for_job_result J base is_hpc (set_uuid uuid job) (pos t) p e₁).0
            ≡ ok (some (compute job.kind)))
  submit_job-computed job e p t small hp ht enough =
      let a =
        service (get_path job) (to_json J is_hpc job) job.kind e.world
          (read_job-to_json J doc made is_hpc job small) in
      let out = submit_job J base is_hpc job e in
      let submitted =
        submitted-uuid job a.resp a.uuid a.member out.0
          (submit_job-IsSubmitted J doc base is_hpc job e a.resp a.after a.answer) a.has_uuid
          a.text in
      let moved : out.1.world ≡ a.after = submit_job-world job e ∙ ap (λ o. o.1) a.answer in
      let started : a.due out.1.world ≡ duration job.kind = ap a.due moved ∙ a.starts in
      let delivered =
        wait_for_job_result-IsDelivered J doc base is_hpc (set_uuid a.uuid job) a.knows a.due a.runs
          (compute job.kind) a.keeps p t out.1 hp ht (subst a.knows (sym moved) a.known)
          (omega (arith, started, enough)) in
      (a.uuid, out.1, ap (λ r. (r, out.1)) submitted, delivered.returned)
