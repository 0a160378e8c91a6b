-- ===== src/Tests/ServiceTests.antt =====
-- A server with a table of jobs, which gives each its own identifier, runs it for a time that depends
-- on its kind, and knows nothing of jobs that were not submitted.
use mqss_client.Common.{
  ℕ, ◌-◌, ◌==◌, ==_iff, ◌≡◌, refl, ap, ◌∙◌, true, false, Option, none, some, List, [], ◌∷◌, ◌++◌,
  arith, if◌then◌else◌, length, Bool-cases, inl, inr,
}
use mathlib.Core.Option
use mqss_client.Common.Bytes.{Str, txt, str_eq, is_empty}
use mqss_client.Common.Bytes.Laws.{str_eq_refl, str_eq_iff, str_eq-append}
use mqss_client.Common.Words.{pos}
use mqss_client.Common.Effects.{ok, >>=-eq-ok}
use mqss_client.Standard.Map.{insert}
use mqss_client.Transport.{BaseClient, Env}
use mqss_client.Job.{
  JobKind, circuit, hamiltonian, JobRequest, JobResult, get_path, path_of, set_uuid,
  job_result_of_json,
}
use mqss_client.Job.Encoding.{read_job, read_circuit_job, read_hamiltonian_job}
use mqss_client.Client.{submit_job, wait_for_job_result, job_path}
use mqss_client.Client.Wait.Progress.{Answers, Runs}
use mqss_client.Client.Wait.Delivery.{Keeps}
use mqss_client.Client.Service.{IsService, submit_job-computed}
use mqss_client.Tests.SampleJson.{Value, str, sample-IsDocumented, sample-MakesValues}
use mqss_client.Tests.SampleServer.{
  library, texts, running, completed, result, result_value, energy, energy_value, ising,
}
use mqss_client.Tests.ClientTests.{bell_result}

-- What a page says while a job needs time, and then.
pub record Page : Type 0 where
  pub left : ℕ
  pub before : Str
  pub done : Str

-- The pages that the server has, the latest first.
abbrev pub Table : Type 0
Table = List (Str × Page)

abbrev page_at : Str → Table → Option Page
page_at path [] = none
page_at path ((p, page) ∷ rest) =
    let older = page_at path rest in if str_eq p path then some page else older

abbrev shown : Page → Str
shown page = if page.left == 0 then page.done else page.before

abbrev text_of : Option Page → Str
text_of none = []
text_of (some page) = shown page

-- The text of a page, empty for one that is missing.
abbrev pub answer_at : Str → Table → Str
answer_at path w = text_of (page_at path w)

abbrev seconds_at : Str → ℕ
seconds_at path = if str_eq path (txt "job") then 3 else 5

abbrev result_at : Str → Str
result_at path = if str_eq path (txt "job") then result else energy

abbrev new_uuid : Table → Str
new_uuid w = length w ∷ []

abbrev pub submitted_at : Table → Str
submitted_at w = b'#' ∷ new_uuid w

abbrev status_page : ℕ → Page
status_page n = record { left = n; before = running; done = completed }

abbrev result_page : ℕ → Str → Page
result_page n text = record { left = n; before = []; done = text }

abbrev pub with_job : Str → Table → Table
with_job path w =
    let job = path ++ (txt "/" ++ new_uuid w) in
    (job ++ txt "/status", status_page (seconds_at path))
    ∷ (job ++ txt "/result", result_page (seconds_at path) (result_at path))
    ∷ w

abbrev aged : ℕ → Page → Page
aged n page = record page { left = page.left - n }

abbrev pub later : ℕ → Table → Table
later n [] = []
later n ((p, page) ∷ rest) = (p, aged n page) ∷ later n rest

page_at-later :
    (path : Str) (n : ℕ) (w : Table)
    → page_at path (later n w) ≡ Option.map (aged n) (page_at path w)
page_at-later path n [] = refl
page_at-later path n ((p, page) ∷ rest) = elim (Bool-cases (str_eq p path)) [
  | inl here ↦ rw here refl
  | inr other ↦ rw other (page_at-later path n rest)
]

abbrev pub duration : JobKind → ℕ
duration kind = seconds_at (path_of kind)

abbrev pub energy_result : JobResult
energy_result = record {
  results = ((txt "0", 60) ∷ []) ∷ [];
  timestamp_completed = txt "2026-05-26 11:26:07.615381";
  timestamp_submitted = txt "2026-05-25 08:52:14.503964";
  timestamp_scheduled = txt "2026-05-26 08:07:40.026325";
}

abbrev pub compute : JobKind → JobResult
compute (circuit r) = bell_result
compute (hamiltonian r) = energy_result

-- The kind of a request that can be read is told by its path.
read_job-path :
    (path : Str) (body : Value) (kind : JobKind)
    → read_job library path body ≡ ok kind
    → path ≡ path_of kind
unfolding path_of
read_job-path path body kind h = elim (Bool-cases (str_eq path (txt "job"))) [
  | inl is_job ↦
      let (r, _, e) = >>=-eq-ok (read_circuit_job library body) _ (rw is_job at h) in
      let same : circuit r ≡ kind = cc e in (str_eq_iff _ _).0 is_job ∙ ap path_of same
  | inr other ↦ elim (Bool-cases (str_eq path (txt "hamiltonian_job"))) [
    | inr neither ↦ cc (rw (other, neither) at h)
    | inl is_job ↦
        let (r, _, e) = >>=-eq-ok (read_hamiltonian_job library body) _ (rw (other, is_job) at h) in
        let same : hamiltonian r ≡ kind = cc e in (str_eq_iff _ _).0 is_job ∙ ap path_of same
  ]
]

-- The server has the pages of a job, with the time that it still needs.
abbrev Knows : JobRequest → Table → Type 0
Knows job w =
    (n : ℕ) × (page_at (job_path job ++ txt "/status") w ≡ some (status_page n))
    × (page_at (job_path job ++ txt "/result") w
        ≡ some (result_page n (result_at (path_of job.kind))))

abbrev left_of : Option Page → ℕ
left_of none = 0
left_of (some page) = page.left

abbrev due : JobRequest → Table → ℕ
due job w = left_of (page_at (job_path job ++ txt "/status") w)

-- A transport with such a server behind it.
module _ (base : BaseClient Value Table)
    (gets : (path : Str) (w : Table) → base.get path w ≡ (ok (answer_at path w), w))
    (elapses : (n : ℕ) (w : Table) → base.elapse n w ≡ later n w) (job : JobRequest) where
  Answers-left :
      (n : ℕ) (w : Table)
      → page_at (job_path job ++ txt "/status") w ≡ some (status_page n)
      → Knows job w
      → Answers library base job
          (Knows job)
          (due job)
          w
          (if n == 0 then txt "COMPLETED" else txt "RUNNING")
  unfolding str_eq
  Answers-left n w there known = elim (Bool-cases (n == 0)) [
    | inl over ↦ rw over (record {
      resp = completed;
      after = w;
      answer =
          gets (job_path job ++ txt "/status") w
          ∙ ap (λ t. (ok t, w)) (ap text_of there ∙ rw over refl);
      reports = record {
        value = _;
        member = str (txt "COMPLETED");
        parsed = refl;
        found = refl;
        text = refl;
      };
      same = refl;
      still = known;
    })
    | inr more ↦ rw more (record {
      resp = running;
      after = w;
      answer =
          gets (job_path job ++ txt "/status") w
          ∙ ap (λ t. (ok t, w)) (ap text_of there ∙ rw more refl);
      reports = record {
        value = _;
        member = str (txt "RUNNING");
        parsed = refl;
        found = refl;
        text = refl;
      };
      same = refl;
      still = known;
    })
  ]

  job-Runs : Runs library base job (Knows job) (due job)
  unfolding str_eq is_empty
  job-Runs = record {
    busy = λ w (n, there, kept) more.
        let some_time : (n == 0) ≡ false = ground (arith, (rw there at more)) in
        (txt "RUNNING", (refl, refl), rw some_time at (Answers-left n w there (n, there, kept)));
    done = λ w (n, there, kept) over.
        let no_time : (n == 0) ≡ true = (==_iff n 0).1 (rw there at over) in
        rw no_time at (Answers-left n w there (n, there, kept));
    ticks = λ n w (m, there, kept).
        let aged_status = page_at-later (job_path job ++ txt "/status") n w in
        let aged_result = page_at-later (job_path job ++ txt "/result") n w in
        (
          rw (elapses n w, aged_status, there) refl,
          rw (elapses n w) (m - n, rw (aged_status, there) refl, rw (aged_result, kept) refl),
        );
  }

  result_value_at : JobKind → Value
  result_value_at (circuit r) = result_value
  result_value_at (hamiltonian r) = energy_value

  job-parsed :
      (kind : JobKind) → library.parse (result_at (path_of kind)) ≡ ok (result_value_at kind)
  unfolding path_of str_eq result_value_at
  job-parsed (circuit r) = refl
  job-parsed (hamiltonian r) = refl

  job-read :
      (kind : JobKind) → job_result_of_json library (result_value_at kind) ≡ ok (compute kind)
  unfolding job_result_of_json result_value_at insert str_eq
  job-read (circuit r) = refl
  job-read (hamiltonian r) = refl

  job-Keeps : Keeps library base job (Knows job) (due job) (compute job.kind)
  job-Keeps = record {
    resp = λ w. result_at (path_of job.kind);
    value = λ w. result_value_at job.kind;
    after = λ w. w;
    answer = λ w (n, there, kept) over.
        let no_time : (n == 0) ≡ true = (==_iff n 0).1 (rw there at over) in
        gets (job_path job ++ txt "/result") w
        ∙ ap (λ t. (ok t, w)) (ap text_of kept ∙ rw no_time refl);
    parsed = λ w. job-parsed job.kind;
    read = λ w. job-read job.kind;
  }

-- The pages of the job that is submitted.
status_page-there :
    (path : Str) (w : Table)
    → page_at ((path ++ (txt "/" ++ new_uuid w)) ++ txt "/status") (with_job path w)
      ≡ some (status_page (seconds_at path))
status_page-there path w =
    rw (str_eq_refl ((path ++ (txt "/" ++ new_uuid w)) ++ txt "/status")) refl

result_page-there :
    (path : Str) (w : Table)
    → page_at ((path ++ (txt "/" ++ new_uuid w)) ++ txt "/result") (with_job path w)
      ≡ some (result_page (seconds_at path) (result_at path))
unfolding str_eq
result_page-there path w =
    let job = path ++ (txt "/" ++ new_uuid w) in
    let apart : str_eq (job ++ txt "/status") (job ++ txt "/result") ≡ false =
      str_eq-append job (txt "/status") (txt "/result") in
    rw (apart, str_eq_refl (job ++ txt "/result")) refl

module _ (base : BaseClient Value Table)
    (gets : (path : Str) (w : Table) → base.get path w ≡ (ok (answer_at path w), w))
    (posts : (path : Str) (body : Value) (w : Table)
      → base.post path body w ≡ (ok (submitted_at w), with_job path w))
    (elapses : (n : ℕ) (w : Table) → base.elapse n w ≡ later n w) where
  pub gives-IsService : IsService library base duration compute
  unfolding str_eq get_path
  gives-IsService path body kind w readable =
      let job : JobRequest = record { uuid = new_uuid w; kind = kind } in
      let same : path ≡ path_of kind = read_job-path path body kind readable in
      rw same (record {
        resp = submitted_at w;
        after = with_job (path_of kind) w;
        member = str (new_uuid w);
        uuid = new_uuid w;
        answer = posts (path_of kind) body w;
        has_uuid = record { value = _; parsed = refl; found = refl };
        text = refl;
        knows = Knows job;
        due = due job;
        known = (
          seconds_at (path_of kind),
          status_page-there (path_of kind) w,
          result_page-there (path_of kind) w,
        );
        starts = ap left_of (status_page-there (path_of kind) w);
        runs = job-Runs base gets elapses job;
        keeps = job-Keeps base gets elapses job;
      })

abbrev service : BaseClient Value Table
service = record {
  get = λ path w. (ok (answer_at path w), w);
  post = λ path body w. (ok (submitted_at w), with_job path w);
  del = λ path w. (ok tt, w);
  elapse = later;
}

is_service : IsService library service duration compute
is_service = gives-IsService service (λ path w. refl) (λ path body w. refl) (λ n w. refl)

-- Another job has been submitted, and a second ago.
abbrev pub busy : Table
busy = later 1 (with_job (txt "job") [])

-- A job that was not submitted is not known.
unknown_test : answer_at (txt "hamiltonian_job/1/status") busy ≡ []
unfolding str_eq
unknown_test = refl

submit_job-computed_example :
    (uuid : Str) × (e₁ : Env Value Table) × (submit_job library service false ising
        (record { world = busy; trace = [] })
      ≡ (ok (some uuid, set_uuid uuid ising), e₁))
    × ((wait_for_job_result library service false (set_uuid uuid ising) (pos 10) 2 e₁).0
        ≡ ok (some energy_result))
unfolding path_of str_eq
submit_job-computed_example =
    submit_job-computed library (sample-IsDocumented texts) (sample-MakesValues texts) service false
      duration compute is_service ising (record { world = busy; trace = [] }) 2 10 tt (omega arith)
      (omega arith) (omega arith)
