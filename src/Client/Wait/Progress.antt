-- ===== src/Client/Wait/Progress.antt =====
-- `waitForJobResult` against a server whose job is done after some time.
use mqss_client.Common.{
  ==_iff, ℕ, zero, suc, ◌+◌, ◌-◌, ◌≤◌, ◌<◌, min, ◌≡◌, refl, ap, sym, subst, ◌∙◌, inl, inr, Bool,
  Option, ◌++◌, arith, ◌==◌, Bool-cases,
}
use mqss_client.Common.Bytes.{Str, txt}
use mqss_client.Common.Bytes.Laws.{str_eq_refl}
use mqss_client.Common.Words.{pos}
use mqss_client.Common.Effects.{ok}
use mqss_client.Json.{JsonLib, IsDocumented}
use mqss_client.Transport.{BaseClient, Env, sleep, total_slept}
use mqss_client.Job.{JobRequest, JobResult}
use mqss_client.Client.{Result, job_path, get_job_status, fetch_result, wait_for_job_result}
use mqss_client.Client.Status.{Reports, get_job_status-IsStatus}
use mqss_client.Client.Wait.Bounds.{wait_for_job_result-round, status-slept}
use mqss_client.Client.Wait.Rounds.{IsPending}

module _ (J : JsonLib) {W : Type 0} (base : BaseClient J.Json W) (job : JobRequest) where
  -- The server answers with a JSON text that reports a status, goes on knowing the job, and changes
  -- nothing of the time that the job still needs.
  pub record Answers (knows : W → Type 0) (due : W → ℕ) (w : W) (status : Str) : Type 0 where
    pub resp : Str
    pub after : W
    pub answer : base.get (job_path job ++ txt "/status") w ≡ (ok resp, after)
    pub reports : Reports J resp status
    pub same : due after ≡ due w
    pub still : knows after

  -- A server that runs the job in the worlds where it knows it: as long as the job needs time, its
  -- status is reported as a pending one, then as completed; sleeping takes from the time that it
  -- needs. Nothing is said of worlds where the server does not know the job.
  pub record Runs (knows : W → Type 0) (due : W → ℕ) : Type 0 where
    pub busy :
        (w : W)
        → knows w
        → 0 < due w
        → (status : Str) × IsPending status × Answers knows due w status
    pub done : (w : W) → knows w → due w ≡ 0 → Answers knows due w (txt "COMPLETED")
    pub ticks :
        (n : ℕ) (w : W) → knows w → (due (base.elapse n w) ≡ due w - n) × (knows (base.elapse n w))

-- Sleeping less than what the job needs and another interval, after sleeping one.
later :
    (due due' n p before slept total : ℕ)
    → 0 < due
    → n ≤ p
    → due' ≡ due - n
    → slept ≡ n + before
    → (due' ≡ 0 → total ≡ slept)
    → total < slept + due' + p
    → total < before + due + p
later due due' n p before slept total positive small left counted at_once soon =
    elim (Bool-cases (due' == 0)) [
      | inl z ↦ let same = at_once (ground (arith, z)) in omega (arith, same)
      | inr nz ↦ ground arith
    ]

module _ (J : JsonLib) (doc : IsDocumented J) {W : Type 0} (base : BaseClient J.Json W)
    (is_hpc : Bool) (job : JobRequest) (knows : W → Type 0) (due : W → ℕ)
    (runs : Runs J base job knows due) where
  -- Asking for the status of such a job.
  record Asked (e : Env J.Json W) (status : Str) : Type 0 where
    next : Env J.Json W
    reported : get_job_status J base is_hpc job e ≡ (ok status, next)
    same : due next.world ≡ due e.world
    slept : total_slept next.trace ≡ total_slept e.trace
    still : knows next.world

  status-world :
      (e : Env J.Json W)
      → (get_job_status J base is_hpc job e).1.world
        ≡ (base.get (job_path job ++ txt "/status") e.world).1
  unfolding get_job_status
  status-world e = ground arith

  sleep-slept :
      (n : ℕ) (e : Env J.Json W) → total_slept (sleep base n e).1.trace ≡ n + total_slept e.trace
  unfolding total_slept
  sleep-slept n e = refl

  Reports-unique : (resp s t : Str) → Reports J resp s → Reports J resp t → s ≡ t
  Reports-unique resp s t r q = cc (r.parsed, q.parsed, r.found, q.found, r.text, q.text)

  ask :
      (e : Env J.Json W) (status : Str)
      → Answers J base job knows due e.world status
      → Asked e status
  ask e status a =
      let (s, read, is_status) =
        get_job_status-IsStatus J doc base is_hpc job e a.resp a.after a.answer in
      let agreed : s ≡ status = elim is_status [
        | inl r ↦ Reports-unique a.resp s status r a.reports
        | inr (_, unknown) ↦ absurd (unknown status a.reports)
      ] in
      let out = get_job_status J base is_hpc job e in
      record {
        next = out.1;
        reported = ap (λ r. (r, out.1)) (read ∙ ap ok agreed);
        same = ap due (status-world e ∙ ap (λ o. o.1) a.answer) ∙ a.same;
        slept = status-slept J base is_hpc job e;
        still = subst knows (sym (status-world e ∙ ap (λ o. o.1) a.answer)) a.still;
      }

  -- Fetching the result right after the job was reported as completed.
  pub record Completes (p : ℕ) (e : Env J.Json W) (out : Result (Option JobResult) × Env J.Json W)
      : Type 0 where
    pub before : Env J.Json W
    pub last : Env J.Json W
    pub reported : get_job_status J base is_hpc job before ≡ (ok (txt "COMPLETED"), last)
    pub fetched : out ≡ fetch_result J base is_hpc job last
    pub finished : due last.world ≡ 0
    pub known : knows last.world
    pub at_once : due e.world ≡ 0 → total_slept last.trace ≡ total_slept e.trace
    pub soon : total_slept last.trace < total_slept e.trace + due e.world + p

  completes :
      (f p t : ℕ) (e : Env J.Json W)
      → t ≤ f
      → 0 < p
      → 0 < t
      → knows e.world
      → due e.world + min t p ≤ t
      → Completes p e (wait_for_job_result J base is_hpc job (pos t) p e)
  completes zero p t e hf hp ht known enough = absurd (omega arith)
  completes (suc f) p t e hf hp ht known enough =
      rw (wait_for_job_result-round J base is_hpc job t p ht hp)
        (elim (Bool-cases (due e.world == 0)) [
          | inl over ↦
              let a = ask e (txt "COMPLETED") (runs.done e.world known (ground (arith, over))) in
              rw (a.reported, str_eq_refl (txt "COMPLETED"))
                (record {
                  before = e;
                  last = a.next;
                  reported = a.reported;
                  fetched = refl;
                  finished = a.same ∙ (==_iff _ _).0 over;
                  known = a.still;
                  at_once = λ _. a.slept;
                  soon = omega (arith, a.slept);
                })
          | inr more ↦
              let (status, (running, pending), answers) =
                runs.busy e.world known (ground (arith, more)) in
              let a = ask e status answers in
              let positive : 0 < due e.world = ground (arith, more) in
              let n = min t p in
              let e₁ = (sleep base n a.next).1 in
              let (ticked, still) = runs.ticks n a.next.world a.still in
              let left : due e₁.world ≡ due e.world - n = ticked ∙ ap (λ d. d - n) a.same in
              let ih =
                completes f p (t - n) e₁ (omega (arith, positive)) hp (omega (arith, positive))
                  still (omega (arith, positive, left)) in
              rw (a.reported, running, pending)
                (record {
                  before = ih.before;
                  last = ih.last;
                  reported = ih.reported;
                  fetched = ih.fetched;
                  finished = ih.finished;
                  known = ih.known;
                  at_once = λ z. absurd (ground (arith, more, z));
                  soon =
                      later (due e.world) (due e₁.world) n p _ _ _ positive (omega arith) left
                        (sleep-slept n a.next ∙ ap (λ k. n + k) a.slept) ih.at_once ih.soon;
                })
        ])

  -- Waiting with enough time comes to fetching the result.
  pub wait_for_job_result-Completes :
      (p t : ℕ) (e : Env J.Json W)
      → 0 < p
      → 0 < t
      → knows e.world
      → due e.world + min t p ≤ t
      → Completes p e (wait_for_job_result J base is_hpc job (pos t) p e)
  wait_for_job_result-Completes p t e hp ht known enough =
      completes t p t e (omega arith) hp ht known enough
