-- ===== src/Client/Wait/Rounds.antt =====
-- `waitForJobResult` as a state machine: which runs of polls and sleeps lead to its answers.
use mqss_client.Common.{
  Bool-cases, zero, suc, arith, inl, inr, none, ◌⊎◌, ◌∙◌, subst, ◌↔◌, ◌≤◌, ℕ, ◌-◌, ◌<◌, min, ◌≡◌,
  refl, Bool, true, false, Option, none,
}
use mqss_client.Common.Bytes.{Str, txt, str_eq}
use mqss_client.Common.Words.{pos}
use mqss_client.Common.Effects.{Result, ok, throw, Exn}
use mqss_client.Common.Bytes.{is_empty}
use mqss_client.Common.Bytes.Laws.{str_eq_iff, str_eq_refl}
use mqss_client.Json.{JsonLib}
use mqss_client.Transport.{BaseClient, Env, sleep}
use mqss_client.Job.{JobRequest, JobResult}
use mqss_client.Client.{is_empty, get_job_status, fetch_result, has_failed, wait_for_job_result}
use mqss_client.Client.Wait.Bounds.{wait_for_job_result-round}

-- A status at which the client goes on waiting.
abbrev pub IsPending : Str → Type 0
IsPending status = (str_eq status (txt "COMPLETED") ≡ false) × (has_failed status ≡ false)

not_completed : (status : Str) → has_failed status ≡ true → str_eq status (txt "COMPLETED") ≡ false
unfolding str_eq is_empty
not_completed status h = elim (Bool-cases (str_eq status (txt "COMPLETED"))) [
  | inr other ↦ other
  | inl done ↦ let same = (str_eq_iff status (txt "COMPLETED")).0 done in cc (rw same at h)
]

Outcome-cases :
    {A E : Type 0} (o : Result A × E)
    → ((a : A) × (e : E) × (o ≡ (ok a, e))) ⊎ ((x : Exn) × (e : E) × (o ≡ (throw x, e)))
Outcome-cases (ok a, e) = inl (a, e, refl)
Outcome-cases (throw x, e) = inr (x, e, refl)

module _ (J : JsonLib) {W : Type 0} (base : BaseClient J.Json W) (is_hpc : Bool)
    (job : JobRequest) where
  -- `Polls p t e t' e'`: from `e`, with `t` seconds left, the server reports a pending status again
  -- and again, with a sleep of `p` seconds after each or of the time left if that is less, up to
  -- `e'`, with `t'` seconds left.
  pub data Polls (p : ℕ) : ℕ → Env J.Json W → ℕ → Env J.Json W → Type 0 where
    here : {t : ℕ} {e : Env J.Json W} → Polls p t e t e
    poll :
        {t t' : ℕ} {e e₁ e' : Env J.Json W} (status : Str)
        → 0 < t
        → get_job_status J base is_hpc job e ≡ (ok status, e₁)
        → IsPending status
        → Polls p (t - min t p) (sleep base (min t p) e₁).1 t' e'
        → Polls p t e t' e'

  -- Pending polls do not change what waiting comes to.
  wait-zero :
      (p : ℕ) (e : Env J.Json W) → wait_for_job_result J base is_hpc job (pos 0) p e ≡ (ok none, e)
  unfolding wait_for_job_result
  wait-zero p e = refl

  wait-Polls :
      (p : ℕ) {t t' : ℕ} {e e' : Env J.Json W}
      → 0 < p
      → Polls p t e t' e'
      → wait_for_job_result J base is_hpc job (pos t) p e
        ≡ wait_for_job_result J base is_hpc job (pos t') p e'
  wait-Polls p hp here = refl
  wait-Polls p {t} {e = e} hp (poll {e₁} status ht reported (running, pending) rest) =
      rw (wait_for_job_result-round J base is_hpc job t p ht hp)
        (rw (reported, running, pending) (wait-Polls p hp rest))

  -- How waiting ends: the time is up, the job is done and its result is fetched, the job has failed
  -- or its status is unknown, or asking for the status throws.
  pub data Ends (p : ℕ) (t : ℕ) (e : Env J.Json W)
      : Result (Option JobResult) × Env J.Json W → Type 0 where
    timed_out : t ≡ 0 → Ends p t e (ok none, e)
    completed :
        (e₁ : Env J.Json W)
        → 0 < t
        → get_job_status J base is_hpc job e ≡ (ok (txt "COMPLETED"), e₁)
        → Ends p t e (fetch_result J base is_hpc job e₁)
    failed :
        (status : Str) (e₁ : Env J.Json W)
        → 0 < t
        → get_job_status J base is_hpc job e ≡ (ok status, e₁)
        → has_failed status ≡ true
        → Ends p t e (ok none, e₁)
    broken :
        (x : Exn) (e₁ : Env J.Json W)
        → 0 < t
        → get_job_status J base is_hpc job e ≡ (throw x, e₁)
        → Ends p t e (throw x, e₁)

  -- A row of pending polls and then one of the four ends.
  pub record Explained (p t : ℕ) (e : Env J.Json W) (out : Result (Option JobResult) × Env J.Json W)
      : Type 0 where
    pub left : ℕ
    pub last : Env J.Json W
    pub polls : Polls p t e left last
    pub ends : Ends p left last out

  wait-Ends :
      (p t : ℕ) (e : Env J.Json W) (out : Result (Option JobResult) × Env J.Json W)
      → 0 < p
      → Ends p t e out
      → wait_for_job_result J base is_hpc job (pos t) p e ≡ out
  wait-Ends p t e out hp (timed_out over) = rw over (rw wait-zero)
  wait-Ends p t e out hp (completed e₁ ht reported) =
      rw (wait_for_job_result-round J base is_hpc job t p ht hp)
        (rw (reported, str_eq_refl (txt "COMPLETED")))
  wait-Ends p t e out hp (failed status e₁ ht reported gave_up) =
      rw (wait_for_job_result-round J base is_hpc job t p ht hp)
        (rw (reported, not_completed status gave_up, gave_up))
  wait-Ends p t e out hp (broken x e₁ ht reported) =
      rw (wait_for_job_result-round J base is_hpc job t p ht hp) (rw reported)

  explain :
      (f p t : ℕ) (e : Env J.Json W)
      → t ≤ f
      → 0 < p
      → Explained p t e (wait_for_job_result J base is_hpc job (pos t) p e)
  explain f p zero e hf hp =
      rw wait-zero (record { left = 0; last = e; polls = here; ends = timed_out refl })
  explain zero p (suc t) e hf hp = absurd (omega arith)
  explain (suc f) p (suc t) e hf hp =
      rw (wait_for_job_result-round J base is_hpc job (suc t) p (omega arith) hp)
        (elim (Outcome-cases (get_job_status J base is_hpc job e)) [
          | inr (x, e₁, thrown) ↦ rw thrown (record {
            left = suc t;
            last = e;
            polls = here;
            ends = broken x e₁ (omega arith) thrown;
          })
          | inl (status, e₁, reported) ↦
              rw reported (elim (Bool-cases (str_eq status (txt "COMPLETED"))) [
                | inl done ↦
                    let same : status ≡ txt "COMPLETED" = (str_eq_iff _ _).0 done in
                    rw done (record {
                      left = suc t;
                      last = e;
                      polls = here;
                      ends = completed e₁ (omega arith) (rw (← same) reported);
                    })
                | inr running ↦ rw running (elim (Bool-cases (has_failed status)) [
                  | inl gave_up ↦ rw gave_up (record {
                    left = suc t;
                    last = e;
                    polls = here;
                    ends = failed status e₁ (omega arith) reported gave_up;
                  })
                  | inr pending ↦
                      let n = min (suc t) p in
                      let ih = explain f p (suc t - n) (sleep base n e₁).1 (omega arith) hp in
                      rw pending (record {
                        left = ih.left;
                        last = ih.last;
                        polls = poll status (omega arith) reported (running, pending) ih.polls;
                        ends = ih.ends;
                      })
                ])
              ])
        ])

  -- Waiting, with polling every p seconds, p at least 1, comes to an outcome exactly if a row of
  -- pending polls, each followed by a sleep, leads to one of four ends with that outcome: the time
  -- is up and there is no result; the job is done and its result is fetched; it has failed, was
  -- cancelled or has no status and there is no result; or asking for the status throws.
  pub wait_for_job_result-Explained :
      (p t : ℕ) (e : Env J.Json W) (out : Result (Option JobResult) × Env J.Json W)
      → 0 < p
      → (wait_for_job_result J base is_hpc job (pos t) p e ≡ out) ↔ Explained p t e out
  wait_for_job_result-Explained p t e out hp = (
    λ same. subst (Explained p t e) same (explain t p t e (omega arith) hp),
    λ x. wait-Polls p hp x.polls ∙ wait-Ends p x.left x.last out hp x.ends,
  )
