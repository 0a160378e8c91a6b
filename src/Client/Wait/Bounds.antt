-- ===== src/Client/Wait/Bounds.antt =====
-- How long `waitForJobResult` sleeps, and that its fuel is enough.
use mqss_client.Common.{
  false, ℕ, zero, suc, ◌+◌, ◌-◌, ◌≤◌, ◌<◌, min, ◌≡◌, refl, inl, inr, Bool, Option, none, [], arith,
  Bool-cases, ◌==◌, if◌then◌else◌,
}
use mqss_client.Common.Bytes.{txt, str_eq}
use mqss_client.Common.Words.{pos, pos}
use mqss_client.Common.Effects.{Exn, Result, ok, throw}
use mqss_client.Json.{JsonLib}
use mqss_client.Transport.{BaseClient, Env, M, pure, sleep, ◌>>=◌, ◌>>◌, and_then, total_slept}
use mqss_client.Job.{JobRequest, JobResult}
use mqss_client.Client.{
  wait_for_job_result, get_job_status, fetch_result, has_failed, wait_loop, wait_for_job_result,
}
use mqss_client.Client.Requests.{one_request}

-- What holds of a failed step, and of the rest after a step that succeeds, holds of both in a row.
and_then-cases :
    {Json W A B : Type 0} (P : Result B × Env Json W → Type 0) (o : Result A × Env Json W)
    (k : A → M Json W B)
    → ((x : Exn) → P (throw x, o.1))
    → ((a : A) → P (k a o.1))
    → P (and_then o k)
and_then-cases P (ok a, e) k failed went = went a
and_then-cases P (throw x, e) k failed went = failed x

module _ (J : JsonLib) {W : Type 0} (base : BaseClient J.Json W) (is_hpc : Bool) where
  pub status-slept :
      (job : JobRequest) (e : Env J.Json W)
      → total_slept (get_job_status J base is_hpc job e).1.trace ≡ total_slept e.trace
  unfolding total_slept
  status-slept job e = rw ((one_request J base is_hpc job [] e).4)

  pub fetch-slept :
      (job : JobRequest) (e : Env J.Json W)
      → total_slept (fetch_result J base is_hpc job e).1.trace ≡ total_slept e.trace
  unfolding total_slept
  fetch-slept job e = rw ((one_request J base is_hpc job [] e).5)

  wait_loop-slept :
      (f : ℕ) (job : JobRequest) (t p : ℕ) (e : Env J.Json W)
      → total_slept (wait_loop J base is_hpc f job t p e).1.trace ≤ total_slept e.trace + t
  unfolding wait_loop total_slept
  wait_loop-slept zero job t p e = omega arith
  wait_loop-slept (suc f) job t p e = elim (Bool-cases (t == 0)) [
    | inl over ↦ rw over (omega arith)
    | inr more ↦
        let e₁ = (get_job_status J base is_hpc job e).1 in
        let same = status-slept job e in
        let n = min t p in
        let later = wait_loop-slept f job (t - n) p (sleep base n e₁).1 in
        rw more (
          and_then-cases (λ o. total_slept o.1.trace ≤ total_slept e.trace + t)
            (get_job_status J base is_hpc job e) _ (λ x. omega (arith, same))
            λ status. elim (Bool-cases (str_eq status (txt "COMPLETED"))) [
              | inl done ↦ rw done (omega (arith, same, fetch-slept job e₁))
              | inr running ↦ rw running (elim (Bool-cases (has_failed status)) [
                | inl failed ↦ rw failed (omega (arith, same))
                | inr pending ↦ rw pending (omega (arith, same, later))
              ])
            ])
  ]

  -- Fuel above the timeout changes nothing, if polling takes time.
  wait_loop-fuel :
      (f g : ℕ) (job : JobRequest) (t p : ℕ)
      → t ≤ f
      → t ≤ g
      → 0 < p
      → wait_loop J base is_hpc f job t p ≡ wait_loop J base is_hpc g job t p
  unfolding wait_loop
  wait_loop-fuel zero zero job t p hf hg hp = refl
  wait_loop-fuel zero (suc g) job t p hf hg hp = let none_left : t ≡ 0 = omega arith in rw none_left
  wait_loop-fuel (suc f) zero job t p hf hg hp = let none_left : t ≡ 0 = omega arith in rw none_left
  wait_loop-fuel (suc f) (suc g) job t p hf hg hp = elim (Bool-cases (t == 0)) [
    | inl over ↦ rw over
    | inr more ↦
        rw more (rw (wait_loop-fuel f g job (t - min t p) p (ground arith) (ground arith) hp))
  ]

  -- One round of the loop, before what follows it.
  abbrev pub round : JobRequest → ℕ → M J.Json W (Option JobResult) → M J.Json W (Option JobResult)
  round job n next = do
    status ← get_job_status J base is_hpc job
    if str_eq status (txt "COMPLETED")
        then fetch_result J base is_hpc job
        else if has_failed status
        then pure none
        else sleep base n >> next

  -- With polling every p seconds, p at least 1, and time left, waiting is one round and then
  -- waiting for the time that is left: the fuel of the loop, its timeout, is always enough.
  pub wait_for_job_result-round :
      (job : JobRequest) (t p : ℕ)
      → 0 < t
      → 0 < p
      → wait_for_job_result J base is_hpc job (pos t) p
        ≡ round job (min t p) (wait_for_job_result J base is_hpc job (pos (t - min t p)) p)
  unfolding wait_for_job_result
  wait_for_job_result-round job zero p ht hp = absurd (omega arith)
  wait_for_job_result-round job (suc t) p ht hp =
      let more : (suc t == 0) ≡ false = ground arith in
      rw more (
        rw (
          wait_loop-fuel t (suc t - min (suc t) p) job (suc t - min (suc t) p) p (omega arith)
            (omega arith) hp))

  -- Waiting sleeps no longer than its timeout, whatever the server answers and however it ends.
  pub wait_for_job_result-slept :
      (job : JobRequest) (t p : ℕ) (e : Env J.Json W)
      → total_slept (wait_for_job_result J base is_hpc job (pos t) p e).1.trace
        ≤ total_slept e.trace + t
  unfolding wait_for_job_result
  wait_for_job_result-slept job t p e = wait_loop-slept t job t p e
