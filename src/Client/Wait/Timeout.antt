-- ===== src/Client/Wait/Timeout.antt =====
-- The timeout of `getJobResult`: a `size_t` that `waitForJobResult` takes as an `int`.
use mqss_client.Common.{◌-◌, ℕ, ◌^◌, ◌≤◌, ◌<◌, ◌≡◌, true, none, arith}
use mqss_client.Common.Words.{pos, negsuc, to_int}
use mqss_client.Common.Effects.{ok}
use mqss_client.Json.{JsonLib}
use mqss_client.Transport.{BaseClient, Env}
use mqss_client.Job.{JobRequest}
use mqss_client.Client.{Bool, wait_for_job_result, get_job_result}

to_int-small : (n : ℕ) → n < 2 ^ 31 → to_int n ≡ pos n
unfolding to_int
to_int-small n h = ground arith

to_int-large : (n : ℕ) → 2 ^ 31 ≤ n → n < 2 ^ 32 → (m : ℕ) × (to_int n ≡ negsuc m)
unfolding to_int
to_int-large n l h = (2 ^ 32 - 1 - n, ground arith)

module _ (J : JsonLib) {W : Type 0} (base : BaseClient J.Json W) (is_hpc : Bool)
    (job : JobRequest) where
  -- Waiting with a timeout below 2^31 polls every two seconds for that long; with one from 2^31 up
  -- to 2^32 it returns no result at once, without a request.
  pub get_job_result-timeout :
      (timeout : ℕ)
      → (timeout < 2 ^ 31
          → get_job_result J base is_hpc job true timeout
            ≡ wait_for_job_result J base is_hpc job (pos timeout) 2)
        × (2 ^ 31 ≤ timeout
            → timeout < 2 ^ 32
            → (e : Env J.Json W) → get_job_result J base is_hpc job true timeout e ≡ (ok none, e))
  unfolding get_job_result wait_for_job_result
  get_job_result-timeout timeout = (
    λ h. rw (to_int-small timeout h),
    λ l h e. let (m, wrapped) = to_int-large timeout l h in rw wrapped,
  )
