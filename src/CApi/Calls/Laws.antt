-- ===== src/CApi/Calls/Laws.antt =====
-- What a C caller gets from the client's operations.
use mqss_client.Common.{
  ◌⊎◌, ℕ, ◌*◌, ◌^◌, ◌<◌, ◌≡◌, refl, Bool, true, none, some, List, ◌∷◌, length, map,
}
use mqss_client.Common.Words.{pos, to_int}
use mqss_client.Common.Effects.{ok}
use mqss_client.Standard.ToString.{numeral}
use mqss_client.Json.{JsonLib}
use mqss_client.Transport.{BaseClient, Env}
use mqss_client.Resource.{Resource}
use mqss_client.Job.{JobRequest}
use mqss_client.Resource.Couplings.{stoi-numeral_lem}
use mqss_client.Client.{submit_job}
use mqss_client.CApi.Heap.{refused, Heap, IsFreed, stack, refused}
use mqss_client.CApi.Calls.{job_number, mqss_client_submit_job, Resources}

module _ (J : JsonLib) {W : Type 0} (base : BaseClient J.Json W) (is_hpc : Bool) where
  -- If submitJob returns the decimal numeral of a number below 2^31 as identifier,
  -- MQSSClientSubmitJob returns that number, with the same job and the same effects.
  pub submit_job-numeral :
      (job job' : JobRequest) (n : ℕ) (e e' : Env J.Json W)
      → n < 2 ^ 31
      → submit_job J base is_hpc job e ≡ (ok (some (numeral n), job'), e')
      → mqss_client_submit_job J base is_hpc true job e ≡ (ok (pos n, job'), e')
  unfolding mqss_client_submit_job
  submit_job-numeral job job' n e e' small h = rw (h, job_number, stoi-numeral_lem n small) refl

  module _ (fits : ℕ → ℕ → Bool) (size : ℕ) where
    -- The resources that a caller has been given as an array: a copy of each, in order, with their
    -- number, and the blocks for them above those that were there; or none, and no block.
    abbrev pub AreGiven : List Resource → Heap → Resources × Heap → Type 0
    AreGiven rs h out =
        (out.0.1 ≡ some (to_int (length rs)))
        × (((out.0.0 ≡ none) × IsFreed h out.1)
            ⊎ ((array : ℕ) × (copies : List (ℕ × Resource)) × (out.0.0 ≡ some (array, copies))
                × (map (λ c. c.1) copies ≡ rs)
                × (out.1.live
                    ≡ stack (map (λ c. (c.0, size)) copies) ((array, 8 * length rs) ∷ h.live))))
