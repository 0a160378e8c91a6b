-- ===== src/Client/Wait/Delivery.antt =====
-- The result of a job that a server runs and keeps comes back from waiting.
use mqss_client.Common.{
  ℕ, ◌+◌, ◌≤◌, ◌<◌, min, ◌≡◌, refl, ap, ◌∙◌, Bool, Option, some, [], ◌∷◌, ◌++◌, arith,
}
use mqss_client.Common.Bytes.{Str, txt, is_empty}
use mqss_client.Common.Words.{pos}
use mqss_client.Common.Effects.{ok, is_ok}
use mqss_client.Json.{JsonLib, IsDocumented}
use mqss_client.Transport.{BaseClient, Env, total_slept}
use mqss_client.Job.{JobRequest, JobResult, job_result_of_json}
use mqss_client.Client.{Result, job_path, fetch_result, wait_for_job_result}
use mqss_client.Client.Wait.Bounds.{fetch-slept}
use mqss_client.Client.Wait.Progress.{Runs, wait_for_job_result-Completes}

-- A server that, once a job that it knows needs no more time, answers with a JSON text that is read
-- as a result.
pub record Keeps (J : JsonLib) {W : Type 0} (base : BaseClient J.Json W) (job : JobRequest)
    (knows : W → Type 0) (due : W → ℕ) (result : JobResult) : Type 0 where
  pub resp : W → Str
  pub value : W → J.Json
  pub after : W → W
  pub answer :
      (w : W)
      → knows w
      → due w ≡ 0
      → base.get (job_path job ++ txt "/result") w ≡ (ok (resp w), after w)
  pub parsed : (w : W) → J.parse (resp w) ≡ ok (value w)
  pub read : (w : W) → job_result_of_json J (value w) ≡ ok result

module _ (J : JsonLib) (doc : IsDocumented J) {W : Type 0} (base : BaseClient J.Json W)
    (is_hpc : Bool) (job : JobRequest) where
  fetch_result-read :
      (e : Env J.Json W) (resp : Str) (value : J.Json) (w : W) (r : JobResult)
      → base.get (job_path job ++ txt "/result") e.world ≡ (ok resp, w)
      → J.parse resp ≡ ok value
      → job_result_of_json J value ≡ ok r
      → (fetch_result J base is_hpc job e).0 ≡ ok (some r)
  unfolding fetch_result is_empty
  fetch_result-read e [] value w r answer parsed read =
      absurd (cc (doc.parse_accepted [], doc.accept_empty, ap is_ok parsed))
  fetch_result-read e (c ∷ cs) value w r answer parsed read =
      let accepted = doc.parse_accepted (c ∷ cs) ∙ ap is_ok parsed in
      rw (answer, accepted, parsed, read) refl

  module _ (knows : W → Type 0) (due : W → ℕ) (runs : Runs J base job knows due)
      (result : JobResult) (keeps : Keeps J base job knows due result) where
    -- The result is there, and the sleeping went on for less than the time that the job needed and
    -- another interval, or not at all for a job that was done.
    pub record IsDelivered (p : ℕ) (e : Env J.Json W)
        (out : Result (Option JobResult) × Env J.Json W) : Type 0 where
      pub returned : out.0 ≡ ok (some result)
      pub at_once : due e.world ≡ 0 → total_slept out.1.trace ≡ total_slept e.trace
      pub soon : total_slept out.1.trace < total_slept e.trace + due e.world + p

    -- The result of a job that a server completes in time comes back: if the JSON library behaves
    -- as documented, the server knows the job and, as long as it knows it, reports a pending status
    -- while the job needs time, then that it is completed, answers with a text that is read as a
    -- result once it is, and goes on knowing the job when asked and over time, then waiting with
    -- polling every p seconds, p at least 1, and a timeout of at least the time that the job needs
    -- and one interval, or any timeout above 0 for a job that is done, returns that result, after
    -- sleeping less than the time that was needed and one interval, and not at all if none was.
    pub wait_for_job_result-IsDelivered :
        (p t : ℕ) (e : Env J.Json W)
        → 0 < p
        → 0 < t
        → knows e.world
        → due e.world + min t p ≤ t
        → IsDelivered p e (wait_for_job_result J base is_hpc job (pos t) p e)
    wait_for_job_result-IsDelivered p t e hp ht known enough =
        let c =
          wait_for_job_result-Completes J doc base is_hpc job knows due runs p t e hp ht known
            enough in
        let w = c.last.world in
        let same : total_slept (fetch_result J base is_hpc job c.last).1.trace
            ≡ total_slept c.last.trace =
          fetch-slept J base is_hpc job c.last in
        rw c.fetched (record {
          returned =
              fetch_result-read c.last (keeps.resp w) (keeps.value w) (keeps.after w) result
                (keeps.answer w c.known c.finished) (keeps.parsed w) (keeps.read w);
          at_once = λ z. same ∙ c.at_once z;
          soon = omega (arith, same, c.soon);
        })
