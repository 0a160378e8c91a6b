-- ===== src/CApi/Handles/Sessions.antt =====
-- Everything that a C caller does with clients, jobs and results, in any order.
use mqss_client.Common.{
  All, ◌<◌, ℕ, ◌≡◌, refl, sym, subst, ap, ◌∙◌, Bool, true, Option, none, some, [], ◌++◌,
}
use mathlib.Core.Option
use mqss_client.Common.Bytes.{Str}
use mqss_client.Common.Words.{ℤ}
use mqss_client.Common.Effects.{ok}
use mqss_client.Json.{JsonLib}
use mqss_client.Transport.{BaseClient, Env, and_then-returned}
use mqss_client.Job.{JobRequest, JobResult}
use mqss_client.RabbitMq.{Amqp}
use mqss_client.Rest.Request.{Curl}
use mqss_client.Client.{submit_job}
use mqss_client.Client.Connect.{MqssClient}
use mqss_client.Client.Submit.{Labelled, submit_job-Labelled}
use mqss_client.CApi.Heap.{Heap, IsFreed, AreApart}
use mqss_client.CApi.Calls.{mqss_client_submit_job, mqss_client_get_job_result}
use mqss_client.CApi.Handles.{
  Object, client_object, job_object, result_object, Store, Sizes, job_size, object_at, put, job_at,
  as_job, free_job, free_job_result, free_client, new_handle, new_circuit_job, new_hamiltonian_job,
  new_client_object, submit_job_at, get_job_result_at, submit_found, result_of_found,
}
use mqss_client.CApi.Handles.Lifetimes.{
  blocks, IsBalanced, new_handle-IsBalanced, delete_object-IsBalanced, put-IsBalanced,
}

as_job-some :
    {W : Type 0} (o : Option (Object W)) (job : JobRequest)
    → as_job o ≡ some job
    → o ≡ some (job_object job)
as_job-some none job h = cc
as_job-some (some (job_object j)) job h = cc
as_job-some (some (client_object c)) job h = cc
as_job-some (some (result_object r)) job h = cc

Labelled-kind :
    (job : JobRequest) (out : Option Str × JobRequest) → Labelled job out → out.1.kind ≡ job.kind
Labelled-kind job (none, j) l = ap (λ x. x.kind) l
Labelled-kind job (some uuid, j) (_, same) = same

module _ (sizes : Sizes) {W : Type 0} (J : JsonLib) (amqp : Amqp W) (curl : Curl W)
    (host : Option Str) (uuid : Str) {V : Type 0} (base : BaseClient J.Json V) (is_hpc : Bool) where
  -- A call of the interface that returns. Only what is a job, a result or a client is freed as one.
  pub data Step : Store W → Store W → Type 0 where
    makes_circuit_job :
        {s : Store W} (source circuit_format resource_name : Option Str) (shots : ℕ)
        (no_modify queued : Bool)
        → Step s
            (new_circuit_job sizes source circuit_format resource_name shots no_modify queued s).1
    makes_hamiltonian_job :
        {s : Store W} (resource_name interaction_str coefficients_str : Option Str)
        → Step s (new_hamiltonian_job sizes resource_name interaction_str coefficients_str s).1
    makes_client :
        {s : Store W} (token url_or_queue : Option Str) (over_broker : Bool) (w : W)
        → Step s
            (new_client_object sizes J amqp curl host uuid token url_or_queue over_broker w s).1
    submits_job :
        {s : Store W} (job : Option ℕ) (e e' : Env J.Json V) (out : ℤ × Store W)
        → submit_job_at sizes J base is_hpc job s e ≡ (ok out, e')
        → Step s out.1
    gets_result :
        {s : Store W} (job : Option ℕ) (wait : Bool) (timeout : ℕ) (e e' : Env J.Json V)
        (out : Option ℕ × Store W)
        → get_job_result_at sizes J base is_hpc job wait timeout s e ≡ (ok out, e')
        → Step s out.1
    frees_job :
        {s : Store W} (p : ℕ) (job : JobRequest)
        → job_at (some p) s ≡ some job
        → Step s (free_job (some p) s)
    frees_result :
        {s : Store W} (p : ℕ) (result : JobResult)
        → object_at p s.objects ≡ some (result_object result)
        → Step s (free_job_result (some p) s)
    frees_client :
        {s : Store W} (p : ℕ) (client : MqssClient W)
        → object_at p s.objects ≡ some (client_object client)
        → Step s (free_client amqp (some p) s).1

  pub data Reached (s : Store W) : Store W → Type 0 where
    start : Reached s s
    then : {t u : Store W} → Reached s t → Step t u → Reached s u

  submit_job-kind :
      (job : JobRequest) (e e' : Env J.Json V) (out : ℤ × JobRequest)
      → mqss_client_submit_job J base is_hpc true job e ≡ (ok out, e')
      → out.1.kind ≡ job.kind
  unfolding mqss_client_submit_job
  submit_job-kind job e e' out r =
      let (made, e₁, submitted, returned) =
        and_then-returned (submit_job J base is_hpc job e) _ r in
      let same : made.1 ≡ out.1 = cc in
      ap (λ j. j.kind) (sym same)
      ∙ Labelled-kind job made (submit_job-Labelled J base is_hpc job e e₁ made submitted)

  submit_found-IsBalanced :
      (h : Heap) (p : ℕ) (job : Option JobRequest) (s : Store W) (e e' : Env J.Json V)
      (out : ℤ × Store W)
      → as_job (object_at p s.objects) ≡ job
      → submit_found sizes J base is_hpc p job s e ≡ (ok out, e')
      → IsBalanced sizes h s
      → IsBalanced sizes h out.1
  submit_found-IsBalanced h p none s e e' out there r b =
      let same : s ≡ out.1 = cc in subst (IsBalanced sizes h) same b
  submit_found-IsBalanced h p (some job) s e e' out there r b =
      let (made, e₁, submitted, returned) =
        and_then-returned (mqss_client_submit_job J base is_hpc true job e) _ r in
      let same : record s { objects = put p (job_object made.1) s.objects } ≡ out.1 = cc in
      subst (IsBalanced sizes h) same (
        put-IsBalanced sizes h p (job_object job) (job_object made.1) s (as_job-some _ job there)
          (ap (job_size sizes) (submit_job-kind job e e₁ made submitted)) b)

  submit_job_at-IsBalanced :
      (h : Heap) (job : Option ℕ) (s : Store W) (e e' : Env J.Json V) (out : ℤ × Store W)
      → submit_job_at sizes J base is_hpc job s e ≡ (ok out, e')
      → IsBalanced sizes h s
      → IsBalanced sizes h out.1
  unfolding submit_job_at job_at
  submit_job_at-IsBalanced h none s e e' out r b =
      let same : s ≡ out.1 = cc in subst (IsBalanced sizes h) same b
  submit_job_at-IsBalanced h (some p) s e e' out r b =
      submit_found-IsBalanced h p _ s e e' out refl r b

  result_of_found-IsBalanced :
      (h : Heap) (job : Option JobRequest) (wait : Bool) (timeout : ℕ) (s : Store W)
      (e e' : Env J.Json V) (out : Option ℕ × Store W)
      → result_of_found sizes J base is_hpc job wait timeout s e ≡ (ok out, e')
      → IsBalanced sizes h s
      → IsBalanced sizes h out.1
  result_of_found-IsBalanced h none wait timeout s e e' out r b =
      let same : s ≡ out.1 = cc in subst (IsBalanced sizes h) same b
  result_of_found-IsBalanced h (some job) wait timeout s e e' out r b =
      let (made, e₁, submitted, returned) =
        and_then-returned (mqss_client_get_job_result J base is_hpc true job wait timeout e) _ r in
      let same : (new_handle sizes (Option.map result_object made) s).1 ≡ out.1 = cc in
      subst (IsBalanced sizes h) same (new_handle-IsBalanced sizes h _ s b)

  Step-IsBalanced :
      (h : Heap) {s t : Store W} → Step s t → IsBalanced sizes h s → IsBalanced sizes h t
  unfolding get_job_result_at new_circuit_job new_hamiltonian_job new_client_object free_job
      free_job_result free_client job_at
  Step-IsBalanced h {s} (makes_circuit_job c f r shots n q) b = new_handle-IsBalanced sizes h _ s b
  Step-IsBalanced h {s} (makes_hamiltonian_job r i c) b = new_handle-IsBalanced sizes h _ s b
  Step-IsBalanced h {s} (makes_client token url hpc w) b = new_handle-IsBalanced sizes h _ s b
  Step-IsBalanced h {s} (submits_job job e e' out r) b =
      submit_job_at-IsBalanced h job s e e' out r b
  Step-IsBalanced h {s} (gets_result job wait timeout e e' out r) b =
      result_of_found-IsBalanced h (job_at job s) wait timeout s e e' out r b
  Step-IsBalanced h {s} (frees_job p job there) b =
      delete_object-IsBalanced sizes h p (job_object job) s (as_job-some _ job there) b
  Step-IsBalanced h {s} (frees_result p r there) b = delete_object-IsBalanced sizes h p _ s there b
  Step-IsBalanced h {s} (frees_client p c there) b = delete_object-IsBalanced sizes h p _ s there b

  reached : {s t : Store W} → Reached s t → s.objects ≡ [] → IsBalanced sizes s.heap t
  reached {s} start empty =
      let none_made = sym empty in
      record {
        live = ap (λ os. blocks sizes os ++ s.heap.live) none_made;
        faults = refl;
        older = subst (λ os. All (λ b. b.0 < s.heap.next) (blocks sizes os)) none_made tt;
        apart = subst (λ os. AreApart (blocks sizes os)) none_made tt;
      }
  reached (then r step) empty = Step-IsBalanced _ step (reached r empty)

  -- Whatever a C caller does with clients, jobs and results, starting without any, by the functions
  -- that create them, submit a job, get a result, and free what is there and of the function's
  -- kind: the blocks of the heap are those of the objects not freed yet, above those from before,
  -- no two handles are the same, and nothing is freed that was not allocated; so if all are freed,
  -- the blocks are those from before.
  pub Reached-IsBalanced :
      (s t : Store W)
      → s.objects ≡ []
      → Reached s t
      → IsBalanced sizes s.heap t × (t.objects ≡ [] → IsFreed s.heap t.heap)
  Reached-IsBalanced s t empty r =
      let b = reached r empty in
      (b, λ all_freed. (b.live ∙ ap (λ os. blocks sizes os ++ s.heap.live) all_freed, b.faults))
