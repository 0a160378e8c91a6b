-- ===== src/Client/Pending.antt =====
-- `getNumberPendingJobs`: the number that the server reports, -1, or an exception.
use mqss_client.Common.{◌≡◌, Bool, true, false, [], ◌∷◌, ◌++◌, Bool-cases, inl, inr}
use mqss_client.Common.Bytes.{Str, txt, is_empty}
use mqss_client.Common.Words.{ℤ, negsuc}
use mqss_client.Common.Effects.{Result, ok, throw, json_error}
use mqss_client.Json.{JsonLib, IsDocumented}
use mqss_client.Json.Members.{HasMember, look, refused, absent, present, absent-member}
use mqss_client.Transport.{BaseClient, Env}
use mqss_client.Client.{get_number_pending_jobs}

module _ (J : JsonLib) where
  open J use {Json, accept, parse, is_object, get_int}

  -- What asking for the number of pending jobs comes to, by the answer: what reading the member as
  -- an `int` comes to, -1 for an answer that is no JSON or an object without the member, and an
  -- exception for any other JSON.
  pub data IsCounted (resp : Str) : Result ℤ → Type 0 where
    counted :
        (value member : Json)
        → parse resp ≡ ok value
        → is_object value ≡ true
        → HasMember J resp (txt "num_pending_jobs") member
        → IsCounted resp (get_int member)
    uncounted :
        (value : Json)
        → parse resp ≡ ok value
        → is_object value ≡ true
        → ((member : Json) → ¬ HasMember J resp (txt "num_pending_jobs") member)
        → IsCounted resp (ok (negsuc 0))
    no_json : accept resp ≡ false → IsCounted resp (ok (negsuc 0))
    no_object :
        (value : Json)
        → parse resp ≡ ok value
        → is_object value ≡ false
        → IsCounted resp (throw json_error)

module _ (J : JsonLib) (doc : IsDocumented J) {W : Type 0} (base : BaseClient J.Json W)
    (is_hpc : Bool) where
  open J use {accept, is_object}

  -- If the transport answers and the JSON library behaves as documented, the number of pending jobs
  -- is what reading the member of the answer as an int comes to, -1 if the answer is no JSON or an
  -- object without the member, and an exception if it is JSON of another kind.
  pub get_number_pending_jobs-IsCounted :
      (name : Str) (e : Env J.Json W) (resp : Str) (w : W)
      → base.get (txt "resources/" ++ (name ++ txt "/num_pending_jobs")) e.world ≡ (ok resp, w)
      → IsCounted J resp (get_number_pending_jobs J base is_hpc name e).0
  unfolding get_number_pending_jobs is_empty
  get_number_pending_jobs-IsCounted name e [] w answer = rw answer (no_json doc.accept_empty)
  get_number_pending_jobs-IsCounted name e (c ∷ cs) w answer =
      elim (look J doc (c ∷ cs) (txt "num_pending_jobs")) [
        | refused not_json ↦ rw (answer, not_json) (no_json not_json)
        | absent j accepted parsed missing without ↦ elim (Bool-cases (is_object j)) [
          | inl object ↦
              rw
                (
                  answer,
                  accepted,
                  parsed,
                  doc.value_int_missing j (txt "num_pending_jobs") (negsuc 0) object missing,
                )
                (uncounted j parsed object
                  (λ v. absent-member J doc (c ∷ cs) (txt "num_pending_jobs") j v parsed missing))
          | inr other ↦
              rw
                (
                  answer,
                  accepted,
                  parsed,
                  doc.value_int_throws j (txt "num_pending_jobs") (negsuc 0) other,
                )
                (no_object j parsed other)
        ]
        | present j v accepted parsed found there taken ↦ elim (Bool-cases (is_object j)) [
          | inl object ↦
              rw
                (
                  answer,
                  accepted,
                  parsed,
                  doc.value_int_found j (txt "num_pending_jobs") v (negsuc 0) object found,
                )
                (counted j v parsed object (record { value = j; parsed = parsed; found = found }))
          | inr other ↦
              rw
                (
                  answer,
                  accepted,
                  parsed,
                  doc.value_int_throws j (txt "num_pending_jobs") (negsuc 0) other,
                )
                (no_object j parsed other)
        ]
      ]
