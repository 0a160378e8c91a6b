-- ===== src/Rest/Request/Answers.antt =====
-- The answer to a REST request: its body and its status.
use mqss_client.Common.{
  ℕ, ◌*◌, ◌≡◌, ◌≤◌, ◌<◌, refl, sym, ap, ◌∙◌, inl, inr, some, List, [], ◌∷◌, ◌++◌, append_assoc,
  append-nil, length, take, take-append, concat, ◌==◌, arith, Bool-cases,
}
use mqss_client.Common.Bytes.{Str, txt}
use mqss_client.Common.Effects.{Exn, ok, throw, runtime_error}
use mqss_client.Standard.ToString.{numeral}
use mqss_client.Rest.Request.{
  Curl, HttpRequest, WriteFunction, write_response, checked, error_prefix,
}

-- The calls of a write callback on the pieces of a body, each of which it takes whole.
pub data Taken (callback : WriteFunction) : Str → List Str → Str → Type 0 where
  done : {out : Str} → Taken callback out [] out
  more :
      {out end : Str} {piece : Str} {pieces : List Str}
      → (callback piece 1 (length piece) out).0 ≡ length piece
      → Taken callback (callback piece 1 (length piece) out).1 pieces end
      → Taken callback out (piece ∷ pieces) end

module _ {W : Type 0} (curl : Curl W) where
  -- What libcurl documents: a list with a header appended is the list and the header, and a
  -- transfer that succeeds has given the pieces of the response's body to the callback, of size 1
  -- each, which has taken each whole.
  pub record IsDocumented : Type 0 where
    pub appended :
        (headers : List Str) (header : Str) (w : W) {longer : List Str}
        → (curl.slist_append headers header w).0 ≡ some longer
        → longer ≡ headers ++ header ∷ []
    pub body : HttpRequest → W → List Str
    pub taken :
        (asked : HttpRequest) (callback : WriteFunction) (out : Str) (w : W)
        → (curl.perform asked callback out w).0.0 ≡ 0
        → Taken callback out (body asked w) (curl.perform asked callback out w).0.1

  write_response-taken :
      (piece out : Str)
      → (write_response curl piece 1 (length piece) out).0 ≡ length piece
      → (write_response curl piece 1 (length piece) out).1 ≡ out ++ piece
  unfolding write_response
  write_response-taken [] out h = elim (Bool-cases (curl.has_room out 0)) [
    | inl room ↦ rw room refl
    | inr full ↦ rw full (sym (append-nil out))
  ]
  write_response-taken (c ∷ cs) out h =
      let whole : take (1 * length (c ∷ cs)) (c ∷ cs) ≡ c ∷ cs = all (c ∷ cs) in
      elim (Bool-cases (curl.has_room out (1 * length (c ∷ cs)))) [
        | inl room ↦ rw (room, whole) refl
        | inr full ↦ absurd (omega (arith, rw full at h))
      ]
    where
      all : (s : Str) → take (1 * length s) s ≡ s
      all s =
          let one : 1 * length s ≡ length s = omega arith in
          rw one (ap (take (length s)) (sym (append-nil s)) ∙ take-append s [])

  pub write_response-Taken :
      {out end : Str} {pieces : List Str}
      → Taken (write_response curl) out pieces end
      → end ≡ out ++ concat pieces
  write_response-Taken {out} done = sym (append-nil out)
  write_response-Taken {out} (more {piece = piece} {pieces = pieces} whole rest) =
      write_response-Taken rest
      ∙ ap (λ o. o ++ concat pieces) (write_response-taken piece out whole)
      ∙ append_assoc out piece (concat pieces)

  checked-eq-ok :
      (method r : Str) (n : ℕ) (response : Str) (status : ℕ)
      → checked curl method (n, response) status ≡ ok r
      → (n ≡ 0) × (200 ≤ status) × (status < 300) × (response ≡ r)
  unfolding checked
  checked-eq-ok method r n response status h =
      (ground (arith, h), ground (arith, h), ground (arith, h), ground (arith, h))

  pub checked-throws :
      (method : Str) (n : ℕ) (response : Str) (status : ℕ) {x : Exn}
      → checked curl method (n, response) status ≡ throw x
      → (message : Str) × (x ≡ runtime_error message)
  unfolding checked
  checked-throws method n response status h = elim (Bool-cases (n == 0)) [
    | inr failed ↦ (error_prefix curl method ++ curl.strerror n, ground (arith, h, failed))
    | inl zero_code ↦
        (error_prefix curl method ++ (txt "HTTP " ++ numeral status), ground (arith, h, zero_code))
  ]

  -- The transfer of a request that was answered: it succeeded, with a status of success, and its
  -- response is the body.
  module _ (doc : IsDocumented) where
    open doc use {body}

    pub checked-ok :
        (asked : HttpRequest) (method r : Str) (w : W) (status : ℕ)
        → checked curl method (curl.perform asked (write_response curl) [] w).0 status ≡ ok r
        → (200 ≤ status) × (status < 300) × (r ≡ concat (body asked w))
    checked-ok asked method r w status h =
        let (zero_code, low, high, same) = checked-eq-ok method r _ _ status h in
        (
          low,
          high,
          sym same ∙ write_response-Taken (doc.taken asked (write_response curl) [] w zero_code),
        )
