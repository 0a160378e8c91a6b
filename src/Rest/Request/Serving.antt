-- ===== src/Rest/Request/Serving.antt =====
-- What the three requests of a REST client return, and what they throw.
use mqss_client.Common.{
  none, ◌≡◌, ◌≤◌, ◌<◌, refl, ◌⊎◌, inl, inr, Option, some, [], concat, Bool-cases,
}
use mqss_client.Common.Bytes.{Str, txt}
use mqss_client.Common.Effects.{
  Exn, ok, throw, runtime_error, invalid_argument, out_of_range, json_error, bad_alloc,
  Result-cases,
}
use mqss_client.Json.{JsonLib}
use mqss_client.Rest.Request.{
  get, del, post, Curl, RestClient, write_response, http_request, payload_of, request,
}
use mqss_client.Rest.Request.Answers.{IsDocumented, checked-ok, checked-throws}

module _ (J : JsonLib) {W : Type 0} (curl : Curl W) (doc : IsDocumented curl) where
  open J use {Json, dump}

  -- A request, made in the world `w`, that was served with the response `r`: the status, read in the
  -- world `w'` after it, is one of success, and the response is the body.
  pub record Served (client : RestClient) (method path : Str) (body : Option Json) (w w' : W)
      (r : Str) : Type 0 where
    pub payload : Option Str
    pub payload_made : payload_of J curl body ≡ ok payload
    pub at_least : 200 ≤ curl.response_code w'
    pub below : curl.response_code w' < 300
    pub answer :
        r ≡ concat (doc.body (http_request curl client method path payload) (curl.easy_init w).1)

  pub request-Served :
      (client : RestClient) (method path : Str) (body : Option Json) (w : W) (r : Str)
      → (request J curl client method path body w).0 ≡ ok r
      → Served client method path body w (request J curl client method path body w).1 r
  unfolding request
  request-Served client method path body w r h = elim (Bool-cases (curl.easy_init w).0) [
    | inr none_given ↦ cc (rw none_given at h)
    | inl given ↦ elim (Result-cases (payload_of J curl body)) [
      | inr (x, bad) ↦ cc (rw (given, bad) at h)
      | inl (payload, made) ↦
          let (low, high, same) = checked-ok curl doc _ method r _ _ (rw (given, made) at h) in
          rw (given, made)
            (record {
              payload = payload;
              payload_made = made;
              at_least = low;
              below = high;
              answer = same;
            })
    ]
  ]

  -- What a request throws, if the text of its body throws nothing.
  pub request-throws :
      (client : RestClient) (method path : Str) (body : Option Json) (w : W) (x : Exn)
      → (request J curl client method path body w).0 ≡ throw x
      → (payload_of J curl body ≡ throw x) ⊎ ((message : Str) × (x ≡ runtime_error message))
  unfolding request
  request-throws client method path body w x h = elim (Bool-cases (curl.easy_init w).0) [
    | inr none_given ↦ inr (txt "Failed to initialize REST connection", cc (rw none_given at h))
    | inl given ↦ elim (Result-cases (payload_of J curl body)) [
      | inr (y, bad) ↦ inl (cc (bad, (rw (given, bad) at h)))
      | inl (payload, made) ↦
          let moved =
            curl.perform (http_request curl client method path payload) (write_response curl) []
              (curl.easy_init w).1 in
          inr (
            checked-throws curl method moved.0.0 moved.0.1 (curl.response_code moved.1)
              (rw (given, made) at h))
    ]
  ]

  -- GET never throws: if libcurl behaves as documented, it returns the body of a response with a
  -- status of success, or nothing.
  pub get-Served :
      (client : RestClient) (path : Str) (w : W)
      → (r : Str) × ((get J curl client path w).0 ≡ ok r)
        × ((r ≡ []) ⊎ Served client (txt "GET") path none w (get J curl client path w).1 r)
  unfolding get payload_of
  get-Served client path w = elim (Result-cases (request J curl client (txt "GET") path none w).0) [
    | inl (r, e) ↦ (r, rw e refl, inr (rw e (request-Served client (txt "GET") path none w r e)))
    | inr (x, e) ↦ elim (request-throws client (txt "GET") path none w x e) [
      | inl made ↦ cc made
      | inr (message, same) ↦ ([], rw (e, same) refl, inl refl)
    ]
  ]

  payload_of-throws :
      (body : Json) (x : Exn) → payload_of J curl (some body) ≡ throw x → dump body ≡ throw x
  unfolding payload_of
  payload_of-throws body x h = elim (Result-cases (dump body)) [
    | inl (text, e) ↦ cc (rw (payload_of, e) at h)
    | inr (y, e) ↦ cc (e, (rw (payload_of, e) at h))
  ]

  -- A POST whose data have no text.
  refused :
      (client : RestClient) (path : Str) (body : Json) (w : W) (x : Exn)
      → (request J curl client (txt "POST") path (some body) w).0 ≡ throw x
      → payload_of J curl (some body) ≡ throw x
      → ((y : Exn) × (dump body ≡ throw y) × ((post J curl client path body w).0 ≡ throw y))
        ⊎ ((r : Str) × ((post J curl client path body w).0 ≡ ok r)
            × ((r ≡ [])
                ⊎ Served client
                    (txt "POST")
                    path
                    (some body)
                    w
                    (post J curl client path body w).1
                    r))
  unfolding post
  refused client path body w (runtime_error m) e made = inr ([], rw e refl, inl refl)
  refused client path body w (invalid_argument m) e made =
      inl (invalid_argument m, payload_of-throws body _ made, rw e refl)
  refused client path body w out_of_range e made =
      inl (out_of_range, payload_of-throws body _ made, rw e refl)
  refused client path body w json_error e made =
      inl (json_error, payload_of-throws body _ made, rw e refl)
  refused client path body w bad_alloc e made =
      inl (bad_alloc, payload_of-throws body _ made, rw e refl)

  -- If libcurl behaves as documented, POST throws only what the text of its data throws; else it
  -- returns the body of a response with a status of success, or nothing.
  pub post-Served :
      (client : RestClient) (path : Str) (data_ : Json) (w : W)
      → ((x : Exn) × (dump data_ ≡ throw x) × ((post J curl client path data_ w).0 ≡ throw x))
        ⊎ ((r : Str) × ((post J curl client path data_ w).0 ≡ ok r)
            × ((r ≡ [])
                ⊎ Served client
                    (txt "POST")
                    path
                    (some data_)
                    w
                    (post J curl client path data_ w).1
                    r))
  unfolding post payload_of
  post-Served client path data_ w =
      elim (Result-cases (request J curl client (txt "POST") path (some data_) w).0) [
        | inl (r, e) ↦
            inr (
              r,
              rw e refl,
              inr (rw e (request-Served client (txt "POST") path (some data_) w r e)),
            )
        | inr (x, e) ↦ elim (request-throws client (txt "POST") path (some data_) w x e) [
          | inl made ↦ refused client path data_ w x e made
          | inr (message, same) ↦ inr ([], rw (e, same) refl, inl refl)
        ]
      ]

  -- If libcurl behaves as documented, DELETE returns after a response with a status of success was
  -- read, and otherwise throws an error of the request.
  pub del-Served :
      (client : RestClient) (path : Str) (w : W)
      → (((del J curl client path w).0 ≡ ok tt)
          × ((r : Str) × Served client (txt "DELETE") path none w (del J curl client path w).1 r))
        ⊎ ((message : Str) × ((del J curl client path w).0 ≡ throw (runtime_error message)))
  unfolding del payload_of
  del-Served client path w =
      elim (Result-cases (request J curl client (txt "DELETE") path none w).0) [
        | inl (r, e) ↦
            inl (rw e refl, (r, rw e (request-Served client (txt "DELETE") path none w r e)))
        | inr (x, e) ↦ elim (request-throws client (txt "DELETE") path none w x e) [
          | inl made ↦ cc made
          | inr (message, same) ↦ inr (message, rw (e, same) refl)
        ]
      ]
