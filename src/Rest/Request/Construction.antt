-- ===== src/Rest/Request/Construction.antt =====
-- The constructor of `MQSSRestClient`.
use mqss_client.Common.{
  inr, inl, ◌≡◌, refl, ◌∙◌, sym, ap, subst, none, List, [], ◌∷◌, ◌++◌, true, Option-cases,
}
use mqss_client.Common.Bytes.{Str, txt}
use mqss_client.Common.Effects.{ok}
use mqss_client.Common.Stateful.{>>=-returned, lift}
use mqss_client.Json.{JsonLib}
use mqss_client.Rest.Url.{normalize_url, ends_with_slash}
use mqss_client.Rest.Url.Slash.{normalize_url-slash}
use mqss_client.Rest.Request.{Curl, RestClient, rest_client, request, append_header}
use mqss_client.Rest.Request.Answers.{IsDocumented}
use mqss_client.Rest.Request.Serving.{Served, request-Served}

module _ (J : JsonLib) {W : Type 0} (curl : Curl W) (doc : IsDocumented curl) where
  -- The world after the two headers are made.
  abbrev pub with_headers : Str → W → W
  with_headers token w =
      let authorization = txt "Authorization: Bearer " ++ token in
      let first = curl.slist_append [] authorization w in
      (curl.slist_append (authorization ∷ []) (txt "Content-Type: application/json") first.1).1

  -- A client that was constructed in the world `w`: its base URL is the normalised one and ends with
  -- a slash, its headers are the authorisation and the content type, and right after these were made
  -- a GET of the resources at that URL was requested, which ended in the world `w'` and which the
  -- server has served.
  pub record IsReady (token url : Str) (w : W) (client : RestClient) (w' : W) : Type 0 where
    pub base : normalize_url curl.parser url ≡ ok client.url
    pub slash : ends_with_slash client.url ≡ true
    pub headers :
        client.headers
        ≡ (txt "Authorization: Bearer " ++ token) ∷ txt "Content-Type: application/json" ∷ []
    pub response : Str
    pub requested :
        request J curl client (txt "GET") (txt "resources") none (with_headers token w)
        ≡ (ok response, w')
    pub served :
        Served J curl doc client
          (txt "GET")
          (txt "resources")
          none
          (with_headers token w)
          w'
          response

  append_header-world :
      (headers : List Str) (header : Str) (w : W)
      → (append_header J curl headers header w).1 ≡ (curl.slist_append headers header w).1
  unfolding append_header
  append_header-world headers header w =
      elim (Option-cases (curl.slist_append headers header w).0) [
        | inl null ↦ rw null refl
        | inr (l, some_list) ↦ rw some_list refl
      ]

  append_header-ok :
      (headers : List Str) (header : Str) (w : W) (longer : List Str)
      → (append_header J curl headers header w).0 ≡ ok longer
      → longer ≡ headers ++ header ∷ []
  unfolding append_header
  append_header-ok headers header w longer h =
      elim (Option-cases (curl.slist_append headers header w).0) [
        | inl null ↦ cc (rw null at h)
        | inr (l, some_list) ↦ doc.appended headers header w (cc (some_list, (rw some_list at h)))
      ]

  -- If the constructor returns a client and libcurl behaves as documented, its base URL is the
  -- normalised one and ends with a slash, its headers are the authorisation with the token and the
  -- content type, and a GET of the resources has been served.
  pub rest_client-IsReady :
      (token url : Str) (w : W) (client : RestClient)
      → (rest_client J curl token url w).0 ≡ ok client
      → IsReady token url w client (rest_client J curl token url w).1
  unfolding rest_client
  rest_client-IsReady token url w client h =
      let (base, normalised, h1, end1) =
        >>=-returned (lift (normalize_url curl.parser url)) _ w h in
      let (first, one, h2, end2) =
        >>=-returned (append_header J curl [] (txt "Authorization: Bearer " ++ token)) _ w h1 in
      let w1 = (append_header J curl [] (txt "Authorization: Bearer " ++ token) w).1 in
      let (second, two, h3, end3) =
        >>=-returned (append_header J curl first (txt "Content-Type: application/json")) _ w1 h2 in
      let w2 = (append_header J curl first (txt "Content-Type: application/json") w1).1 in
      let made : RestClient = record { url = base; headers = second } in
      let (response, got, h4, end4) =
        >>=-returned (request J curl made (txt "GET") (txt "resources") none) _ w2 h3 in
      let same : made ≡ client = cc h4 in
      let authorization = txt "Authorization: Bearer " ++ token in
      let json = txt "Content-Type: application/json" in
      let alone : first ≡ authorization ∷ [] = append_header-ok [] authorization w first one in
      let both : second ≡ authorization ∷ json ∷ [] =
        append_header-ok first json w1 second two ∙ ap (λ hs. hs ++ json ∷ []) alone in
      let there : w2 ≡ with_headers token w =
        append_header-world first json w1
        ∙ ap (λ hs. (curl.slist_append hs json w1).1) alone
        ∙ ap (λ v. (curl.slist_append (authorization ∷ []) json v).1)
            (append_header-world [] authorization w) in
      let asked = λ (v : W). request J curl made (txt "GET") (txt "resources") none v in
      subst (IsReady token url w client) (sym (end1 ∙ end2 ∙ end3 ∙ end4)) (
        rw (← same) (record {
          base = normalised;
          slash = normalize_url-slash curl.parser url base normalised;
          headers = both;
          response = response;
          requested = rw (← there) (cc got);
          served =
              rw (← there)
                (request-Served J curl doc made (txt "GET") (txt "resources") none w2 response got);
        }))
