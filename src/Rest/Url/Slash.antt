-- ===== src/Rest/Url/Slash.antt =====
-- A normalised URL ends with a slash, so that a path can be put behind it.
use mqss_client.Common.{
  ℕ, ◌≡◌, refl, inl, inr, Bool, true, false, ◌||◌, Option, none, some, List, [], ◌∷◌, ◌++◌, arith,
  Bool-cases, Option-cases, if◌then◌else◌,
}
use mqss_client.Common.Bytes.{Str, txt, str_eq, find, ends_strictly_with}
use mqss_client.Common.Effects.{Result, throw, Result, ok, throw}
use mqss_client.Rest.Url.{
  invalid, or_else, host_of, UrlParser, ends_with_slash, portal, domains, with_slash, canonical,
  normalize_at, normalize_url, is_malformed, invalid,
}

pub ends_with_slash-append :
    (s t : Str) (c : ℕ) → ends_with_slash (s ++ c ∷ t) ≡ ends_with_slash (c ∷ t)
unfolding ends_with_slash
ends_with_slash-append [] t c = refl
ends_with_slash-append (d ∷ []) t c = refl
ends_with_slash-append (d ∷ e ∷ s) t c = ends_with_slash-append (e ∷ s) t c

portal-slash :
    (host : Str) (ds : List Str) (base : Str)
    → portal host ds ≡ some base
    → ends_with_slash base ≡ true
unfolding portal ends_with_slash
portal-slash host [] base e = cc
portal-slash host (d ∷ ds) base e = elim (Bool-cases (ends_strictly_with host d)) [
  | inl found ↦
      let same : txt "https://" ++ (host ++ (txt ":4000" ++ txt "/v1/")) ≡ base = ground arith in
      rw (← same) (end host)
  | inr other ↦ portal-slash host ds base (rw other at e)
]
  where
    end : (h : Str) → ends_with_slash (txt "https://" ++ (h ++ (txt ":4000" ++ txt "/v1/"))) ≡ true
    end h = ends_with_slash-append (txt "https://" ++ h) (txt "4000/v1/") b':'

with_slash-slash : (url : Str) → ends_with_slash (with_slash url) ≡ true
unfolding with_slash
with_slash-slash url = elim (Bool-cases (ends_with_slash url)) [
  | inl ended ↦ rw ended ended
  | inr open_end ↦ rw open_end (ends_with_slash-append url [] b'/')
]

chosen-slash :
    (b : Bool) (o : Option Str) (url : Str)
    → ((base : Str) → o ≡ some base → ends_with_slash base ≡ true)
    → ends_with_slash (if b then or_else o (with_slash url) else with_slash url) ≡ true
chosen-slash false o url h = with_slash-slash url
chosen-slash true none url h = with_slash-slash url
chosen-slash true (some base) url h = h base refl

canonical-slash :
    (url : Str) (n : ℕ) (scheme : Str) → ends_with_slash (canonical url n scheme) ≡ true
unfolding canonical
canonical-slash url n scheme =
    chosen-slash _ (portal (host_of url n) domains) url (portal-slash (host_of url n) domains)

module _ (curl : UrlParser) where
  pub normalize_at-canonical :
      (url : Str) (n : ℕ) (scheme : Str)
      → is_malformed url n ≡ false
      → curl.curl_url ≡ true
      → curl.curl_url_set url ≡ true
      → curl.curl_url_get url ≡ some scheme
      → (str_eq scheme (txt "http") || str_eq scheme (txt "https")) ≡ true
      → normalize_at curl url n ≡ ok (canonical url n scheme)
  unfolding normalize_at
  normalize_at-canonical url n scheme formed handle taken known http =
      rw (formed, handle, taken, known) (rw http)

  pub normalize_url-found :
      (url : Str) (n : ℕ)
      → find url (txt "://") ≡ some n
      → normalize_url curl url ≡ normalize_at curl url n
  unfolding normalize_url
  normalize_url-found url n found = rw (found, normalize_url)

  -- What it takes for a URL to be returned.
  pub record IsAccepted (url : Str) (n : ℕ) (scheme : Str) : Type 0 where
    pub well_formed : is_malformed url n ≡ false
    pub handle : curl.curl_url ≡ true
    pub taken : curl.curl_url_set url ≡ true
    pub scheme_is : curl.curl_url_get url ≡ some scheme
    pub http : (str_eq scheme (txt "http") || str_eq scheme (txt "https")) ≡ true

  normalize_at-IsAccepted :
      (url u : Str) (n : ℕ)
      → normalize_at curl url n ≡ ok u
      → (scheme : Str) × IsAccepted url n scheme × (canonical url n scheme ≡ u)
  unfolding normalize_at
  normalize_at-IsAccepted url u n e = elim (Option-cases (curl.curl_url_get url)) [
    | inl unknown ↦ absurd (ground arith)
    | inr (scheme, known) ↦ (
      scheme,
      record {
        well_formed = ground arith;
        handle = ground arith;
        taken = ground arith;
        scheme_is = known;
        http = ground arith;
      },
      ground arith,
    )
  ]

  pub normalize_url-IsAccepted :
      (url u : Str)
      → normalize_url curl url ≡ ok u
      → (n : ℕ) × (scheme : Str) × (find url (txt "://") ≡ some n)
        × IsAccepted url n scheme
        × (canonical url n scheme ≡ u)
  unfolding normalize_url
  normalize_url-IsAccepted url u e = elim (Option-cases (find url (txt "://"))) [
    | inl missing ↦
        let refused : ◌≡◌ {A = Result Str} (throw invalid) (ok u) =
          rw (missing, normalize_url) at e in
        absurd (cc)
    | inr (n, found) ↦
        let (scheme, accepted, same) =
          normalize_at-IsAccepted url u n (rw (found, normalize_url) at e) in
        (n, scheme, found, accepted, same)
  ]

  -- Every URL that normalizeUrl returns ends with a slash.
  pub normalize_url-slash : (url u : Str) → normalize_url curl url ≡ ok u → ends_with_slash u ≡ true
  normalize_url-slash url u e =
      let (n, scheme, _, _, same) = normalize_url-IsAccepted url u e in
      rw (← same) (canonical-slash url n scheme)
