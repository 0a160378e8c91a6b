-- ===== src/Rest/Url/Portal.antt =====
-- The spellings of a portal's URL.
use mqss_client.Common.{
  All-mono, ap, ◌∙◌, ◌||◌, some, ℕ, ◌-◌, ◌≡◌, refl, ap, ◌∙◌, inl, inr, true, false, ◌||◌, some, [],
  ◌∷◌, ◌++◌, arith, Bool-cases, length, map, ◌==◌, All, All-append, All-mono, length-append,
  take-append, append_assoc, append-nil,
}
use mqss_client.Common.Bytes.{
  Str, txt, str_eq, is_empty, starts_with, find, any, ends_strictly_with,
}
use mqss_client.Common.Bytes.Laws.{
  any-false-append, any-false, str_eq_refl, str_eq_refl, ends_strictly_with-append,
  ends_strictly_with-ne, any-false,
}
use mqss_client.Common.Effects.{ok}
use mathlib.Core.List.{map-append}
use mqss_client.Rest.Url.Slash.{normalize_url-found, normalize_at-canonical}
use mqss_client.Common.Bytes.{any, find, starts_with, is_empty}
use mqss_client.Rest.Url.{
  is_blank, is_query, is_malformed, UrlParser, is_blank, is_query, to_lower, before_slash,
  from_slash, port, domains, portal, without_port, is_base_path, host_of, canonical, is_malformed,
  normalize_url,
}

-- A character of a host's name.
abbrev pub IsHostChar : ℕ → Type 0
IsHostChar c = (is_blank c ≡ false) × (is_query c ≡ false) × ((c == b'/') ≡ false)

-- The text is empty or begins with a slash.
abbrev pub IsPath : Str → Type 0
IsPath [] = Unit
IsPath (c ∷ s) = c ≡ b'/'

before_slash-append : (a r : Str) → All IsHostChar a → IsPath r → before_slash (a ++ r) ≡ a
unfolding before_slash
before_slash-append [] [] h k = refl
before_slash-append [] (c ∷ r) h k = ground arith
before_slash-append (c ∷ a) r h k = rw (h.0.2) (ap (λ s. c ∷ s) (before_slash-append a r h.1 k))

from_slash-append : (a r : Str) → All IsHostChar a → IsPath r → from_slash (a ++ r) ≡ r
unfolding from_slash
from_slash-append [] [] h k = refl
from_slash-append [] (c ∷ r) h k = ground arith
from_slash-append (c ∷ a) r h k = rw (h.0.2) (from_slash-append a r h.1 k)

-- The four paths that stand for the portals' base URL.
pub data BasePath : Str → Type 0 where
  bare : BasePath []
  root : BasePath (txt "/")
  version : BasePath (txt "/v1")
  version_slash : BasePath (txt "/v1/")

BasePath-cases :
    (path : Str)
    → BasePath path
    → (is_base_path path ≡ true)
      × IsPath path
      × (any is_blank path ≡ false)
      × (any is_query path ≡ false)
unfolding str_eq is_empty any
BasePath-cases path bare = (refl, tt, refl, refl)
BasePath-cases path root = (refl, refl, refl, refl)
BasePath-cases path version = (refl, refl, refl, refl)
BasePath-cases path version_slash = (refl, refl, refl, refl)

-- With the port that is added anyway, or without.
pub data PortPart : Str → Type 0 where
  default : PortPart []
  given : PortPart port

-- The domains of the portals.
pub data Domain : Str → Type 0 where
  lrz : Domain (txt ".quantum.lrz.de")
  pathway : Domain (txt ".quantumpathway.eu")

Domain-chars : (d : Str) → Domain d → All IsHostChar d
Domain-chars d lrz = ground arith
Domain-chars d pathway = ground arith

Domain-lower : (d : Str) → Domain d → map to_lower d ≡ d
Domain-lower d lrz = refl
Domain-lower d pathway = refl

PortPart-chars : (p : Str) → PortPart p → All IsHostChar p
PortPart-chars p default = tt
PortPart-chars p given = ground arith

not_port : (s d : Str) → Domain d → ends_strictly_with (s ++ d) port ≡ false
unfolding str_eq
not_port s d lrz =
    rw (← (append_assoc s (txt ".quantum.l") (txt "rz.de")))
      (ends_strictly_with-ne (s ++ txt ".quantum.l") (txt "rz.de") port refl refl)
not_port s d pathway =
    rw (← (append_assoc s (txt ".quantumpathw") (txt "ay.eu")))
      (ends_strictly_with-ne (s ++ txt ".quantumpathw") (txt "ay.eu") port refl refl)

portal-Domain :
    (c : ℕ) (s d : Str)
    → Domain d
    → portal ((c ∷ s) ++ d) domains
      ≡ some (txt "https://" ++ (((c ∷ s) ++ d) ++ (port ++ txt "/v1/")))
unfolding portal
portal-Domain c s d lrz = rw (ends_strictly_with-append c s (txt ".quantum.lrz.de"))
portal-Domain c s d pathway =
    rw (ends_strictly_with-append c s (txt ".quantumpathway.eu"))
      (elim (Bool-cases
        (ends_strictly_with ((c ∷ s) ++ txt ".quantumpathway.eu") (txt ".quantum.lrz.de"))) [
          | inl first ↦ rw first
          | inr second ↦ rw second
        ])

without_port-PortPart :
    (c : ℕ) (s d p : Str)
    → Domain d
    → PortPart p
    → without_port (((c ∷ s) ++ d) ++ p) ≡ (c ∷ s) ++ d
unfolding without_port
without_port-PortPart c s d p k default = rw (append-nil ((c ∷ s) ++ d)) (rw (not_port (c ∷ s) d k))
without_port-PortPart c s d p k given =
    let start : length (((c ∷ s) ++ d) ++ port) - 5 ≡ length ((c ∷ s) ++ d) =
      omega (arith, length-append ((c ∷ s) ++ d) port) in
    rw (ends_strictly_with-append c (s ++ d) port) (rw start (take-append ((c ∷ s) ++ d) port))

PortPart-lower : (p : Str) → PortPart p → map to_lower p ≡ p
PortPart-lower p default = refl
PortPart-lower p given = refl

https : (any is_blank (txt "https://") ≡ false) × (any is_query (txt "https://") ≡ false)
unfolding any
https = (refl, refl)

https_scheme : (str_eq (txt "https") (txt "http") || str_eq (txt "https") (txt "https")) ≡ true
unfolding str_eq
https_scheme = refl

find_https : (r : Str) → find (txt "https://" ++ r) (txt "://") ≡ some 5
unfolding find starts_with
find_https r = refl

well_shaped :
    (c : ℕ) (r : Str)
    → (c == b'/') ≡ false
    → (is_empty (txt "https://" ++ (c ∷ r))
        || false
        || 8 == length (txt "https://" ++ (c ∷ r))
        || starts_with (c ∷ r) (txt "/")
        || false)
      ≡ false
unfolding is_empty starts_with
well_shaped c r h = ground arith

-- A portal's host: a name, then one of the domains in any letter case.
module _ (c : ℕ) (s upper d : Str) (name : All IsHostChar ((c ∷ s) ++ upper))
    (lower : map to_lower upper ≡ d) (known : Domain d) where
  abbrev pub spelling : Str → Str → Str
  spelling p path = txt "https://" ++ ((((c ∷ s) ++ upper) ++ p) ++ path)

  abbrev pub base_url : Str
  base_url = txt "https://" ++ ((map to_lower (c ∷ s) ++ d) ++ (port ++ txt "/v1/"))

  authority : (p : Str) → PortPart p → All IsHostChar (((c ∷ s) ++ upper) ++ p)
  authority p k = All-append IsHostChar ((c ∷ s) ++ upper) p name (PortPart-chars p k)

  host_of-spelling :
      (p path : Str)
      → PortPart p
      → BasePath path
      → host_of (spelling p path) 5 ≡ map to_lower (c ∷ s) ++ d
  unfolding host_of
  host_of-spelling p path k b =
      let host =
        before_slash-append (((c ∷ s) ++ upper) ++ p) path (authority p k)
          (BasePath-cases path b).1 in
      let lowered : map to_lower (((c ∷ s) ++ upper) ++ p)
          ≡ ((to_lower c ∷ map to_lower s) ++ d) ++ p =
        simp (map-append, lower, PortPart-lower p k) in
      rw host (rw lowered (without_port-PortPart (to_lower c) (map to_lower s) d p known k))

  canonical-spelling :
      (p path : Str)
      → PortPart p
      → BasePath path
      → canonical (spelling p path) 5 (txt "https") ≡ base_url
  unfolding canonical
  canonical-spelling p path k b =
      let from =
        from_slash-append (((c ∷ s) ++ upper) ++ p) path (authority p k)
          (BasePath-cases path b).1 in
      rw from (
        rw (str_eq_refl (txt "https"), (BasePath-cases path b).0)
          (rw (host_of-spelling p path k b)
            (rw (portal-Domain (to_lower c) (map to_lower s) d known))))

  well_formed :
      (p path : Str) → PortPart p → BasePath path → is_malformed (spelling p path) 5 ≡ false
  unfolding is_malformed
  well_formed p path k b =
      let a : Str = ((c ∷ s) ++ upper) ++ p in
      let blank : any is_blank (spelling p path) ≡ false =
        any-false-append is_blank (txt "https://") (a ++ path) https.0 (
          any-false-append is_blank a path
            (any-false is_blank a (All-mono (λ x h. h.0) a (authority p k)))
            (BasePath-cases path b).2) in
      let query : any is_query (spelling p path) ≡ false =
        any-false-append is_query (txt "https://") (a ++ path) https.1 (
          any-false-append is_query a path
            (any-false is_query a (All-mono (λ x h. h.1) a (authority p k)))
            (BasePath-cases path b).3) in
      rw (blank, query) (well_shaped c (((s ++ upper) ++ p) ++ path) name.0.2)

  module _ (curl : UrlParser) where
    -- Every spelling of a portal's URL comes to the same base URL: with the domain and the name in
    -- any letter case, with the port 4000 or none, and with no path, "/", "/v1" or "/v1/", if
    -- libcurl takes it as an HTTPS URL. The base URL has the lower case, the port and "/v1/".
    pub normalize_url-spelling :
        (p path : Str)
        → PortPart p
        → BasePath path
        → curl.curl_url ≡ true
        → curl.curl_url_set (spelling p path) ≡ true
        → curl.curl_url_get (spelling p path) ≡ some (txt "https")
        → normalize_url curl (spelling p path) ≡ ok base_url
    normalize_url-spelling p path k b handle taken scheme =
        normalize_url-found curl (spelling p path) 5
          (find_https ((((c ∷ s) ++ upper) ++ p) ++ path))
        ∙ normalize_at-canonical curl (spelling p path) 5 (txt "https") (well_formed p path k b)
            handle taken scheme https_scheme
        ∙ ap ok (canonical-spelling p path k b)
