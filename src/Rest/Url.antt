-- ===== src/Rest/Url.antt =====
-- `MQSSRestClient::normalizeUrl`.
pub mod Slash
pub mod Portal
use mqss_client.Common.{
  ℕ, ◌+◌, ◌-◌, Bool, false, not, ◌&&◌, ◌||◌, Option, none, some, List, [], ◌∷◌, ◌++◌, map, leb,
  ◌==◌, if◌then◌else◌, length, take, drop,
}
use mqss_client.Common.Bytes.{
  Str, txt, str_eq, is_empty, starts_with, find, any, ends_strictly_with,
}
use mqss_client.Common.Effects.{Result, ok, throw, Exn, invalid_argument, runtime_error}

-- libcurl's URL parser, on one URL: whether `curl_url` gives a handle, whether `curl_url_set` takes
-- the URL under `CURLU_DISALLOW_USER`, and the scheme that `curl_url_get` then reports.
pub record UrlParser : Type 0 where
  pub curl_url : Bool
  pub curl_url_set : Str → Bool
  pub curl_url_get : Str → Option Str

-- White space and control characters.
abbrev pub is_blank : ℕ → Bool
is_blank c = leb c 0x20 || c == 0x7f

abbrev pub is_query : ℕ → Bool
is_query c = c == b'?' || c == b'#'

-- `std::tolower` in the C locale.
abbrev pub to_lower : ℕ → ℕ
to_lower c = if leb b'A' c && leb c b'Z' then c + 32 else c

-- The text before the first '/', and from it on.
pub before_slash : Str → Str
before_slash [] = []
before_slash (c ∷ s) = let rest = before_slash s in if c == b'/' then [] else c ∷ rest

pub from_slash : Str → Str
from_slash [] = []
from_slash (c ∷ s) = let rest = from_slash s in if c == b'/' then c ∷ s else rest

-- `url.back() == '/'`
pub ends_with_slash : Str → Bool
ends_with_slash [] = false
ends_with_slash (c ∷ []) = c == b'/'
ends_with_slash (c ∷ d ∷ s) = ends_with_slash (d ∷ s)

abbrev pub invalid : Exn
invalid =
    invalid_argument
      (txt "REST URL must be an absolute HTTP(S) URL without credentials, a query, or a fragment")

abbrev pub port : Str
port = txt ":4000"

abbrev pub domains : List Str
domains = txt ".quantum.lrz.de" ∷ txt ".quantumpathway.eu" ∷ []

-- The loop over the portals' domains.
pub portal : Str → List Str → Option Str
portal host [] = none
portal host (domain ∷ more) =
    if ends_strictly_with host domain
    then some (txt "https://" ++ (host ++ (port ++ txt "/v1/")))
    else portal host more

pub without_port : Str → Str
without_port host =
    if ends_strictly_with host port then take (length host - length port) host else host

abbrev pub is_base_path : Str → Bool
is_base_path path =
    is_empty path || str_eq path (txt "/") || str_eq path (txt "/v1") || str_eq path (txt "/v1/")

pub with_slash : Str → Str
unfolding ends_with_slash
with_slash url = if ends_with_slash url then url else url ++ txt "/"

-- The host that the URL names, in lower case and less the portals' port.
pub host_of : Str → ℕ → Str
host_of url separator =
    let rest = drop (separator + 3) url in
    let origin = map to_lower (take (separator + 3) url ++ before_slash rest) in
    without_port (drop (separator + 3) origin)

abbrev pub or_else : Option Str → Str → Str
or_else none url = url
or_else (some base) url = base

-- What is returned for a valid URL with "://" at `separator`.
pub canonical : Str → ℕ → Str → Str
canonical url separator scheme =
    if str_eq scheme (txt "https") && is_base_path (from_slash (drop (separator + 3) url))
    then or_else (portal (host_of url separator) domains) (with_slash url)
    else with_slash url

-- What is refused before libcurl is asked.
pub is_malformed : Str → ℕ → Bool
is_malformed url separator =
    is_empty url
    || any is_blank url
    || separator + 3 == length url
    || starts_with (drop (separator + 3) url) (txt "/")
    || any is_query url

module _ (curl : UrlParser) where
  pub normalize_at : Str → ℕ → Result Str
  normalize_at url separator =
      if is_malformed url separator
      then throw invalid
      else if not curl.curl_url
      then throw (runtime_error (txt "Failed to initialize URL parser"))
      else if not (curl.curl_url_set url)
      then throw invalid
      else elim (curl.curl_url_get url) [
        | none ↦ throw invalid
        | some scheme ↦
            if str_eq scheme (txt "http") || str_eq scheme (txt "https")
            then ok (canonical url separator scheme)
            else throw invalid
      ]

  unfoldable pub normalize_url : Str → Result Str
  unfolding normalize_at canonical is_malformed host_of before_slash from_slash portal without_port
      with_slash
  normalize_url url = elim (find url (txt "://")) [
    | none ↦ throw invalid
    | some separator ↦ normalize_at url separator
  ]
