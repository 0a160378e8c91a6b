-- ===== src/Tests/RestTests.antt =====
-- The REST transport.
use mqss_client.Common.{arith, ◌≡◌, refl}
use mqss_client.Common.Bytes.{txt, str_eq, is_empty, starts_with, find, any, ends_strictly_with}
use mqss_client.Common.Effects.{ok, throw}
use mqss_client.Tests.SampleCurl.{lenient}
use mqss_client.Rest.Url.Portal.{lrz, given, version, normalize_url-spelling}
use mqss_client.Rest.Url.{port, normalize_url, invalid}

url_tests :
    (normalize_url lenient (txt "https://Portal.quantum.lrz.de:4000")
      ≡ ok (txt "https://portal.quantum.lrz.de:4000/v1/"))
    × (normalize_url lenient (txt "https://portal.quantum.lrz.de/v1")
        ≡ ok (txt "https://portal.quantum.lrz.de:4000/v1/"))
    × (normalize_url lenient (txt "https://example.com/API") ≡ ok (txt "https://example.com/API/"))
    × (normalize_url lenient (txt "https://example.com/a?b") ≡ throw invalid)
    × (normalize_url lenient (txt "portal.quantum.lrz.de") ≡ throw invalid)
unfolding normalize_url str_eq is_empty starts_with find any ends_strictly_with
url_tests = (refl, refl, refl, refl, refl)

normalize_url-spelling_example :
    normalize_url lenient (txt "https://Portal.Quantum.LRZ.de:4000/v1")
    ≡ ok (txt "https://portal.quantum.lrz.de:4000/v1/")
normalize_url-spelling_example =
    normalize_url-spelling b'P' (txt "ortal") (txt ".Quantum.LRZ.de") (txt ".quantum.lrz.de")
      (ground arith) refl lrz lenient port (txt "/v1") given version refl refl refl
