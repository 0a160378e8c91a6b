-- ===== src/Tests/SampleCurl.antt =====
-- A small libcurl over scripted transfers, with what it documents.
use mqss_client.Common.{
  ℕ, ◌≡◌, refl, inl, inr, true, some, List, [], ◌∷◌, ◌++◌, length, ◌==◌, if◌then◌else◌, Bool-cases,
  arith, ==_iff,
}
use mqss_client.Common.Bytes.{Str, txt}
use mqss_client.Rest.Url.{UrlParser}
use mqss_client.Rest.Request.{Curl, HttpRequest, WriteFunction}
use mqss_client.Rest.Request.Answers.{Taken, done, more, IsDocumented}

-- The last status, and the transfers to come: a code, a status and the pieces of a body.
abbrev pub Transfers : Type 0
Transfers = ℕ × List (ℕ × ℕ × List Str)

-- A parser that takes every URL as HTTPS.
abbrev pub lenient : UrlParser
lenient = record {
  curl_url = true;
  curl_url_set = λ s. true;
  curl_url_get = λ s. some (txt "https");
}

-- The calls of the callback, which stop with CURLE_WRITE_ERROR at a piece that it does not take.
unfoldable pub deliver : WriteFunction → Str → List Str → ℕ × Str
deliver callback out [] = (0, out)
deliver callback out (piece ∷ pieces) =
    let next = callback piece 1 (length piece) out in
    let rest = deliver callback next.1 pieces in
    if next.0 == length piece then rest else (23, next.1)

abbrev transfer : WriteFunction → Str → ℕ × ℕ × List Str → ℕ × Str
transfer callback out (code, status, pieces) =
    if code == 0 then deliver callback out pieces else (code, out)

unfoldable pub perform : HttpRequest → WriteFunction → Str → Transfers → (ℕ × Str) × Transfers
unfolding deliver
perform asked callback out (_, []) = ((7, out), (0, []))
perform asked callback out (_, (code, status, pieces) ∷ more_transfers) =
    (transfer callback out (code, status, pieces), (status, more_transfers))

abbrev pub curl : Curl Transfers
curl = record {
  parser = lenient;
  easy_init = λ w. (true, w);
  slist_append = λ headers header w. (some (headers ++ header ∷ []), w);
  perform = perform;
  response_code = λ w. w.0;
  strerror = λ n. txt "error";
  ca_bundle = some (txt "/etc/ssl/cert.pem");
  has_room = λ out n. true;
  elapse = λ n w. w;
}

abbrev pub body : HttpRequest → Transfers → List Str
body asked (_, []) = []
body asked (_, (code, status, pieces) ∷ rest) = pieces

-- Pieces that are taken are delivered.
pub Taken-deliver :
    (callback : WriteFunction) {out end : Str} {pieces : List Str}
    → Taken callback out pieces end
    → deliver callback out pieces ≡ (0, end)
unfolding deliver
Taken-deliver callback done = refl
Taken-deliver callback (more {out = out} {piece = piece} whole rest) =
    rw ((==_iff _ _).1 whole) (Taken-deliver callback rest)

deliver-Taken :
    (callback : WriteFunction) (out : Str) (pieces : List Str)
    → (deliver callback out pieces).0 ≡ 0
    → Taken callback out pieces (deliver callback out pieces).1
unfolding deliver
deliver-Taken callback out [] h = done
deliver-Taken callback out (piece ∷ pieces) h =
    elim (Bool-cases ((callback piece 1 (length piece) out).0 == length piece)) [
      | inl whole ↦ rw whole (
          more ((==_iff _ _).0 whole)
            (deliver-Taken callback (callback piece 1 (length piece) out).1 pieces (rw whole at h)))
      | inr short ↦ absurd (omega (arith, rw short at h))
    ]

pub perform-Taken :
    (asked : HttpRequest) (callback : WriteFunction) (out : Str) (w : Transfers)
    → (perform asked callback out w).0.0 ≡ 0
    → Taken callback out (body asked w) (perform asked callback out w).0.1
unfolding perform
perform-Taken asked callback out (_, []) h = absurd (omega (arith, h))
perform-Taken asked callback out (_, (code, status, pieces) ∷ rest) h =
    elim (Bool-cases (code == 0)) [
      | inl good ↦ rw good (deliver-Taken callback out pieces (rw good at h))
      | inr bad ↦ absurd (ground (arith, bad, (rw bad at h)))
    ]

abbrev pub curl-IsDocumented : IsDocumented curl
curl-IsDocumented = record {
  appended = λ headers header w h. cc h;
  body = body;
  taken = perform-Taken;
}
