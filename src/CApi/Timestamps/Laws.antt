-- ===== src/CApi/Timestamps/Laws.antt =====
-- What the time stamps come to, and when they are errors.
use mqss_client.Common.{
  ◌==◌, Option-cases, ℕ, suc, ◌+◌, ◌*◌, ◌^◌, ◌<◌, ◌≡◌, refl, ◌⊎◌, inl, inr, Option-cases, ap, ◌==◌,
  ◌∙◌, true, false, none, some, [], ◌∷◌, ◌++◌, drop, arith,
}
use mqss_client.Common.Bytes.{Str, txt, find}
use mqss_client.Common.Words.{
  ℤ, pos, negsuc, to_unsigned64, to_signed64, scale, quotient, ◌+ℤ◌, to_signed64-pos,
}
use mqss_client.Common.Effects.{Result-cases, ok, throw, Exn, Result-cases}
use mqss_client.Standard.GetTime.{Tm}
use mqss_client.Standard.GetTime.Padded.{padded, padded-IsNumeral, digits_value-padded}
use mqss_client.Standard.GetTime.Laws.{
  All-stamp_text, Stamp, IsStamp, stamp_text, tm_of, get_time-stamp, All-stamp_text,
  length-stamp_text, take-stamp_text, drop-stamp_text,
}
use mqss_client.Standard.Stoi.{stoi}
use mqss_client.Standard.Stoi.Laws.{stoi-numeral}
use mqss_client.Common.Bytes.Laws.{find-append}
use mqss_client.Job.{JobResult}
use mqss_client.CApi.Timestamps.{
  Reported, reported, parse_timestamp, get_job_result_completed_timestamp,
  get_job_result_submitted_timestamp, get_job_result_scheduled_timestamp,
}

-- A point, and what follows it is no `int`.
abbrev pub IsSpoilt : Str → Type 0
IsSpoilt s =
    (dot : ℕ) × (x : Exn) × (find s (txt ".") ≡ some dot) × (stoi (drop (suc dot) s) ≡ throw x)

-- A getter returns -2 and writes nothing for a text that is spoilt, and 0 with a number for any other.
abbrev pub IsReported : Str → Reported → Type 0
IsReported s out =
    (IsSpoilt s × (out ≡ (negsuc 1, none)))
    ⊎ ((IsSpoilt s → ⊥) × ((t : ℕ) × (out ≡ (pos 0, some t))))

module _ (seconds micros : ℕ) (held : seconds * 1000000000 + micros * 1000 < 2 ^ 63) where
  whole_seconds : to_signed64 (scale 1000000000 (pos seconds)) ≡ pos (seconds * 1000000000)
  unfolding to_signed64 scale
  whole_seconds = ground (arith, held)

  with_micros :
      to_unsigned64
        (quotient (to_signed64 (pos (seconds * 1000000000) +ℤ scale 1000 (pos micros))) 1000)
      ≡ seconds * 1000000 + micros
  unfolding scale ◌+ℤ◌ to_unsigned64 quotient
  with_micros =
      rw (to_signed64-pos (seconds * 1000000000 + 1000 * micros) (omega (arith, held)))
        (ground (arith, held))

module _ (mktime : Tm → ℤ) where
  parse_timestamp-IsReported : (s : Str) → IsReported s (reported (parse_timestamp mktime s))
  unfolding parse_timestamp
  parse_timestamp-IsReported s = elim (Option-cases (find s (txt "."))) [
    | inl none_at ↦ rw none_at (inr (λ (_, _, d, _). cc, (_, refl)))
    | inr (dot, at_dot) ↦ elim (Result-cases (stoi (drop (suc dot) s))) [
      | inl (micros, e) ↦ rw (at_dot, e) (inr (λ (d, x, p, q). cc, (_, refl)))
      | inr (x, e) ↦ rw (at_dot, e) (inl ((dot, x, refl, e), refl))
    ]
  ]

  -- Of a result and an address, each of the three functions for time stamps returns -2 and writes
  -- nothing exactly if its time stamp has a point with no int behind it, and otherwise returns 0
  -- and writes a number, whatever the text before the point is.
  pub get_job_result_timestamp-IsReported :
      (r : JobResult)
      → IsReported r.timestamp_completed (get_job_result_completed_timestamp mktime (some r) true)
        × IsReported r.timestamp_submitted (get_job_result_submitted_timestamp mktime (some r) true)
        × IsReported r.timestamp_scheduled (get_job_result_scheduled_timestamp mktime (some r) true)
  unfolding get_job_result_completed_timestamp get_job_result_submitted_timestamp
      get_job_result_scheduled_timestamp
  get_job_result_timestamp-IsReported r = (
    parse_timestamp-IsReported r.timestamp_completed,
    parse_timestamp-IsReported r.timestamp_submitted,
    parse_timestamp-IsReported r.timestamp_scheduled,
  )

  -- A date and time printed as YYYY-MM-DD HH:MM:SS, in the ranges of the format, with a point and a
  -- fraction n of any number of digits, n below 2^31, comes to the microseconds of mktime's seconds
  -- for that date and time, if these are not before 1970, plus n, as long as the clock's 64-bit
  -- count of nanoseconds holds them: with six digits this is the time, with another number of
  -- digits the fraction is scaled wrongly.
  pub parse_timestamp-stamp :
      (t : Stamp) (w n seconds : ℕ)
      → IsStamp t
      → n < 2 ^ 31
      → n < 10 ^ suc w
      → mktime (tm_of t) ≡ pos seconds
      → seconds * 1000000000 + n * 1000 < 2 ^ 63
      → parse_timestamp mktime (stamp_text t ++ (b'.' ∷ padded (suc w) n))
        ≡ ok (seconds * 1000000 + n)
  unfolding parse_timestamp
  parse_timestamp-stamp t w n seconds h small fits zone held =
      let text = stamp_text t ++ (b'.' ∷ padded (suc w) n) in
      let no_dot =
        All-stamp_text (λ c. (c == b'.') ≡ false) (λ c d. ground (arith, d)) refl refl refl t in
      let dot : find text (txt ".") ≡ some 19 =
        find-append b'.' (stamp_text t) (padded (suc w) n) no_dot
        ∙ ap some (length-stamp_text t []) in
      let micros : stoi (drop 20 text) ≡ ok (pos n) =
        ap stoi (drop-stamp_text t (padded (suc w) n) b'.')
        ∙ stoi-numeral (padded (suc w) n) (padded-IsNumeral w n)
            (rw (digits_value-padded (suc w) n fits) small)
        ∙ ap (λ v. ok (pos v)) (digits_value-padded (suc w) n fits) in
      rw (dot, take-stamp_text t (b'.' ∷ padded (suc w) n), get_time-stamp t h, zone)
        (rw (micros, whole_seconds seconds n held) (ap (λ v. ok v) (with_micros seconds n held)))
