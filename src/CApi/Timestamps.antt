-- ===== src/CApi/Timestamps.antt =====
-- src/c_bindings/job.cpp: the time stamps of a result as microseconds. `mktime`, which knows the
-- time zone of the machine, is an argument.
pub mod Laws
use mqss_client.Common.{ℕ, suc, Bool, true, false, Option, none, some, take, drop}
use mqss_client.Common.Bytes.{Str, txt, find}
use mqss_client.Common.Words.{ℤ, pos, negsuc, to_unsigned64, to_signed64, scale, quotient, ◌+ℤ◌}
use mqss_client.Common.Effects.{Result, ok, throw, ◌>>=◌}
use mqss_client.Standard.GetTime.{Tm, zero_tm, get_time, date_and_time}
use mqss_client.Standard.Stoi.{stoi}
use mqss_client.Job.{JobResult}

-- What a getter returns, and what it writes, if it writes.
abbrev pub Reported : Type 0
Reported = ℤ × Option ℕ

-- `try { *timestamp = parsed; } catch (...) { return -2; } return 0;`
abbrev pub reported : Result ℕ → Reported
reported (ok t) = (pos 0, some t)
reported (throw _) = (negsuc 1, none)

module _ (mktime : Tm → ℤ) where
  -- `parseTimestamp`, with the clock of libstdc++, which counts nanoseconds in 64 bits.
  unfoldable pub parse_timestamp : Str → Result ℕ
  parse_timestamp s = do
    let tm = get_time date_and_time (take 19 s) zero_tm
    let whole = to_signed64 (scale 1000000000 (mktime tm))
    tp ← elim (find s (txt ".")) [
      | none ↦ ok whole
      | some dot ↦ do
        micros ← stoi (drop (suc dot) s)
        ok (to_signed64 (whole +ℤ scale 1000 micros))
    ]
    ok (to_unsigned64 (quotient tp 1000))

  -- The functions test the result and the address to write to, given by `given`, for null.
  unfoldable pub get_job_result_completed_timestamp : Option JobResult → (given : Bool) → Reported
  unfolding parse_timestamp
  get_job_result_completed_timestamp (some r) true =
      reported (parse_timestamp r.timestamp_completed)
  get_job_result_completed_timestamp _ given = (negsuc 0, none)

  unfoldable pub get_job_result_submitted_timestamp : Option JobResult → (given : Bool) → Reported
  unfolding parse_timestamp
  get_job_result_submitted_timestamp (some r) true =
      reported (parse_timestamp r.timestamp_submitted)
  get_job_result_submitted_timestamp _ given = (negsuc 0, none)

  unfoldable pub get_job_result_scheduled_timestamp : Option JobResult → (given : Bool) → Reported
  unfolding parse_timestamp
  get_job_result_scheduled_timestamp (some r) true =
      reported (parse_timestamp r.timestamp_scheduled)
  get_job_result_scheduled_timestamp _ given = (negsuc 0, none)
