-- ===== src/Tests/TimestampTests.antt =====
-- Time stamps, in the time zone of Greenwich.
use mqss_client.Common.{
  [], ℕ, ◌+◌, ◌-◌, ◌*◌, ◌/◌, ◌%◌, ◌≡◌, refl, true, false, none, some, arith, ltb, if◌then◌else◌,
  ◌++◌, ◌∷◌,
}
use mqss_client.Common.Bytes.{txt, find, starts_with}
use mqss_client.Common.Words.{ℤ, pos, negsuc, to_unsigned64, quotient, to_signed64, ◌+ℤ◌, scale}
use mqss_client.Common.Effects.{ok}
use mqss_client.Standard.GetTime.{Tm, get_time}
use mqss_client.Standard.Stoi.{stoi}
use mqss_client.Standard.GetTime.Padded.{padded}
use mqss_client.Standard.GetTime.Laws.{Stamp, IsStamp, stamp_text}
use mqss_client.Job.{JobResult}
use mqss_client.CApi.Timestamps.{
  parse_timestamp, get_job_result_completed_timestamp, get_job_result_submitted_timestamp,
  get_job_result_scheduled_timestamp,
}
use mqss_client.CApi.Timestamps.Laws.{
  IsReported, get_job_result_timestamp-IsReported, parse_timestamp-stamp,
}

-- The seconds from 1970, for years from 1970.
abbrev seconds_of : (year month : ℕ) → Tm → ℕ
seconds_of year month tm =
    let days =
      365 * year
      + year / 4
      - year / 100
      + year / 400
      + (153 * month + 2) / 5
      + tm.tm_mday
      - 719469 in
    ((days * 24 + tm.tm_hour) * 60 + tm.tm_min) * 60 + tm.tm_sec

abbrev greenwich_of : ℤ → Tm → ℤ
greenwich_of (pos y) tm =
    pos (seconds_of (if ltb tm.tm_mon 2 then y + 1899 else y + 1900) ((tm.tm_mon + 10) % 12) tm)
greenwich_of (negsuc y) tm = negsuc 0

abbrev greenwich : Tm → ℤ
greenwich tm = greenwich_of tm.tm_year tm

abbrev summer : Stamp
summer = record {
  year_of = 2026;
  month_of = 5;
  day_of = 26;
  hour_of = 11;
  minute_of = 26;
  second_of = 7;
}

summer-IsStamp : IsStamp summer
summer-IsStamp = record {
  year_range = omega arith;
  month_range = (omega arith, omega arith);
  day_range = (omega arith, omega arith);
  hour_range = omega arith;
  minute_range = omega arith;
  second_range = omega arith;
}

abbrev stamped : JobResult
stamped = record {
  results = [];
  timestamp_completed = txt "2026-05-26 11:26:07.615381";
  timestamp_submitted = txt "1970-01-01 00:00:01";
  timestamp_scheduled = txt "2026-05-26 08:07:40.x";
}

timestamp_tests :
    (get_job_result_completed_timestamp greenwich (some stamped) true
      ≡ (pos 0, some 1_779_794_767_615_381))
    × (get_job_result_submitted_timestamp greenwich (some stamped) true ≡ (pos 0, some 1_000_000))
    × (get_job_result_scheduled_timestamp greenwich (some stamped) true ≡ (negsuc 1, none))
    × (get_job_result_scheduled_timestamp greenwich (some stamped) false ≡ (negsuc 0, none))
unfolding get_job_result_completed_timestamp get_job_result_submitted_timestamp
    get_job_result_scheduled_timestamp find starts_with stoi to_unsigned64 quotient to_signed64 ◌+ℤ◌
    scale get_time
timestamp_tests = (refl, refl, refl, refl)

-- Half a second in three digits comes to 500 microseconds.
fraction_test : parse_timestamp greenwich (txt "2026-05-26 11:26:07.500") ≡ ok 1_779_794_767_000_500
unfolding parse_timestamp find starts_with stoi to_unsigned64 quotient to_signed64 ◌+ℤ◌ scale
    get_time
fraction_test = refl

parse_timestamp-stamp_example :
    parse_timestamp greenwich (stamp_text summer ++ (b'.' ∷ padded 6 615_381))
    ≡ ok (1_779_794_767 * 1_000_000 + 615_381)
parse_timestamp-stamp_example =
    parse_timestamp-stamp greenwich summer 5 615_381 1_779_794_767 summer-IsStamp (omega arith)
      (omega arith) refl (omega arith)

get_job_result_timestamp-IsReported_example :
    IsReported
      (txt "2026-05-26 11:26:07.615381")
      (get_job_result_completed_timestamp greenwich (some stamped) true)
    × IsReported
        (txt "1970-01-01 00:00:01")
        (get_job_result_submitted_timestamp greenwich (some stamped) true)
    × IsReported
        (txt "2026-05-26 08:07:40.x")
        (get_job_result_scheduled_timestamp greenwich (some stamped) true)
get_job_result_timestamp-IsReported_example = get_job_result_timestamp-IsReported greenwich stamped
