-- ===== src/Standard/GetTime/Laws.antt =====
-- `std::get_time` on a date and a time written with leading zeros.
use mqss_client.Common.{
  ℕ, ◌-◌, ◌≤◌, ◌≡◌, refl, ap, true, List, some, [], ◌∷◌, ◌++◌, All, arith, length, All-append,
  All-mono, concat, take, drop, ◌∙◌,
}
use mqss_client.Common.Bytes.{Str, txt}
use mqss_client.Standard.Regex.{is_digit}
use mqss_client.Standard.Stoi.{skip_space}
use mqss_client.Standard.Stoi.Laws.{IsNumeral}
use mqss_client.Standard.GetTime.{
  Tm, Conversion, convert, conversions, get_time, zero_tm, date_and_time, years_since_1900, year,
  month, day, hour, minute, second, blank, literal,
}
use mqss_client.Standard.GetTime.Padded.{padded, padded-digits, padded-IsNumeral, number-padded}

-- A date and a time.
pub record Stamp : Type 0 where
  pub year_of : ℕ
  pub month_of : ℕ
  pub day_of : ℕ
  pub hour_of : ℕ
  pub minute_of : ℕ
  pub second_of : ℕ

-- The ranges of the format: four digits for the year, and a leap second.
pub record IsStamp (t : Stamp) : Type 0 where
  pub year_range : t.year_of ≤ 9999
  pub month_range : (1 ≤ t.month_of) × (t.month_of ≤ 12)
  pub day_range : (1 ≤ t.day_of) × (t.day_of ≤ 31)
  pub hour_range : t.hour_of ≤ 23
  pub minute_range : t.minute_of ≤ 59
  pub second_range : t.second_of ≤ 60

-- YYYY-MM-DD HH:MM:SS
abbrev pub stamp_text : Stamp → Str
stamp_text t = concat (
    padded 4 t.year_of
    ∷ txt "-"
    ∷ padded 2 t.month_of
    ∷ txt "-"
    ∷ padded 2 t.day_of
    ∷ txt " "
    ∷ padded 2 t.hour_of
    ∷ txt ":"
    ∷ padded 2 t.minute_of
    ∷ txt ":"
    ∷ padded 2 t.second_of
    ∷ [])

abbrev pub tm_of : Stamp → Tm
tm_of t = record {
  tm_year = years_since_1900 t.year_of;
  tm_mon = t.month_of - 1;
  tm_mday = t.day_of;
  tm_hour = t.hour_of;
  tm_min = t.minute_of;
  tm_sec = t.second_of;
}

-- A text that begins with a digit has no white space to pass over.
skip_space-append : (s rest : Str) → IsNumeral s → skip_space (s ++ rest) ≡ s ++ rest
unfolding skip_space
skip_space-append [] rest h = absurd h
skip_space-append (c ∷ s) rest h = ground (arith, h.0)

skip_space-blank : (s rest : Str) → IsNumeral s → skip_space (b' ' ∷ (s ++ rest)) ≡ s ++ rest
unfolding skip_space
skip_space-blank s rest h = skip_space-append s rest h

conversions-step :
    (x : Conversion) (xs : List Conversion) (tm : Tm) (s : Str) {tm' : Tm} {rest : Str}
    → convert x tm s ≡ some (tm', rest)
    → conversions (x ∷ xs) tm s ≡ conversions xs tm' rest
unfolding conversions
conversions-step x xs tm s e = rw (conversions, e) refl

module _ (tm : Tm) (n : ℕ) (rest : Str) where
  convert-year :
      n ≤ 9999
      → convert year tm (padded 4 n ++ rest)
        ≡ some (record tm { tm_year = years_since_1900 n }, rest)
  unfolding convert
  convert-year h = rw (number-padded 3 0 9999 n rest (omega arith) (omega arith) h) refl

  convert-month :
      (1 ≤ n) × (n ≤ 12)
      → convert month tm (padded 2 n ++ rest) ≡ some (record tm { tm_mon = n - 1 }, rest)
  unfolding convert
  convert-month (l, h) = rw (number-padded 1 1 12 n rest (omega arith) l h) refl

  convert-day :
      (1 ≤ n) × (n ≤ 31)
      → convert day tm (padded 2 n ++ rest) ≡ some (record tm { tm_mday = n }, rest)
  unfolding convert
  convert-day (l, h) = rw (number-padded 1 1 31 n rest (omega arith) l h) refl

  convert-hour :
      n ≤ 23 → convert hour tm (padded 2 n ++ rest) ≡ some (record tm { tm_hour = n }, rest)
  unfolding convert
  convert-hour h = rw (number-padded 1 0 23 n rest (omega arith) (omega arith) h) refl

  convert-minute :
      n ≤ 59 → convert minute tm (padded 2 n ++ rest) ≡ some (record tm { tm_min = n }, rest)
  unfolding convert
  convert-minute h = rw (number-padded 1 0 59 n rest (omega arith) (omega arith) h) refl

  convert-second :
      n ≤ 60 → convert second tm (padded 2 n ++ rest) ≡ some (record tm { tm_sec = n }, rest)
  unfolding convert
  convert-second h = rw (number-padded 1 0 60 n rest (omega arith) (omega arith) h) refl

  convert-blank : convert blank tm (b' ' ∷ (padded 2 n ++ rest)) ≡ some (tm, padded 2 n ++ rest)
  unfolding convert
  convert-blank = rw (skip_space-blank (padded 2 n) rest (padded-IsNumeral 1 n)) refl

convert-literal : (c : ℕ) (tm : Tm) (s : Str) → convert (literal c) tm (c ∷ s) ≡ some (tm, s)
unfolding convert
convert-literal c tm s = ground arith

conversions-nil : (tm : Tm) (s : Str) → conversions [] tm s ≡ tm
unfolding conversions
conversions-nil tm s = refl

conversions-stamp :
    (t : Stamp) → IsStamp t → conversions date_and_time zero_tm (stamp_text t) ≡ tm_of t
conversions-stamp t h =
    conversions-step _ _ _ _ (convert-year _ _ _ h.year_range)
    ∙ conversions-step _ _ _ _ (convert-literal b'-' _ _)
    ∙ conversions-step _ _ _ _ (convert-month _ _ _ h.month_range)
    ∙ conversions-step _ _ _ _ (convert-literal b'-' _ _)
    ∙ conversions-step _ _ _ _ (convert-day _ _ _ h.day_range)
    ∙ conversions-step _ _ _ _ (convert-blank _ _ _)
    ∙ conversions-step _ _ _ _ (convert-hour _ _ _ h.hour_range)
    ∙ conversions-step _ _ _ _ (convert-literal b':' _ _)
    ∙ conversions-step _ _ _ _ (convert-minute _ _ _ h.minute_range)
    ∙ conversions-step _ _ _ _ (convert-literal b':' _ _)
    ∙ conversions-step _ _ _ _ (convert-second _ _ _ h.second_range)
    ∙ conversions-nil _ _

pub get_time-stamp :
    (t : Stamp) → IsStamp t → get_time date_and_time (stamp_text t) zero_tm ≡ tm_of t
unfolding get_time
get_time-stamp t h =
    ap (λ s. conversions date_and_time zero_tm s)
      (skip_space-append (padded 4 t.year_of) _ (padded-IsNumeral 3 t.year_of))
    ∙ conversions-stamp t h

-- A stamp has 19 characters, none of them a point.
module _ (t : Stamp) (rest : Str) where
  pub length-stamp_text : length (stamp_text t) ≡ 19
  unfolding padded
  length-stamp_text = refl

  pub take-stamp_text : take 19 (stamp_text t ++ rest) ≡ stamp_text t
  unfolding padded
  take-stamp_text = refl

  pub drop-stamp_text : (c : ℕ) → drop 20 (stamp_text t ++ (c ∷ rest)) ≡ rest
  unfolding padded
  drop-stamp_text c = refl

module _ (P : ℕ → Type 0) (digit : (c : ℕ) → is_digit c ≡ true → P c) where
  All-padded : (w n : ℕ) (rest : Str) → All P rest → All P (padded w n ++ rest)
  All-padded w n rest h =
      All-append P (padded w n) rest (All-mono digit (padded w n) (padded-digits w n)) h

  pub All-stamp_text : P b'-' → P b' ' → P b':' → (t : Stamp) → All P (stamp_text t)
  All-stamp_text dash space colon t = All-padded 4 t.year_of _ (
    dash,
    All-padded 2 t.month_of _ (
      dash,
      All-padded 2 t.day_of _ (
        space,
        All-padded 2 t.hour_of _
            (colon, All-padded 2 t.minute_of _ (colon, All-padded 2 t.second_of _ tt)),
      ),
    ),
  )
