-- ===== src/Standard/GetTime.antt =====
-- `std::get_time` with the conversions of a date and a time, on a stream that holds a text.
pub mod Padded
pub mod Laws
use mqss_client.Common.{
  ℕ, zero, suc, ◌+◌, ◌-◌, ◌*◌, Bool, true, false, ◌&&◌, Option, none, some, List, [], ◌∷◌, leb,
  ◌==◌, if◌then◌else◌,
}
use mathlib.Core.Option
use mqss_client.Common.Bytes.{Str}
use mqss_client.Common.Words.{ℤ, pos, negsuc}
use mqss_client.Standard.Regex.{is_digit, is_space}
use mqss_client.Standard.Stoi.{has_digit, skip_space}

-- `std::tm`, with the fields that these conversions write. `tm_year` counts from 1900, `tm_mon`
-- from 0.
pub record Tm : Type 0 where
  pub tm_year : ℤ
  pub tm_mon : ℕ
  pub tm_mday : ℕ
  pub tm_hour : ℕ
  pub tm_min : ℕ
  pub tm_sec : ℕ

-- `std::tm tm = {}`
abbrev pub zero_tm : Tm
zero_tm = record { tm_year = pos 0; tm_mon = 0; tm_mday = 0; tm_hour = 0; tm_min = 0; tm_sec = 0 }

-- The value of the digits at the beginning, at most `w` of them, and what follows.
pub up_to : ℕ → ℕ → Str → ℕ × Str
up_to zero acc s = (acc, s)
up_to (suc w) acc [] = (acc, [])
up_to (suc w) acc (c ∷ s) =
    let rest = up_to w (acc * 10 + (c - b'0')) s in if is_digit c then rest else (acc, c ∷ s)

-- A number of at most `w` digits in a range, and what follows.
pub number : ℕ → ℕ → ℕ → Str → Option (ℕ × Str)
unfolding up_to
number w lowest highest s =
    if has_digit s
    then (let (n, rest) = up_to w 0 s in
        if leb lowest n && leb n highest then some (n, rest) else none)
    else none

abbrev pub years_since_1900 : ℕ → ℤ
years_since_1900 y = if leb 1900 y then pos (y - 1900) else negsuc (1899 - y)

-- `%Y`, `%m`, `%d`, `%H`, `%M`, `%S`, white space, and another character.
pub data Conversion : Type 0 where
  year month day hour minute second blank : Conversion
  literal : ℕ → Conversion

-- What a conversion makes of the time and the text, `none` when it fails.
pub convert : Conversion → Tm → Str → Option (Tm × Str)
unfolding number skip_space
convert year tm s =
    Option.map (λ p. (record tm { tm_year = years_since_1900 p.0 }, p.1)) (number 4 0 9999 s)
convert month tm s = Option.map (λ p. (record tm { tm_mon = p.0 - 1 }, p.1)) (number 2 1 12 s)
convert day tm s = Option.map (λ p. (record tm { tm_mday = p.0 }, p.1)) (number 2 1 31 s)
convert hour tm s = Option.map (λ p. (record tm { tm_hour = p.0 }, p.1)) (number 2 0 23 s)
convert minute tm s = Option.map (λ p. (record tm { tm_min = p.0 }, p.1)) (number 2 0 59 s)
convert second tm s = Option.map (λ p. (record tm { tm_sec = p.0 }, p.1)) (number 2 0 60 s)
convert blank tm s = some (tm, skip_space s)
convert (literal c) tm [] = none
convert (literal c) tm (d ∷ s) = if d == c then some (tm, s) else none

-- The conversions in turn. The first that fails ends the reading, and what was read is kept.
pub conversions : List Conversion → Tm → Str → Tm
unfolding convert
conversions [] tm s = tm
conversions (x ∷ xs) tm s = elim (convert x tm s) [
  | none ↦ tm
  | some (tm', rest) ↦ conversions xs tm' rest
]

-- "%Y-%m-%d %H:%M:%S"
abbrev pub date_and_time : List Conversion
date_and_time =
    year
    ∷ literal b'-'
    ∷ month
    ∷ literal b'-'
    ∷ day
    ∷ blank
    ∷ hour
    ∷ literal b':'
    ∷ minute
    ∷ literal b':'
    ∷ second
    ∷ []

-- `ss >> std::get_time(&tm, format)`, which passes over white space first.
unfoldable pub get_time : List Conversion → Str → Tm → Tm
unfolding conversions
get_time format s tm = conversions format tm (skip_space s)
