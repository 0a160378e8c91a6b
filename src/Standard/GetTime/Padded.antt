-- ===== src/Standard/GetTime/Padded.antt =====
-- Numbers written with leading zeros, and how `std::get_time` reads them.
use mqss_client.Common.{
  ℕ, zero, suc, ◌+◌, ◌-◌, ◌*◌, ◌/◌, ◌%◌, ◌^◌, ◌<◌, ◌≤◌, ◌≡◌, refl, ap, true, some, [], ◌∷◌, ◌++◌,
  All, arith, length, All-append, length-append, ◌∙◌, subst,
}
use mqss_client.Common.Bytes.{Str}
use mqss_client.Standard.Regex.{is_digit}
use mqss_client.Standard.Stoi.{digits_value, has_digit}
use mqss_client.Standard.Stoi.Laws.{digits_value-append, IsNumeral-append, IsNumeral}
use mqss_client.Standard.GetTime.{up_to, number}

-- The last `w` digits of a number, with zeros in front.
unfoldable pub padded : ℕ → ℕ → Str
padded zero n = []
padded (suc w) n = padded w (n / 10) ++ (b'0' + n % 10) ∷ []

pub padded-digits : (w n : ℕ) → All (λ c. is_digit c ≡ true) (padded w n)
unfolding padded
padded-digits zero n = tt
padded-digits (suc w) n =
    All-append (λ c. is_digit c ≡ true) (padded w (n / 10)) ((b'0' + n % 10) ∷ [])
      (padded-digits w (n / 10)) (ground arith, tt)

pub padded-IsNumeral : (w n : ℕ) → IsNumeral (padded (suc w) n)
unfolding padded
padded-IsNumeral w n =
    IsNumeral-append (padded w (n / 10)) (b'0' + n % 10) (padded-digits w (n / 10)) (ground arith)

length-padded : (w n : ℕ) → length (padded w n) ≡ w
unfolding padded
length-padded zero n = refl
length-padded (suc w) n =
    omega
      (arith, length-append (padded w (n / 10)) ((b'0' + n % 10) ∷ []), length-padded w (n / 10))

pub digits_value-padded : (w n : ℕ) → n < 10 ^ w → digits_value 0 (padded w n) ≡ n
unfolding padded digits_value
digits_value-padded zero n h = omega arith
digits_value-padded (suc w) n h =
    rw (digits_value-append 0 (padded w (n / 10)) (n % 10) (padded-digits w (n / 10)) (omega arith))
      (rw (digits_value-padded w (n / 10) (ground arith)) (omega arith))

up_to-digits :
    (acc : ℕ) (s rest : Str)
    → All (λ c. is_digit c ≡ true) s
    → up_to (length s) acc (s ++ rest) ≡ (digits_value acc s, rest)
unfolding up_to digits_value
up_to-digits acc [] rest h = refl
up_to-digits acc (c ∷ s) rest (d, h) = rw d (up_to-digits (acc * 10 + (c - b'0')) s rest h)

has_digit-append : (s rest : Str) → IsNumeral s → has_digit (s ++ rest) ≡ true
unfolding has_digit
has_digit-append [] rest h = absurd h
has_digit-append (c ∷ s) rest h = h.0

pub number-padded :
    (w lowest highest n : ℕ) (rest : Str)
    → n < 10 ^ suc w
    → lowest ≤ n
    → n ≤ highest
    → number (suc w) lowest highest (padded (suc w) n ++ rest) ≡ some (n, rest)
unfolding number
number-padded w lowest highest n rest h l m =
    let digits = up_to-digits 0 (padded (suc w) n) rest (padded-digits (suc w) n) in
    let read : up_to (suc w) 0 (padded (suc w) n ++ rest) ≡ (n, rest) =
      subst (λ k. up_to k 0 (padded (suc w) n ++ rest) ≡ (n, rest)) (length-padded (suc w) n)
        (digits ∙ ap (λ v. (v, rest)) (digits_value-padded (suc w) n h)) in
    rw (has_digit-append (padded (suc w) n) rest (padded-IsNumeral w n)) (rw read (ground arith))
