-- ===== src/Standard/Stoi/Laws.antt =====
-- `std::stoi` on digits, and decimal numerals.
use mqss_client.Common.{
  ℕ, zero, suc, ◌+◌, ◌-◌, ◌*◌, ◌/◌, ◌%◌, ◌^◌, ◌<◌, ◌≡◌, true, [], ◌∷◌, ◌++◌, All, arith, ltb,
  All-append, Bool-cases, inl, inr, ltb→lt,
}
use mqss_client.Common.Bytes.{Str}
use mqss_client.Common.Words.{ℤ, pos}
use mqss_client.Common.Effects.{ok}
use mqss_client.Standard.Regex.{is_digit}
use mqss_client.Standard.ToString.{decimal}
use mqss_client.Standard.Stoi.{digits_value, stoi}

abbrev pub IsNumeral : Str → Type 0
IsNumeral [] = ⊥
IsNumeral (c ∷ s) = All (λ d. is_digit d ≡ true) (c ∷ s)

-- Digits whose value fits in an `int` are read as that value.
pub stoi-numeral :
    (s : Str) → IsNumeral s → digits_value 0 s < 2 ^ 31 → stoi s ≡ ok (pos (digits_value 0 s))
unfolding stoi
stoi-numeral [] h b = absurd h
stoi-numeral (c ∷ s) h b = ground arith

pub digits_value-append :
    (acc : ℕ) (s : Str) (d : ℕ)
    → All (λ c. is_digit c ≡ true) s
    → d < 10
    → digits_value acc (s ++ (b'0' + d) ∷ []) ≡ digits_value acc s * 10 + d
unfolding digits_value
digits_value-append acc [] d h b = ground arith
digits_value-append acc (c ∷ s) d h b =
    ground (arith, digits_value-append (acc * 10 + (c - b'0')) s d)

decimal-digits : (f n : ℕ) → All (λ c. is_digit c ≡ true) (decimal f n)
unfolding decimal
decimal-digits zero n = tt
decimal-digits (suc f) n = elim (Bool-cases (ltb n 10)) [
  | inl small ↦ rw small (ground arith, tt)
  | inr large ↦ rw large (
      All-append (λ c. is_digit c ≡ true) (decimal f (n / 10)) ((b'0' + n % 10) ∷ [])
        (decimal-digits f (n / 10)) (ground arith, tt))
]

pub IsNumeral-append :
    (s : Str) (d : ℕ) → All (λ c. is_digit c ≡ true) s → is_digit d ≡ true → IsNumeral (s ++ d ∷ [])
IsNumeral-append [] d h k = (k, tt)
IsNumeral-append (c ∷ s) d (p, h) k = (p, All-append (λ e. is_digit e ≡ true) s (d ∷ []) h (k, tt))

pub decimal-IsNumeral : (f n : ℕ) → n < f → IsNumeral (decimal f n)
unfolding decimal
decimal-IsNumeral zero n h = elim h [ ]
decimal-IsNumeral (suc f) n h = elim (Bool-cases (ltb n 10)) [
  | inl small ↦ rw small (ground arith, tt)
  | inr large ↦ rw large (
      IsNumeral-append (decimal f (n / 10)) (b'0' + n % 10) (decimal-digits f (n / 10))
        (ground arith))
]

one_digit : (d : ℕ) → d < 10 → digits_value 0 ((b'0' + d) ∷ []) ≡ d
unfolding digits_value
one_digit d h = ground arith

pub digits_value-decimal : (f n : ℕ) → n < f → digits_value 0 (decimal f n) ≡ n
unfolding decimal
digits_value-decimal zero n h = elim h [ ]
digits_value-decimal (suc f) n h = elim (Bool-cases (ltb n 10)) [
  | inl small ↦ rw small (one_digit n (ltb→lt n 10 small))
  | inr large ↦ rw large (
      rw
        (digits_value-append 0 (decimal f (n / 10)) (n % 10) (decimal-digits f (n / 10))
          (omega arith))
        (rw (digits_value-decimal f (n / 10) (ground arith)) (omega arith)))
]

-- Digits that `std::stoi` accepts stand for an `int` that is not negative.
pub stoi-numeral_bounds :
    (s : Str) (z : ℤ) → IsNumeral s → stoi s ≡ ok z → (n : ℕ) × (z ≡ pos n) × (n < 2 ^ 31)
unfolding stoi
stoi-numeral_bounds [] z h e = absurd h
stoi-numeral_bounds (c ∷ s) z h e = (digits_value 0 (c ∷ s), ground arith, ground arith)
