-- ===== src/Standard/Stoi.antt =====
-- `std::stoi` at base ten: white space, a sign, digits; what follows the digits is ignored.
pub mod Laws
use mqss_client.Common.{
  ℕ, zero, suc, ◌+◌, ◌-◌, ◌*◌, ◌^◌, Bool, true, false, List, [], ◌∷◌, leb, ltb, ◌==◌, if◌then◌else◌,
}
use mqss_client.Common.Bytes.{Str, txt}
use mqss_client.Common.Words.{ℤ, pos, negsuc}
use mqss_client.Common.Effects.{Result, ok, throw, Exn, out_of_range, invalid_argument}
use mqss_client.Standard.Regex.{is_digit, is_space}

unfoldable pub skip_space : Str → Str
skip_space [] = []
skip_space (c ∷ s) = let rest = skip_space s in if is_space c then rest else c ∷ s

-- The value of the digits at the beginning.
unfoldable pub digits_value : ℕ → Str → ℕ
digits_value acc [] = acc
digits_value acc (c ∷ s) =
    let rest = digits_value (acc * 10 + (c - b'0')) s in if is_digit c then rest else acc

unfoldable pub has_digit : Str → Bool
has_digit [] = false
has_digit (c ∷ s) = is_digit c

signed : Bool → Str → Result ℤ
unfolding digits_value has_digit
signed negative s =
    if has_digit s
    then (let n = digits_value 0 s in
        if negative
        then if n == 0
          then ok (pos 0)
          else if leb n (2 ^ 31)
          then ok (negsuc (n - 1))
          else throw out_of_range
        else if ltb n (2 ^ 31)
        then ok (pos n)
        else throw out_of_range)
    else throw (invalid_argument (txt "stoi"))

after_space : Str → Result ℤ
unfolding signed
after_space [] = signed false []
after_space (c ∷ s) =
    if c == b'-' then signed true s else if c == b'+' then signed false s else signed false (c ∷ s)

unfoldable pub stoi : Str → Result ℤ
unfolding skip_space after_space
stoi s = after_space (skip_space s)
