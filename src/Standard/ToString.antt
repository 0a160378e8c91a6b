-- ===== src/Standard/ToString.antt =====
-- `std::to_string` of an integer: its decimal numeral.
use mqss_client.Common.{ℕ, zero, suc, ◌+◌, ◌/◌, ◌%◌, [], ◌∷◌, ◌++◌, ltb, if◌then◌else◌}
use mqss_client.Common.Bytes.{Str}
use mqss_client.Common.Words.{ℤ, pos, negsuc}

-- The digits of a number below the fuel or equal to it.
unfoldable pub decimal : ℕ → ℕ → Str
decimal zero n = []
decimal (suc f) n =
    let more = decimal f (n / 10) in
    if ltb n 10 then (b'0' + n) ∷ [] else more ++ (b'0' + n % 10) ∷ []

unfoldable pub numeral : ℕ → Str
unfolding decimal
numeral n = decimal (suc n) n

unfoldable pub to_string : ℤ → Str
unfolding numeral
to_string (pos n) = numeral n
to_string (negsuc n) = b'-' ∷ numeral (suc n)
