-- ===== src/Resource/Patterns.antt =====
-- The four regular expressions of src/resource.cpp. A group is named by its first atom and the
-- number of its atoms.
use mqss_client.Common.{not, ◌||◌, List, [], ◌∷◌, ◌==◌}
use mqss_client.Standard.Regex.{Class, Atom, one, many, char, is_digit, is_space}

-- `\[(\d+),\s*(\d+)\]`: the groups are atoms 1-2 and 5-6.
abbrev pub pair_pattern : List Atom
pair_pattern =
    char b'['
    ∷ one is_digit
    ∷ many is_digit
    ∷ char b','
    ∷ many is_space
    ∷ one is_digit
    ∷ many is_digit
    ∷ char b']'
    ∷ []

abbrev pub is_quote : Class
is_quote c = c == 39 || c == 34

abbrev pub not_quote : Class
not_quote c = not (is_quote c)

abbrev pub not_brace : Class
not_brace c = not (c == b'{' || c == b'}')

-- `\(\s*['"]([^'"]+)['"]\s*,\s*(\{[^{}]*\})\s*\)`: the groups are atoms 3-4 and 9-11.
abbrev pub gate_pattern : List Atom
gate_pattern =
    char b'('
    ∷ many is_space
    ∷ one is_quote
    ∷ one not_quote
    ∷ many not_quote
    ∷ one is_quote
    ∷ many is_space
    ∷ char b','
    ∷ many is_space
    ∷ char b'{'
    ∷ many not_brace
    ∷ char b'}'
    ∷ many is_space
    ∷ char b')'
    ∷ []

abbrev pub not_close : Class
not_close c = not (c == b')')

-- `([^)]*)\)\s*:\s*None`: the group is atom 0.
abbrev pub tuple_pattern : List Atom
tuple_pattern =
    many not_close
    ∷ char b')'
    ∷ many is_space
    ∷ char b':'
    ∷ many is_space
    ∷ char b'N'
    ∷ char b'o'
    ∷ char b'n'
    ∷ char b'e'
    ∷ []

-- `\d+`, taken whole.
abbrev pub number_pattern : List Atom
number_pattern = one is_digit ∷ many is_digit ∷ []
