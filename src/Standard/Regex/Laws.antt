-- ===== src/Standard/Regex/Laws.antt =====
-- The matcher on texts of a known shape: a repetition whose class the next character leaves.
use mqss_client.Common.{
  ℕ, ◌-◌, ◌≡◌, refl, ap, true, false, Option, none, some, List, [], ◌∷◌, ◌++◌, length, concat, All,
  arith,
}
use mqss_client.Common.Bytes.{Str}
use mqss_client.Standard.Regex.{Class, Atom, one, many, repeat, match, scan, find_all}

-- The text is empty or begins with a character outside the class.
abbrev pub Leaves : Class → Str → Type 0
Leaves p [] = Unit
Leaves p (c ∷ s) = p c ≡ false

repeat-append :
    (p : Class) (k : Str → Option (List Str)) (w r : Str) (ps : List Str)
    → All (λ c. p c ≡ true) w
    → Leaves p r
    → k r ≡ some ps
    → repeat p k (w ++ r) ≡ some (w ∷ ps)
unfolding repeat
repeat-append p k [] [] ps h l e = ground arith
repeat-append p k [] (c ∷ r) ps h l e = ground arith
repeat-append p k (c ∷ w) r ps h l e = ground (arith, repeat-append p k w r ps h.1 l e)

pub match-many :
    (p : Class) (atoms : List Atom) (w r : Str) (ps : List Str)
    → All (λ c. p c ≡ true) w
    → Leaves p r
    → match atoms r ≡ some ps
    → match (many p ∷ atoms) (w ++ r) ≡ some (w ∷ ps)
unfolding match
match-many p atoms w r ps h l e = repeat-append p (match atoms) w r ps h l e

pub match-one :
    (p : Class) (atoms : List Atom) (c : ℕ) (r : Str) (ps : List Str)
    → p c ≡ true
    → match atoms r ≡ some ps
    → match (one p ∷ atoms) (c ∷ r) ≡ some ((c ∷ []) ∷ ps)
unfolding match
match-one p atoms c r ps h e = ground arith

pub match-one_ne :
    (p : Class) (atoms : List Atom) (c : ℕ) (r : Str)
    → p c ≡ false
    → match (one p ∷ atoms) (c ∷ r) ≡ none
unfolding match
match-one_ne p atoms c r h = ground arith

scan_skip : (atoms : List Atom) (w r : Str) → scan atoms (length w) (w ++ r) ≡ scan atoms 0 r
unfolding scan
scan_skip atoms [] r = refl
scan_skip atoms (c ∷ w) r = scan_skip atoms w r

-- Characters at which no match begins are passed.
pub find_all-append :
    (p : Class) (atoms : List Atom) (w r : Str)
    → All (λ c. p c ≡ false) w
    → find_all (one p ∷ atoms) (w ++ r) ≡ find_all (one p ∷ atoms) r
unfolding find_all
find_all-append p atoms [] r h = refl
find_all-append p atoms (c ∷ w) r h = ground (arith, find_all-append p atoms w r h.1)

-- A match is found, and the search goes on behind it.
pub find_all-match :
    (atoms : List Atom) (c : ℕ) (w r : Str) (ps : List Str)
    → match atoms (c ∷ (w ++ r)) ≡ some ps
    → concat ps ≡ c ∷ w
    → find_all atoms (c ∷ (w ++ r)) ≡ ps ∷ find_all atoms r
unfolding find_all
find_all-match atoms c w r ps e whole =
    let passed : length (concat ps) - 1 ≡ length w = omega (arith, ap length whole) in
    rw (e, scan) (rw passed (rw (scan_skip atoms w r)))

pub match-nil : (r : Str) → match [] r ≡ some []
unfolding match
match-nil r = refl

pub find_all-nil : (p : Class) (atoms : List Atom) → find_all (one p ∷ atoms) [] ≡ []
unfolding find_all
find_all-nil p atoms = refl

pub match-one_none :
    (p : Class) (atoms : List Atom) (c : ℕ) (r : Str)
    → match atoms r ≡ none
    → match (one p ∷ atoms) (c ∷ r) ≡ none
unfolding match
match-one_none p atoms c r e = ground arith

-- A character at which no match begins is passed.
pub find_all-cons :
    (atoms : List Atom) (c : ℕ) (r : Str)
    → match atoms (c ∷ r) ≡ none
    → find_all atoms (c ∷ r) ≡ find_all atoms r
unfolding find_all
find_all-cons atoms c r e = rw (e, scan)
