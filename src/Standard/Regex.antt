-- ===== src/Standard/Regex.antt =====
-- `std::regex` and `std::sregex_iterator`, for the patterns of src/resource.cpp: a sequence of
-- character classes and of greedy repetitions of one class, matched by backtracking as ECMAScript
-- prescribes. `x+` is the class followed by its repetition.
pub mod Laws
pub mod Sound
use mqss_client.Common.{
  ℕ, zero, suc, ◌-◌, Bool, true, false, ◌&&◌, ◌||◌, Option, none, some, List, [], ◌∷◌, ◌++◌, leb,
  ◌==◌, if◌then◌else◌, length, take, drop, concat,
}
use mqss_client.Common.Bytes.{Str}
use mathlib.Core.Option

abbrev pub Class : Type 0
Class = ℕ → Bool

pub data Atom : Type 0 where
  one many : Class → Atom

-- `\d` and `\s`, in the C locale.
abbrev pub is_digit : Class
is_digit c = leb b'0' c && leb c b'9'

abbrev pub is_space : Class
is_space c = c == b' ' || (leb 9 c && leb c 13)

abbrev pub char : ℕ → Atom
char a = one (λ c. c == a)

abbrev grow : ℕ → List Str → List Str
grow c [] = []
grow c (p ∷ ps) = (c ∷ p) ∷ ps

-- `k` matches the rest of the pattern. The longest repetition is tried first.
repeat : Class → (Str → Option (List Str)) → Str → Option (List Str)
repeat p k [] = Option.map (λ ps. [] ∷ ps) (k [])
repeat p k (c ∷ s) =
    let longer = repeat p k s in
    let stop = Option.map (λ ps. [] ∷ ps) (k (c ∷ s)) in
    if p c then elim longer [ none ↦ stop | some ps ↦ some (grow c ps) ] else stop

-- A match at the beginning of the text: the piece that each atom takes.
pub match : List Atom → Str → Option (List Str)
unfolding repeat
match [] s = some []
match (one p ∷ atoms) [] = none
match (one p ∷ atoms) (c ∷ s) =
    let after = match atoms s in if p c then Option.map (λ ps. (c ∷ []) ∷ ps) after else none
match (many p ∷ atoms) s = repeat p (match atoms) s

-- All matches from left to right, each search from the end of the last match; the number is how
-- many characters of that match are still to be passed. A pattern here takes a character at least.
scan : List Atom → ℕ → Str → List (List Str)
scan atoms n [] = []
scan atoms (suc n) (c ∷ s) = scan atoms n s
scan atoms zero (c ∷ s) = elim (match atoms (c ∷ s)) [
  | none ↦ scan atoms zero s
  | some ps ↦ ps ∷ scan atoms (length (concat ps) - 1) s
]

unfoldable pub find_all : List Atom → Str → List (List Str)
unfolding match scan
find_all atoms s = scan atoms zero s

-- The text of a group that spans `n` atoms from the `i`-th.
abbrev pub group : ℕ → ℕ → List Str → Str
group i n ps = concat (take n (drop i ps))
