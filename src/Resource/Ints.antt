-- ===== src/Resource/Ints.antt =====
-- The coupling map holds pairs of qubit indices, whatever the server sent.
use mqss_client.Common.{Option, ℕ, ◌^◌, ◌<◌, ◌≡◌, none, some, List, [], ◌∷◌, drop, All}
use mqss_client.Common.Bytes.{Str}
use mqss_client.Common.Words.{ℤ, pos}
use mqss_client.Common.Effects.{ok, >>=-eq-ok}
use mqss_client.Standard.Regex.{find_all, group, char, is_space, is_digit, Atom, one, many}
use mqss_client.Standard.Regex.Sound.{Fits, Fits-drop, group-some, find_all-Fits}
use mqss_client.Standard.Stoi.{stoi}
use mqss_client.Standard.Stoi.Laws.{stoi-numeral_bounds}
use mqss_client.Json.{JsonLib}
use mqss_client.Resource.{read_pairs, listed, extract_coupling_map}
use mqss_client.Resource.Patterns.{pair_pattern}

-- A group `(\d+)` that `std::stoi` accepts.
pub stoi-group :
    (atoms : List Atom) (ps : List Str) (z : ℤ)
    → Fits (one is_digit ∷ many is_digit ∷ atoms) ps
    → stoi (group 0 2 ps) ≡ ok z
    → (n : ℕ) × (z ≡ pos n) × (n < 2 ^ 31)
stoi-group atoms ps z f e =
    let (c, w, same, digits) = group-some is_digit atoms ps f in
    stoi-numeral_bounds (c ∷ w) z digits (rw same at e)

-- Two `int` values that are not negative.
abbrev pub IsPair : List ℤ → Type 0
IsPair row = (a : ℕ) × (b : ℕ) × (row ≡ pos a ∷ pos b ∷ []) × (a < 2 ^ 31) × (b < 2 ^ 31)

read_pairs-IsPair :
    (ms : List (List Str)) (rows : List (List ℤ))
    → All (Fits pair_pattern) ms
    → read_pairs ms ≡ ok rows
    → All IsPair rows
unfolding read_pairs
read_pairs-IsPair [] [] f e = tt
read_pairs-IsPair [] (_ ∷ _) f e = cc
read_pairs-IsPair (m ∷ ms) rows (f, fs) e =
    let (a, ea, e₁) = >>=-eq-ok (stoi (group 1 2 m)) _ e in
    let (b, eb, e₂) = >>=-eq-ok (stoi (group 5 2 m)) _ e₁ in
    let (rest, er, e₃) = >>=-eq-ok (read_pairs ms) _ e₂ in
    let (i, ia, la) =
      stoi-group (char b',' ∷ many is_space ∷ one is_digit ∷ many is_digit ∷ char b']' ∷ [])
        (drop 1 m) a (Fits-drop 1 pair_pattern m f) ea in
    let (j, jb, lb) = stoi-group (char b']' ∷ []) (drop 5 m) b (Fits-drop 5 pair_pattern m f) eb in
    let same : (a ∷ b ∷ []) ∷ rest ≡ rows = cc in
    rw (← same) ((i, j, cc, la, lb), read_pairs-IsPair ms rest fs er)

module _ (J : JsonLib) where
  -- Every row of a coupling map that is read has two entries, both at least 0 and below 2^31,
  -- whatever JSON value the server sent.
  pub extract_coupling_map-IsPair :
      (response : J.Json) (key : Str) (rows : List (List ℤ))
      → extract_coupling_map J response key ≡ ok rows
      → All IsPair rows
  unfolding extract_coupling_map
  extract_coupling_map-IsPair response key rows e =
      let (found, _, e') = >>=-eq-ok (listed J response key) _ e in pairs found e'
    where
      pairs :
          (found : Option Str)
          → (elim found [ none ↦ ok [] | some text ↦ read_pairs (find_all pair_pattern text) ])
            ≡ ok rows
          → All IsPair rows
      pairs none q = read_pairs-IsPair [] rows tt q
      pairs (some text) q = read_pairs-IsPair _ rows (find_all-Fits pair_pattern text) q
