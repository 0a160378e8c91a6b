-- ===== src/Resource/Couplings.antt =====
-- The coupling map: `extractCouplingMap` reads back what a server prints, and nothing but pairs.
use mqss_client.Common.{
  ℕ, suc, ◌^◌, ◌<◌, ◌≡◌, refl, ap, ◌∙◌, true, false, some, List, [], ◌∷◌, ◌++◌, map, All, arith,
  append_assoc, append-nil,
}
use mqss_client.Common.Bytes.{Str, txt, str_eq}
use mqss_client.Common.Words.{ℤ, pos}
use mqss_client.Common.Effects.{ok}
use mqss_client.Standard.Regex.{match, find_all, group, is_digit}
use mqss_client.Standard.Regex.Laws.{
  match-one, match-one_ne, match-one_none, find_all-cons, match-many, match-nil, find_all-append,
  find_all-match, find_all-nil,
}
use mqss_client.Standard.Stoi.{stoi}
use mqss_client.Standard.Stoi.Laws.{
  IsNumeral, stoi-numeral, decimal-IsNumeral, digits_value-decimal,
}
use mqss_client.Standard.ToString.{numeral, decimal}
use mqss_client.Json.{JsonLib}
use mqss_client.Resource.{read_pairs, listed, extract_coupling_map}
use mqss_client.Resource.Patterns.{pair_pattern}

abbrev IsDigits : Str → Type 0
IsDigits s = All (λ c. is_digit c ≡ true) s

module _ (c : ℕ) (u : Str) (d : ℕ) (v : Str) where
  abbrev pair_pieces : List Str
  pair_pieces = txt "[" ∷ (c ∷ []) ∷ u ∷ txt "," ∷ txt " " ∷ (d ∷ []) ∷ v ∷ txt "]" ∷ []

  match-pair :
      (r : Str)
      → IsDigits (c ∷ u)
      → IsDigits (d ∷ v)
      → match pair_pattern (b'[' ∷ c ∷ (u ++ (b',' ∷ b' ' ∷ d ∷ (v ++ (b']' ∷ r)))))
        ≡ some pair_pieces
  match-pair r h k = match-one _ _ _ _ _ refl (
      match-one _ _ _ _ _ h.0 (
        match-many _ _ u _ _ h.1 refl (
          match-one _ _ _ _ _ refl (
            match-many _ _ (b' ' ∷ []) _ _ (refl, tt) (ground arith)
              (match-one _ _ _ _ _ k.0
                (match-many _ _ v _ _ k.1 refl (match-one _ _ _ _ _ refl (match-nil r))))))))

-- `[a, b]`, before the rest of the text.
abbrev print_pair : Str → Str → Str → Str
print_pair a b r = b'[' ∷ (a ++ (b',' ∷ b' ' ∷ (b ++ (b']' ∷ r))))

record IsFound (a b r : Str) : Type 0 where
  pieces : List Str
  found : find_all pair_pattern (print_pair a b r) ≡ pieces ∷ find_all pair_pattern r
  left : group 1 2 pieces ≡ a
  right : group 5 2 pieces ≡ b

find_all-print_pair : (a b r : Str) → IsNumeral a → IsNumeral b → IsFound a b r
find_all-print_pair [] b r h k = absurd h
find_all-print_pair (c ∷ u) [] r h k = absurd k
find_all-print_pair (c ∷ u) (d ∷ v) r h k =
    let w : Str = c ∷ (u ++ (b',' ∷ b' ' ∷ d ∷ (v ++ (b']' ∷ [])))) in
    let whole : w ++ r ≡ c ∷ (u ++ (b',' ∷ b' ' ∷ d ∷ (v ++ (b']' ∷ r)))) = simp append_assoc in
    record {
      pieces = pair_pieces c u d v;
      found = rw (← whole) (
          find_all-match pair_pattern b'[' w r (pair_pieces c u d v)
            (rw whole (match-pair c u d v r h k)) refl);
      left = ap (λ s. c ∷ s) (append-nil u);
      right = ap (λ s. d ∷ s) (append-nil v);
    }

pub numeral-IsNumeral : (n : ℕ) → IsNumeral (numeral n)
unfolding numeral
numeral-IsNumeral n = decimal-IsNumeral (suc n) n (omega arith)

pub stoi-numeral_lem : (n : ℕ) → n < 2 ^ 31 → stoi (numeral n) ≡ ok (pos n)
unfolding numeral
stoi-numeral_lem n h =
    let value = digits_value-decimal (suc n) n (omega arith) in
    stoi-numeral (decimal (suc n) n) (numeral-IsNumeral n) (omega (arith, value))
    ∙ ap (λ m. ok (pos m)) value

-- The text of a coupling map, a Python list of pairs.
print_rest : List (ℕ × ℕ) → Str
print_rest [] = txt "]"
print_rest ((a, b) ∷ ps) = b',' ∷ b' ' ∷ print_pair (numeral a) (numeral b) (print_rest ps)

unfoldable pub print_couplings : List (ℕ × ℕ) → Str
unfolding print_rest
print_couplings [] = txt "[]"
print_couplings ((a, b) ∷ ps) = b'[' ∷ print_pair (numeral a) (numeral b) (print_rest ps)

abbrev pub AreInts : List (ℕ × ℕ) → Type 0
AreInts ps = All (λ p. (p.0 < 2 ^ 31) × (p.1 < 2 ^ 31)) ps

abbrev pub row : ℕ × ℕ → List ℤ
row (a, b) = pos a ∷ pos b ∷ []

read_pairs-print_pair :
    (a b : ℕ) (r : Str) (rows : List (List ℤ))
    → a < 2 ^ 31
    → b < 2 ^ 31
    → read_pairs (find_all pair_pattern r) ≡ ok rows
    → read_pairs (find_all pair_pattern (print_pair (numeral a) (numeral b) r))
      ≡ ok (row (a, b) ∷ rows)
unfolding read_pairs
read_pairs-print_pair a b r rows ha hb e =
    let f =
      find_all-print_pair (numeral a) (numeral b) r (numeral-IsNumeral a) (numeral-IsNumeral b) in
    rw f.found (simp (f.left, f.right, stoi-numeral_lem a ha, stoi-numeral_lem b hb, e))

read_pairs-print_rest :
    (ps : List (ℕ × ℕ))
    → AreInts ps
    → read_pairs (find_all pair_pattern (print_rest ps)) ≡ ok (map row ps)
unfolding read_pairs print_rest
read_pairs-print_rest [] h = rw (find_all-append _ _ (b']' ∷ []) [] (refl, tt)) (rw find_all-nil)
read_pairs-print_rest ((a, b) ∷ ps) h =
    rw
      (find_all-append _ _ (b',' ∷ b' ' ∷ []) (print_pair (numeral a) (numeral b) (print_rest ps))
        (refl, (refl, tt)))
      (read_pairs-print_pair a b (print_rest ps) (map row ps) h.0.0 h.0.1
        (read_pairs-print_rest ps h.1))

read_pairs-print_couplings :
    (ps : List (ℕ × ℕ))
    → AreInts ps
    → read_pairs (find_all pair_pattern (print_couplings ps)) ≡ ok (map row ps)
unfolding read_pairs print_couplings
read_pairs-print_couplings [] h =
    rw
      (find_all-cons pair_pattern b'[' (b']' ∷ [])
        (match-one_none _ _ b'[' (b']' ∷ []) (match-one_ne _ _ b']' [] refl)))
      (read_pairs-print_rest [] tt)
read_pairs-print_couplings ((a, b) ∷ ps) h =
    let text = print_pair (numeral a) (numeral b) (print_rest ps) in
    rw
      (find_all-cons pair_pattern b'[' text
        (match-one_none _ _ b'[' text (match-one_ne _ _ b'[' _ refl)))
      (read_pairs-print_pair a b (print_rest ps) (map row ps) h.0.0 h.0.1
        (read_pairs-print_rest ps h.1))

print_couplings-ne-None : (ps : List (ℕ × ℕ)) → str_eq (print_couplings ps) (txt "None") ≡ false
unfolding print_couplings str_eq
print_couplings-ne-None [] = refl
print_couplings-ne-None (p ∷ ps) = refl

module _ (J : JsonLib) where
  open J use {Json, find, is_string, get_string}

  pub listed-text :
      (response it : Json) (key text : Str)
      → find response key ≡ some it
      → is_string it ≡ true
      → get_string it ≡ ok text
      → str_eq text (txt "None") ≡ false
      → listed J response key ≡ ok (some text)
  unfolding listed
  listed-text response it key text f s g n = rw (f, listed) (rw (s, g) (rw n))

  -- The coupling map that a server prints as a list of pairs is read back as it was: for every list
  -- of pairs of numbers below 2^31, if the JSON value has that text under the key.
  pub extract_coupling_map-print_couplings :
      (response it : Json) (key : Str) (ps : List (ℕ × ℕ))
      → find response key ≡ some it
      → is_string it ≡ true
      → get_string it ≡ ok (print_couplings ps)
      → AreInts ps
      → extract_coupling_map J response key ≡ ok (map row ps)
  unfolding extract_coupling_map
  extract_coupling_map-print_couplings response it key ps f s g h =
      let text =
        listed-text response it key (print_couplings ps) f s g (print_couplings-ne-None ps) in
      rw text (read_pairs-print_couplings ps h)
