-- ===== src/Resource/GateText.antt =====
-- The native gates: `extractGates` reads back what a server prints, a Python list of pairs of a
-- name and a dictionary of qubits.
use mqss_client.Common.{
  sym, ◌∙◌, true, false, some, append-nil, ap, ℕ, ◌≡◌, refl, ap, true, false, some, List, [], ◌∷◌,
  ◌++◌, All, sym, ◌∙◌, append_assoc, append-nil,
}
use mqss_client.Common.Bytes.{Str, txt, str_eq}
use mqss_client.Common.Effects.{ok}
use mqss_client.Standard.Regex.{match, find_all}
use mqss_client.Standard.Regex.Laws.{
  match-one, match-many, match-nil, find_all-append, find_all-match, find_all-nil,
}
use mqss_client.Json.{JsonLib}
use mqss_client.Resource.{Gate, read_gates, read_tuples, extract_gates}
use mqss_client.Resource.Patterns.{gate_pattern, tuple_pattern, not_quote}
use mqss_client.Resource.Couplings.{listed-text}
use mqss_client.Resource.Gates.{IsTabled}
use mqss_client.Resource.TupleText.{IsInt, entries, entries-not_brace, read_tuples-entries}

-- A gate that a server may print: a name with no quotes, the table's numbers for it, and qubits
-- that are `int` values.
pub record IsPrintable (g : Gate) : Type 0 where
  pub first : ℕ
  pub others : Str
  pub named : g.name ≡ first ∷ others
  pub unquoted : All (λ c. not_quote c ≡ true) (first ∷ others)
  pub tabled : IsTabled g
  pub ints : All (All IsInt) g.supported_qubits

-- `('name', {(0,): None, (1,): None})`, before the rest of the text.
print_gate : Str → List (List ℕ) → Str → Str
print_gate name ts r =
    b'(' ∷ 39 ∷ (name ++ (39 ∷ b',' ∷ b' ' ∷ b'{' ∷ (entries (txt "(") ts ++ (b'}' ∷ b')' ∷ r))))

print_rest : List Gate → Str
unfolding print_gate
print_rest [] = txt "]"
print_rest (g ∷ gs) = b',' ∷ b' ' ∷ print_gate g.name g.supported_qubits (print_rest gs)

unfoldable pub print_gates : List Gate → Str
unfolding print_rest
print_gates [] = txt "[]"
print_gates (g ∷ gs) = b'[' ∷ print_gate g.name g.supported_qubits (print_rest gs)

module _ (c : ℕ) (u : Str) (ts : List (List ℕ)) where
  abbrev mid : Str
  mid = entries (txt "(") ts

  abbrev gate_pieces : List Str
  gate_pieces =
      txt "("
      ∷ []
      ∷ (39 ∷ [])
      ∷ (c ∷ [])
      ∷ u
      ∷ (39 ∷ [])
      ∷ []
      ∷ txt ","
      ∷ txt " "
      ∷ txt "{"
      ∷ mid
      ∷ txt "}"
      ∷ []
      ∷ txt ")"
      ∷ []

  match-gate :
      (r : Str)
      → All (λ d. not_quote d ≡ true) (c ∷ u)
      → match gate_pattern (print_gate (c ∷ u) ts r) ≡ some gate_pieces
  unfolding print_gate
  match-gate r h = match-one _ _ _ _ _ refl (
      match-many _ _ [] _ _ tt refl (
        match-one _ _ _ _ _ refl (
          match-one _ _ _ _ _ h.0 (
            match-many _ _ u _ _ h.1 refl (
              match-one _ _ _ _ _ refl (
                match-many _ _ [] _ _ tt refl (
                  match-one _ _ _ _ _ refl (
                    match-many _ _ (txt " ") _ _ (refl, tt) refl
                      (match-one _ _ _ _ _ refl (
                        match-many _ _ mid _ _ (entries-not_brace (txt "(") ts (refl, tt)) refl (
                          match-one _ _ _ _ _ refl (
                            match-many _ _ [] _ _ tt refl
                              (match-one _ _ _ _ _ refl (match-nil r))))))))))))))

  find_all-print_gate :
      (r : Str)
      → All (λ d. not_quote d ≡ true) (c ∷ u)
      → find_all gate_pattern (print_gate (c ∷ u) ts r) ≡ gate_pieces ∷ find_all gate_pattern r
  unfolding print_gate
  find_all-print_gate r h =
      let w : Str = 39 ∷ ((c ∷ u) ++ (39 ∷ b',' ∷ b' ' ∷ b'{' ∷ (mid ++ (b'}' ∷ b')' ∷ [])))) in
      let whole : b'(' ∷ (w ++ r) ≡ print_gate (c ∷ u) ts r = simp append_assoc in
      rw (← whole)
        (find_all-match gate_pattern b'(' w r gate_pieces (rw whole (match-gate r h)) refl)

find_all-braces : find_all tuple_pattern (txt "{}") ≡ []
unfolding find_all
find_all-braces = refl

read_tuples-nil : read_tuples [] [] ≡ ok []
unfolding read_tuples
read_tuples-nil = refl

-- The body that the match finds is the dictionary.
read_tuples-body :
    (ts : List (List ℕ))
    → All (All IsInt) ts
    → read_tuples [] (find_all tuple_pattern (b'{' ∷ (entries (txt "(") ts ++ txt "}"))) ≡ ok ts
unfolding entries
read_tuples-body [] h = rw find_all-braces (read_tuples-nil)
read_tuples-body (qs ∷ ts) h =
    read_tuples-entries [] b'{' (txt "(") (qs ∷ ts) ((refl, (refl, tt)), (refl, (refl, tt))) h

read_gates-print_gate :
    (g : Gate) (r : Str) (gs : List Gate)
    → IsPrintable g
    → read_gates [] (find_all gate_pattern r) ≡ ok gs
    → read_gates [] (find_all gate_pattern (print_gate g.name g.supported_qubits r)) ≡ ok (g ∷ gs)
unfolding read_gates
read_gates-print_gate g r gs h e =
    let ts = g.supported_qubits in
    let name : h.first ∷ (h.others ++ []) ≡ g.name =
      ap (λ s. h.first ∷ s) (append-nil h.others) ∙ sym h.named in
    let found : find_all gate_pattern (print_gate g.name ts r)
        ≡ gate_pieces h.first h.others ts ∷ find_all gate_pattern r =
      rw h.named (find_all-print_gate h.first h.others ts r h.unquoted) in
    rw found (rw name (rw (read_tuples-body ts h.ints) (rw h.tabled (rw e))))

read_gates-print_rest :
    (gs : List Gate)
    → All IsPrintable gs
    → read_gates [] (find_all gate_pattern (print_rest gs)) ≡ ok gs
unfolding read_gates print_rest
read_gates-print_rest [] h = rw (find_all-append _ _ (txt "]") [] (refl, tt)) (rw find_all-nil)
read_gates-print_rest (g ∷ gs) h =
    rw
      (find_all-append _ _ (txt ", ") (print_gate g.name g.supported_qubits (print_rest gs))
        (refl, (refl, tt)))
      (read_gates-print_gate g (print_rest gs) gs h.0 (read_gates-print_rest gs h.1))

read_gates-print_gates :
    (gs : List Gate)
    → All IsPrintable gs
    → read_gates [] (find_all gate_pattern (print_gates gs)) ≡ ok gs
unfolding read_gates print_gates
read_gates-print_gates [] h =
    rw (find_all-append _ _ (txt "[]") [] (refl, (refl, tt))) (rw find_all-nil)
read_gates-print_gates (g ∷ gs) h =
    rw
      (find_all-append _ _ (txt "[") (print_gate g.name g.supported_qubits (print_rest gs))
        (refl, tt))
      (read_gates-print_gate g (print_rest gs) gs h.0 (read_gates-print_rest gs h.1))

print_gates-ne-None : (gs : List Gate) → str_eq (print_gates gs) (txt "None") ≡ false
unfolding print_gates str_eq
print_gates-ne-None [] = refl
print_gates-ne-None (g ∷ gs) = refl

module _ (J : JsonLib) where
  open J use {Json, find, is_string, get_string}

  -- The gates that a server prints are read back as they were, each with its own qubits: for every
  -- list of gates with unquoted names of the table, the table's numbers and qubits below 2^31, if
  -- the JSON value has that text under the key.
  pub extract_gates-print_gates :
      (response it : Json) (key : Str) (gs : List Gate)
      → find response key ≡ some it
      → is_string it ≡ true
      → get_string it ≡ ok (print_gates gs)
      → All IsPrintable gs
      → extract_gates J response key ≡ ok gs
  unfolding extract_gates
  extract_gates-print_gates response it key gs f s g h =
      rw (listed-text J response it key (print_gates gs) f s g (print_gates-ne-None gs))
        (read_gates-print_gates gs h)
