-- ===== src/Resource/TupleText.antt =====
-- The qubits of a gate as a server prints them, a Python dictionary from tuples to `None`, and how
-- the two inner loops of `extractGates` read them.
use mqss_client.Common.{
  All-mono, All-append, ◌∙◌, append_assoc, ℕ, ◌%◌, ◌^◌, ◌<◌, ◌≡◌, refl, ap, true, false, some, List,
  [], ◌∷◌, ◌++◌, All, All-mono, All-append, arith, ◌∙◌, append_assoc, append-nil,
}
use mqss_client.Common.Bytes.{Str, txt}
use mqss_client.Common.Words.{to_unsigned}
use mqss_client.Common.Effects.{ok}
use mqss_client.Standard.Regex.{match, find_all, group, is_digit}
use mqss_client.Standard.Regex.Laws.{
  Leaves, match-one, match-many, match-nil, find_all-append, find_all-match, find_all-nil,
}
use mqss_client.Standard.Stoi.Laws.{IsNumeral}
use mqss_client.Resource.{read_tuples, read_qubits}
use mqss_client.Resource.Patterns.{tuple_pattern, number_pattern, not_brace, not_close}
use mqss_client.Standard.ToString.{numeral}
use mqss_client.Resource.Couplings.{numeral-IsNumeral, stoi-numeral_lem}

abbrev pub IsInt : ℕ → Type 0
IsInt n = n < 2 ^ 31

-- The numbers of a tuple behind the first, and a whole tuple without its brackets.
inner_rest : List ℕ → Str
inner_rest [] = []
inner_rest (q ∷ qs) = b',' ∷ b' ' ∷ (numeral q ++ inner_rest qs)

pub inner : List ℕ → Str
unfolding inner_rest
inner [] = []
inner (q ∷ []) = numeral q ++ txt ","
inner (q ∷ r ∷ qs) = numeral q ++ inner_rest (r ∷ qs)

record IsRead (n r : Str) : Type 0 where
  pieces : List Str
  found : find_all number_pattern (n ++ r) ≡ pieces ∷ find_all number_pattern r
  whole : group 0 2 pieces ≡ n

find_all-numeral : (n r : Str) → IsNumeral n → Leaves is_digit r → IsRead n r
find_all-numeral [] r h l = absurd h
find_all-numeral (c ∷ u) r h l = record {
  pieces = (c ∷ []) ∷ u ∷ [];
  found =
      find_all-match number_pattern c u r ((c ∷ []) ∷ u ∷ [])
        (match-one _ _ _ _ _ h.0 (match-many _ _ u r _ h.1 l (match-nil r)))
        (ap (λ s. c ∷ s) (append-nil u));
  whole = ap (λ s. c ∷ s) (append-nil u);
}

read_qubits-numeral :
    (q : ℕ) (r : Str) (qs : List ℕ)
    → IsInt q
    → Leaves is_digit r
    → read_qubits (find_all number_pattern r) ≡ ok qs
    → read_qubits (find_all number_pattern (numeral q ++ r)) ≡ ok (q ∷ qs)
unfolding read_qubits to_unsigned
read_qubits-numeral q r qs h l e =
    let f = find_all-numeral (numeral q) r (numeral-IsNumeral q) l in
    let same : q % 2 ^ 32 ≡ q = omega arith in
    rw f.found (simp (f.whole, stoi-numeral_lem q h, e, same))

inner_rest-Leaves : (qs : List ℕ) → Leaves is_digit (inner_rest qs)
unfolding inner_rest
inner_rest-Leaves [] = tt
inner_rest-Leaves (q ∷ qs) = refl

read_qubits-inner_rest :
    (qs : List ℕ) → All IsInt qs → read_qubits (find_all number_pattern (inner_rest qs)) ≡ ok qs
unfolding read_qubits inner_rest
read_qubits-inner_rest [] h = rw find_all-nil
read_qubits-inner_rest (q ∷ qs) h =
    rw (find_all-append _ _ (txt ", ") (numeral q ++ inner_rest qs) (refl, (refl, tt))) (
      read_qubits-numeral q (inner_rest qs) qs h.0 (inner_rest-Leaves qs)
        (read_qubits-inner_rest qs h.1))

read_qubits-inner :
    (qs : List ℕ) → All IsInt qs → read_qubits (find_all number_pattern (inner qs)) ≡ ok qs
unfolding read_qubits inner
read_qubits-inner [] h = rw find_all-nil
read_qubits-inner (q ∷ []) h =
    read_qubits-numeral q (txt ",") [] h.0 refl
      (rw (find_all-append _ _ (txt ",") [] (refl, tt)) (rw find_all-nil))
read_qubits-inner (q ∷ r ∷ qs) h =
    read_qubits-numeral q (inner_rest (r ∷ qs)) (r ∷ qs) h.0 (inner_rest-Leaves (r ∷ qs))
      (read_qubits-inner_rest (r ∷ qs) h.1)

numeral-All : (n : ℕ) → All (λ c. is_digit c ≡ true) (numeral n)
numeral-All n = numeral-digits (numeral n) (numeral-IsNumeral n)
  where
    numeral-digits : (s : Str) → IsNumeral s → All (λ c. is_digit c ≡ true) s
    numeral-digits [] h = absurd h
    numeral-digits (c ∷ s) h = h

inner_rest-digits :
    (P : ℕ → Type 0)
    → ((c : ℕ) → is_digit c ≡ true → P c)
    → P b','
    → P b' '
    → (qs : List ℕ) → All P (inner_rest qs)
unfolding inner_rest
inner_rest-digits P digit comma blank [] = tt
inner_rest-digits P digit comma blank (q ∷ qs) = (
  comma,
  (
    blank,
    All-append P (numeral q) (inner_rest qs) (All-mono digit _ (numeral-All q))
        (inner_rest-digits P digit comma blank qs),
  ),
)

-- What holds of digits, commas and blanks holds of a tuple's characters.
inner-All :
    (P : ℕ → Type 0)
    → ((c : ℕ) → is_digit c ≡ true → P c)
    → P b','
    → P b' '
    → (qs : List ℕ) → All P (inner qs)
unfolding inner
inner-All P digit comma blank [] = tt
inner-All P digit comma blank (q ∷ []) =
    All-append P (numeral q) (txt ",") (All-mono digit _ (numeral-All q)) (comma, tt)
inner-All P digit comma blank (q ∷ r ∷ qs) =
    All-append P (numeral q) (inner_rest (r ∷ qs)) (All-mono digit _ (numeral-All q))
      (inner_rest-digits P digit comma blank (r ∷ qs))

-- `p` opens the first entry; the others are opened by a comma too.
unfoldable pub entries : Str → List (List ℕ) → Str
unfolding inner
entries p [] = []
entries p (qs ∷ ts) = (p ++ inner qs) ++ (txt "): None" ++ entries (txt ", (") ts)

pub entries-not_brace :
    (p : Str) (ts : List (List ℕ))
    → All (λ c. not_brace c ≡ true) p
    → All (λ c. not_brace c ≡ true) (entries p ts)
unfolding entries
entries-not_brace p [] h = tt
entries-not_brace p (qs ∷ ts) h =
    let P : ℕ → Type 0 = λ c. not_brace c ≡ true in
    All-append P (p ++ inner qs) _
      (All-append P p (inner qs) h (inner-All P (λ c d. ground arith) refl refl qs))
      (All-append P (txt "): None") _ (refl, (refl, (refl, (refl, (refl, (refl, (refl, tt)))))))
        (entries-not_brace (txt ", (") ts (refl, (refl, (refl, tt)))))

-- What may stand before a tuple's numbers.
abbrev pub IsOpening : Str → Type 0
IsOpening p = All (λ c. is_digit c ≡ false) p × All (λ c. not_close c ≡ true) p

read_tuples-entry :
    (acc : List (List ℕ)) (p : Str) (c : ℕ) (qs : List ℕ) (r : Str)
    → IsOpening (c ∷ p)
    → All IsInt qs
    → read_tuples acc (find_all tuple_pattern (((c ∷ p) ++ inner qs) ++ (txt "): None" ++ r)))
      ≡ read_tuples (acc ++ qs ∷ []) (find_all tuple_pattern r)
unfolding read_tuples
read_tuples-entry acc p c qs r h k =
    let w : Str = (c ∷ p) ++ inner qs in
    let P : ℕ → Type 0 = λ d. not_close d ≡ true in
    let closed : All P w =
      All-append P (c ∷ p) (inner qs) h.1 (inner-All P (λ d e. ground arith) refl refl qs) in
    let pieces : List Str =
      w ∷ txt ")" ∷ [] ∷ txt ":" ∷ txt " " ∷ txt "N" ∷ txt "o" ∷ txt "n" ∷ txt "e" ∷ [] in
    let rest : Str = (p ++ inner qs) ++ txt "): None" in
    let assoc : rest ++ r ≡ (p ++ inner qs) ++ (txt "): None" ++ r) =
      append_assoc (p ++ inner qs) (txt "): None") r in
    let matched : match tuple_pattern (w ++ (txt "): None" ++ r)) ≡ some pieces =
      match-many _ _ w _ _ closed refl (
        match-one _ _ _ _ _ refl (
          match-many _ _ [] _ _ tt refl (
            match-one _ _ _ _ _ refl (
              match-many _ _ (txt " ") _ _ (refl, tt) refl
                (match-one _ _ _ _ _ refl (
                  match-one _ _ _ _ _ refl
                    (match-one _ _ _ _ _ refl (match-one _ _ _ _ _ refl (match-nil r))))))))) in
    let found : find_all tuple_pattern (w ++ (txt "): None" ++ r))
        ≡ pieces ∷ find_all tuple_pattern r =
      rw (← assoc) (find_all-match tuple_pattern c rest r pieces (rw assoc matched) refl) in
    let numbers : read_qubits (find_all number_pattern (group 0 1 pieces)) ≡ ok qs =
      rw (append-nil w)
        (rw (find_all-append _ _ (c ∷ p) (inner qs) h.0) (read_qubits-inner qs k)) in
    rw found (rw numbers)

find_all-close : find_all tuple_pattern (txt "}") ≡ []
unfolding find_all
find_all-close = refl

-- The entries are read in order, behind those that are already there.
pub read_tuples-entries :
    (acc : List (List ℕ)) (c : ℕ) (p : Str) (ts : List (List ℕ))
    → IsOpening (c ∷ p)
    → All (All IsInt) ts
    → read_tuples acc (find_all tuple_pattern (entries (c ∷ p) ts ++ txt "}")) ≡ ok (acc ++ ts)
unfolding read_tuples entries
read_tuples-entries acc c p [] h k = rw find_all-close (rw append-nil)
read_tuples-entries acc c p (qs ∷ ts) h k =
    let more : Str = entries (txt ", (") ts in
    let start : Str = (c ∷ p) ++ inner qs in
    let text : entries (c ∷ p) (qs ∷ ts) ++ txt "}"
        ≡ start ++ (txt "): None" ++ (more ++ txt "}")) =
      append_assoc start (txt "): None" ++ more) (txt "}") in
    rw text (
      read_tuples-entry acc p c qs (more ++ txt "}") h k.0
      ∙ read_tuples-entries (acc ++ qs ∷ []) b',' (txt " (") ts
          ((refl, (refl, (refl, tt))), (refl, (refl, (refl, tt)))) k.1
      ∙ ap ok (append_assoc acc (qs ∷ []) ts))
