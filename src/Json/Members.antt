-- ===== src/Json/Members.antt =====
-- The members of an answer, by what the JSON library documents.
use mqss_client.Common.{◌≡◌, ap, ◌∙◌, true, false, some, none, inl, inr, Option-cases, is_some}
use mqss_client.Common.Bytes.{Str}
use mqss_client.Common.Effects.{ok, is_ok, Result-cases}
use mqss_client.Json.{JsonLib, IsDocumented}

-- The text is a JSON value with a member of that key.
pub record HasMember (J : JsonLib) (resp key : Str) (member : J.Json) : Type 0 where
  pub value : J.Json
  pub parsed : J.parse resp ≡ ok value
  pub found : J.find value key ≡ some member

-- What a text is in respect of a key, with what the operations then return.
pub data Lookup (J : JsonLib) (resp key : Str) : Type 0 where
  refused : J.accept resp ≡ false → Lookup J resp key
  absent :
      (value : J.Json)
      → J.accept resp ≡ true
      → J.parse resp ≡ ok value
      → J.find value key ≡ none
      → J.contains value key ≡ false
      → Lookup J resp key
  present :
      (value member : J.Json)
      → J.accept resp ≡ true
      → J.parse resp ≡ ok value
      → J.find value key ≡ some member
      → J.contains value key ≡ true
      → J.item value key ≡ ok member
      → Lookup J resp key

module _ (J : JsonLib) (doc : IsDocumented J) where
  open J use {Json, accept, parse, find, contains, item}

  pub look : (resp key : Str) → Lookup J resp key
  look resp key = elim (Result-cases (parse resp)) [
    | inr (x, e) ↦ refused (doc.parse_accepted resp ∙ ap is_ok e)
    | inl (j, e) ↦
        let accepted = doc.parse_accepted resp ∙ ap is_ok e in
        elim (Option-cases (find j key)) [
          | inl missing ↦
              absent j accepted e missing (doc.contains_found j key ∙ ap is_some missing)
          | inr (v, found) ↦
              present j v accepted e found (doc.contains_found j key ∙ ap is_some found)
                (doc.item_found j key v found)
        ]
  ]

  -- Such a text has no member.
  pub refused-member : (resp key : Str) (v : Json) → accept resp ≡ false → ¬ HasMember J resp key v
  refused-member resp key v h m = cc (doc.parse_accepted resp, ap is_ok m.parsed)

  pub absent-member :
      (resp key : Str) (j v : Json)
      → parse resp ≡ ok j
      → find j key ≡ none
      → ¬ HasMember J resp key v
  absent-member resp key j v parsed missing m = cc (m.parsed, m.found)

pub HasMember-unique :
    (J : JsonLib) (resp key : Str) (v w : J.Json)
    → HasMember J resp key v
    → HasMember J resp key w
    → v ≡ w
HasMember-unique J resp key v w m n = cc (m.parsed, n.parsed, m.found, n.found)
