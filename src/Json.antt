-- ===== src/Json.antt =====
-- The JSON library, nlohmann::json: what the client calls of it, as parameters, and the documented
-- behaviour that the theorems rely on.
pub mod Members
use mqss_client.Common.{◌<◌, ◌^◌, [], ℕ, ◌≡◌, Bool, true, false, Option, none, some, List, is_some}
use mqss_client.Common.Bytes.{Str}
use mqss_client.Standard.Map.{lookup}
use mqss_client.Common.Words.{ℤ}
use mqss_client.Common.Effects.{Result, ok, throw, json_error, is_ok}

pub record JsonLib : Type 1 where
  -- `nlohmann::json`
  pub Json : Type 0
  -- `json(s)`, `json(n)`, `json(b)`, `json::array({…})`, and a brace list of pairs
  pub string : Str → Json
  pub number : ℕ → Json
  pub boolean : Bool → Json
  pub array : List Json → Json
  pub object : List (Str × Json) → Json
  -- `j.dump()`, which throws on text that is not UTF-8
  pub dump : Json → Result Str
  -- `json::accept(s)` and `json::parse(s)`
  pub accept : Str → Bool
  pub parse : Str → Result Json
  -- `j.find(key)`, `none` for `j.end()`; `j.contains(key)`; `j[key]` of a key that is there
  pub find : Json → Str → Option Json
  pub contains : Json → Str → Bool
  pub item : Json → Str → Result Json
  -- `j.at(key)`
  pub at : Json → Str → Result Json
  pub is_string : Json → Bool
  pub is_number : Json → Bool
  pub is_array : Json → Bool
  pub is_object : Json → Bool
  -- `j.get<std::string>()`, `j.get_ref<const std::string&>()`, `j.get<unsigned>()` , `j.get<int>()` and `j.get<bool>()`
  pub get_string : Json → Result Str
  pub get_unsigned : Json → Result ℕ
  pub get_int : Json → Result ℤ
  pub get_bool : Json → Result Bool
  -- `j.value(key, default)` at the three types that the client uses
  pub value_string : Json → Str → Str → Result Str
  pub value_bool : Json → Str → Bool → Result Bool
  pub value_int : Json → Str → ℤ → Result ℤ
  -- `for (auto& x : j)` and `for (auto& [key, value] : j.items())`
  pub elements : Json → List Json
  pub items : Json → List (Str × Json)

-- What the library documents of these.
module _ (J : JsonLib) where
  open J use {
    Json, accept, parse, find, contains, item, at, is_string, is_number, get_string, get_unsigned,
    value_string, value_bool, value_int, is_object, get_int, get_bool, string, number, boolean,
    array, object, is_array, elements,
  }

  pub record IsDocumented : Type 0 where
    -- `accept` says whether `parse` succeeds.
    pub parse_accepted : (s : Str) → accept s ≡ is_ok (parse s)
    -- The empty text is no JSON value.
    pub accept_empty : accept [] ≡ false
    -- `contains`, `[]` and `at` agree with `find`.
    pub contains_found : (j : Json) (k : Str) → contains j k ≡ is_some (find j k)
    pub item_found : (j : Json) (k : Str) (v : Json) → find j k ≡ some v → item j k ≡ ok v
    pub at_found : (j : Json) (k : Str) (v : Json) → find j k ≡ some v → at j k ≡ ok v
    pub at_missing : (j : Json) (k : Str) → find j k ≡ none → at j k ≡ throw json_error
    -- A conversion succeeds on a value of its kind, and throws on any other.
    pub get_string_kind : (j : Json) → is_string j ≡ is_ok (get_string j)
    pub get_string_throws : (j : Json) → is_string j ≡ false → get_string j ≡ throw json_error
    pub get_unsigned_kind : (j : Json) → is_number j ≡ true → is_ok (get_unsigned j) ≡ true
    -- `value` takes the member, or the default if there is none, and throws on what is no object.
    pub value_int_found :
        (j : Json) (k : Str) (v : Json) (d : ℤ)
        → is_object j ≡ true
        → find j k ≡ some v
        → value_int j k d ≡ get_int v
    pub value_int_missing :
        (j : Json) (k : Str) (d : ℤ) → is_object j ≡ true → find j k ≡ none → value_int j k d ≡ ok d
    pub value_int_throws :
        (j : Json) (k : Str) (d : ℤ) → is_object j ≡ false → value_int j k d ≡ throw json_error

  -- What it documents of the values that it makes.
  pub record MakesValues : Type 0 where
    -- A member of an object is the value that its key was given, keys that differ.
    pub find_object :
        (members : List (Str × Json)) (k : Str) → find (object members) k ≡ lookup k members
    pub get_string_made : (s : Str) → get_string (string s) ≡ ok s
    pub get_unsigned_made : (n : ℕ) → n < 2 ^ 32 → get_unsigned (number n) ≡ ok n
    pub get_bool_made : (b : Bool) → get_bool (boolean b) ≡ ok b
    pub is_array_made : (js : List Json) → is_array (array js) ≡ true
    pub is_array_string : (s : Str) → is_array (string s) ≡ false
    pub elements_made : (js : List Json) → elements (array js) ≡ js
