-- ===== src/Tests/SampleJson.antt =====
-- A small JSON library: values as data, and a parser that knows the texts of the samples.
use mqss_client.Common.{
  arith, ℕ, ◌≡◌, refl, Bool, true, false, Option, none, some, List, [], ◌∷◌, ◌++◌, if◌then◌else◌,
  ◌==◌, is_some,
}
use mqss_client.Common.Bytes.{Str, txt, str_eq}
use mqss_client.Common.Words.{ℤ, pos}
use mqss_client.Common.Effects.{Result, ok, throw, json_error, is_ok}
use mqss_client.Json.{JsonLib, IsDocumented, MakesValues}
use mqss_client.Standard.Map
use mqss_client.Common.{ap}
use mqss_client.Common.Bytes.Laws.{str_eq_comm}

mutual
  pub data Value : Type 0 where
    null : Value
    str : Str → Value
    num : ℕ → Value
    bool : Bool → Value
    arr : Fields → Value
    obj : Fields → Value

  -- The members of an object; the elements of an array, whose keys count for nothing.
  pub data Fields : Type 0 where
    end : Fields
    field : Str → Value → Fields → Fields

abbrev lookup : Str → Fields → Option Value
lookup k end = none
lookup k (field j v fs) = if str_eq j k then some v else lookup k fs

abbrev to_fields : List (Str × Value) → Fields
to_fields [] = end
to_fields ((k, v) ∷ vs) = field k v (to_fields vs)

abbrev to_elements : List Value → Fields
to_elements [] = end
to_elements (v ∷ vs) = field [] v (to_elements vs)

abbrev of_fields : Fields → List (Str × Value)
of_fields end = []
of_fields (field k v fs) = (k, v) ∷ of_fields fs

abbrev of_elements : Fields → List Value
of_elements end = []
of_elements (field k v fs) = v ∷ of_elements fs

abbrev find : Value → Str → Option Value
find (obj fs) k = lookup k fs
find _ k = none

-- The text under a key, empty for anything else.
abbrev pub text_of : Option Value → Str
text_of (some (str s)) = s
text_of _ = []

abbrev pub text_at : Value → Str → Str
text_at j k = text_of (find j k)

abbrev at : Value → Str → Result Value
at j k = elim (find j k) [ none ↦ throw json_error | some v ↦ ok v ]

abbrev is_string : Value → Bool
is_string (str _) = true
is_string _ = false

abbrev is_number : Value → Bool
is_number (num _) = true
is_number _ = false

abbrev is_array : Value → Bool
is_array (arr _) = true
is_array _ = false

abbrev is_object : Value → Bool
is_object (obj _) = true
is_object _ = false

abbrev get_string : Value → Result Str
get_string (str s) = ok s
get_string _ = throw json_error

abbrev get_unsigned : Value → Result ℕ
get_unsigned (num n) = ok n
get_unsigned _ = throw json_error

abbrev get_bool : Value → Result Bool
get_bool (bool b) = ok b
get_bool _ = throw json_error

abbrev get_int : Value → Result ℤ
get_int (num n) = ok (pos n)
get_int (bool b) = ok (pos (if b then 1 else 0))
get_int _ = throw json_error

-- `j.value(key, default)`.
abbrev value : {A : Type 0} → (Value → Result A) → Value → Str → A → Result A
value get (obj fs) k d = elim (lookup k fs) [ none ↦ ok d | some v ↦ get v ]
value get _ k d = throw json_error

abbrev elements : Value → List Value
elements (arr fs) = of_elements fs
elements (obj fs) = of_elements fs
elements null = []
elements v = v ∷ []

abbrev items : Value → List (Str × Value)
items (arr fs) = of_fields fs
items (obj fs) = of_fields fs
items null = []
items v = ([], v) ∷ []

-- Besides the texts of the samples it knows `#` with an identifier, for an object with that `uuid`.
abbrev numbered : Str → Result Value
numbered [] = throw json_error
numbered (c ∷ id) =
    if c == b'#' then ok (obj (field (txt "uuid") (str id) end)) else throw json_error

abbrev parse : List (Str × Value) → Str → Result Value
parse [] s = numbered s
parse (_ ∷ _) [] = throw json_error
parse ((t, v) ∷ ts) (c ∷ s) = if str_eq t (c ∷ s) then ok v else parse ts (c ∷ s)

parse_empty : (texts : List (Str × Value)) → is_ok (parse texts []) ≡ false
parse_empty [] = refl
parse_empty (_ ∷ _) = refl

-- The library, for the texts that are given with their values. It writes of a value no more than the
-- method and the path of a message.
abbrev pub sample : List (Str × Value) → JsonLib
sample texts = record {
  Json = Value;
  string = str;
  number = num;
  boolean = bool;
  array = λ vs. arr (to_elements vs);
  object = λ vs. obj (to_fields vs);
  dump = λ v. ok (text_at v (txt "method") ++ text_at v (txt "request"));
  accept = λ s. is_ok (parse texts s);
  parse = parse texts;
  find = find;
  contains = λ j k. is_some (find j k);
  item = at;
  at = at;
  is_string = is_string;
  is_number = is_number;
  is_array = is_array;
  is_object = is_object;
  get_string = get_string;
  get_unsigned = get_unsigned;
  get_int = get_int;
  get_bool = get_bool;
  value_string = value get_string;
  value_bool = value get_bool;
  value_int = value get_int;
  elements = elements;
  items = items;
}

get_string_kind : (j : Value) → is_string j ≡ is_ok (get_string j)
get_string_kind (str s) = refl
get_string_kind _ = refl

get_string_throws : (j : Value) → is_string j ≡ false → get_string j ≡ throw json_error
get_string_throws (str s) h = cc
get_string_throws _ h = refl

get_unsigned_kind : (j : Value) → is_number j ≡ true → is_ok (get_unsigned j) ≡ true
get_unsigned_kind (num n) h = refl
get_unsigned_kind _ h = cc

at_found : (j : Value) (k : Str) (v : Value) → find j k ≡ some v → at j k ≡ ok v
at_found j k v h = ground arith

at_missing : (j : Value) (k : Str) → find j k ≡ none → at j k ≡ throw json_error
at_missing j k h = ground arith

value_int_found :
    (j : Value) (k : Str) (v : Value) (d : ℤ)
    → is_object j ≡ true
    → find j k ≡ some v
    → value get_int j k d ≡ get_int v
value_int_found (obj fs) k v d o h = rw (value, h) refl
value_int_found null k v d o h = cc
value_int_found (str _) k v d o h = cc
value_int_found (num _) k v d o h = cc
value_int_found (bool _) k v d o h = cc
value_int_found (arr _) k v d o h = cc

value_int_missing :
    (j : Value) (k : Str) (d : ℤ)
    → is_object j ≡ true
    → find j k ≡ none
    → value get_int j k d ≡ ok d
value_int_missing (obj fs) k d o h = rw (value, h) refl
value_int_missing null k d o h = cc
value_int_missing (str _) k d o h = cc
value_int_missing (num _) k d o h = cc
value_int_missing (bool _) k d o h = cc
value_int_missing (arr _) k d o h = cc

value_int_throws :
    (j : Value) (k : Str) (d : ℤ) → is_object j ≡ false → value get_int j k d ≡ throw json_error
value_int_throws (obj fs) k d o = cc
value_int_throws null k d o = refl
value_int_throws (str _) k d o = refl
value_int_throws (num _) k d o = refl
value_int_throws (bool _) k d o = refl
value_int_throws (arr _) k d o = refl

pub sample-IsDocumented : (texts : List (Str × Value)) → IsDocumented (sample texts)
sample-IsDocumented texts = record {
  parse_accepted = λ s. refl;
  accept_empty = parse_empty texts;
  contains_found = λ j k. refl;
  item_found = at_found;
  at_found = at_found;
  at_missing = at_missing;
  get_string_kind = get_string_kind;
  get_string_throws = get_string_throws;
  get_unsigned_kind = get_unsigned_kind;
  value_int_found = value_int_found;
  value_int_missing = value_int_missing;
  value_int_throws = value_int_throws;
}

find_object :
    (members : List (Str × Value)) (k : Str)
    → find (obj (to_fields members)) k ≡ Map.lookup k members
unfolding Map.lookup
find_object [] k = refl
find_object ((j, v) ∷ members) k = ground (arith, find_object members k, str_eq_comm j k)

elements_made : (js : List Value) → of_elements (to_elements js) ≡ js
elements_made [] = refl
elements_made (j ∷ js) = ap (λ l. j ∷ l) (elements_made js)

pub sample-MakesValues : (texts : List (Str × Value)) → MakesValues (sample texts)
sample-MakesValues texts = record {
  find_object = find_object;
  get_string_made = λ s. refl;
  get_unsigned_made = λ n small. refl;
  get_bool_made = λ b. refl;
  is_array_made = λ js. refl;
  is_array_string = λ s. refl;
  elements_made = elements_made;
}
