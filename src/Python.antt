-- ===== src/Python.antt =====
-- bindings: what a Python program reads and writes of the client's objects. Python's values and
-- pybind11's conversions are parameters.
pub mod Assigned
pub mod Views
pub mod Jobs
pub mod Client
use mqss_client.Common.{if◌then◌else◌, ℕ, Bool, Option, none, some, List, [], ◌∷◌, ◌≡◌, ◌==◌, false}
use mathlib.Core.Option
use mqss_client.Common.Options.{◌>>=◌}
use mqss_client.Common.Bytes.{Str, str_eq}
use mqss_client.Common.Words.{ℤ}
use mqss_client.Resource.{Gate}

-- The types of C++ that an attribute has: `std::string`, `unsigned int` and `bool`.
pub data Kind : Type 0 where
  text word flag : Kind

abbrev pub Val : Kind → Type 0
Val text = Str
Val word = ℕ
Val flag = Bool

-- The conversions of a Python value, `none` for a `TypeError`, and to one.
pub record Python : Type 1 where
  pub Value : Type 0
  pub load : (k : Kind) → Value → Option (Val k)
  pub give : (k : Kind) → Val k → Value
  -- `int`, `std::vector`, `std::map<std::string, …>` and `Gate` to Python
  pub give_int : ℤ → Value
  pub give_list : List Value → Value
  pub give_dict : List (Str × Value) → Value
  pub give_gate : Gate → Value

-- A table of names.
unfoldable pub lookup_name {ℓ} : {A : Type ℓ} → List (Str × A) → Str → Option A
lookup_name [] name = none
lookup_name ((key, a) ∷ rest) name =
    let later = lookup_name rest name in if str_eq key name then some a else later

-- A class with its attributes: their names in Python, their types, and what reads and writes them.
pub record PyClass : Type 1 where
  pub Object : Type 0
  pub Field : Type 0
  pub named : Str → Option Field
  pub kind : Field → Kind
  pub read : (f : Field) → Object → Val (kind f)
  pub write : (f : Field) → Val (kind f) → Object → Object

-- Its attributes can be told apart by numbers, writing one changes what is read of it and nothing
-- else.
pub record IsPyClass (C : PyClass) : Type 0 where
  pub code : C.Field → ℕ
  pub decode : ℕ → Option C.Field
  pub decode_code : (f : C.Field) → decode (code f) ≡ some f
  pub read_write : (f : C.Field) (v : Val (C.kind f)) (r : C.Object) → C.read f (C.write f v r) ≡ v
  pub read_other :
      (f g : C.Field) (v : Val (C.kind g)) (r : C.Object)
      → (code f == code g) ≡ false
      → C.read f (C.write g v r) ≡ C.read f r

module _ (P : Python) (C : PyClass) where
  open P use {Value, load, give}
  open C use {Object, Field, named, kind, read, write}

  -- `def_property`: reading an attribute, and assigning to one; `none` is an exception.
  unfoldable pub get_attribute : Str → Object → Option Value
  get_attribute name r = Option.map (λ f. give (kind f) (read f r)) (named name)

  unfoldable pub set_attribute : Str → Value → Object → Option Object
  set_attribute name value r = do f ← named name; v ← load (kind f) value; some (write f v r)

  -- Assignments in turn.
  unfoldable pub assign : List (Str × Value) → Object → Option Object
  unfolding set_attribute
  assign [] r = some r
  assign ((name, value) ∷ rest) r = do r' ← set_attribute name value r; assign rest r'

-- A class whose attributes can only be read, by their names in Python.
abbrev pub View : Type 0 → Type 0 → Type 0
View Value R = List (Str × (R → Value))

module _ {Value R : Type 0} where
  -- `def_property_readonly`; `none` is an exception.
  unfoldable pub view : View Value R → Str → R → Option Value
  unfolding lookup_name
  view table name r = Option.map (λ get. get r) (lookup_name table name)
