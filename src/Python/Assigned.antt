-- ===== src/Python/Assigned.antt =====
-- What an object holds after assignments to its attributes.
use mqss_client.Common.{
  true, Option, none, some, List, [], ◌∷◌, ◌≡◌, ◌==◌, Bool-cases, inl, inr, if◌then◌else◌, ◌∙◌, ap,
  sym, subst, arith,
}
use mqss_client.Common.Options.{
  ◌>>=◌, >>=-eq-some, first_some, first_some-eq-none, first_some-eq-some,
}
use mqss_client.Common.Bytes.{Str}
use mqss_client.Python.{Python, PyClass, IsPyClass, Val, assign, set_attribute}

module _ (P : Python) (C : PyClass) (laws : IsPyClass C) where
  open P use {Value, load, give}
  open C use {Object, Field, named, kind, read, write}
  open laws use {code, decode, decode_code, read_write, read_other}

  -- The value of an assignment, if it is to the attribute.
  abbrev assigned : Field → Str → Value → Option Value
  assigned f name value = do g ← named name; if code f == code g then some value else none

  -- The value of the last assignment to an attribute.
  abbrev pub last_assigned : Field → List (Str × Value) → Option Value
  last_assigned f [] = none
  last_assigned f ((name, value) ∷ rest) = first_some (last_assigned f rest) (assigned f name value)

  same_field : (f g : Field) → (code f == code g) ≡ true → f ≡ g
  same_field f g h =
      let same : code f ≡ code g = ground (arith, h) in cc (decode_code f, decode_code g, same)

  -- An assignment that is accepted writes what the value is converted to.
  record Written (name : Str) (value : Value) (r r' : Object) : Type 0 where
    field : Field
    val : Val (kind field)
    at_name : named name ≡ some field
    loaded : load (kind field) value ≡ some val
    result : write field val r ≡ r'

  set-Written :
      (name : Str) (value : Value) (r r' : Object)
      → set_attribute P C name value r ≡ some r'
      → Written name value r r'
  unfolding set_attribute
  set-Written name value r r' e =
      let (f, at_name, e₁) = >>=-eq-some (named name) _ e in
      let (v, loaded, e₂) = >>=-eq-some (load (kind f) value) _ e₁ in
      record { field = f; val = v; at_name = at_name; loaded = loaded; result = cc }

  set-other :
      (f : Field) (name : Str) (value : Value) (r r' : Object)
      → Written name value r r'
      → assigned f name value ≡ none
      → read f r' ≡ read f r
  set-other f name value r r' w other = elim (Bool-cases (code f == code w.field)) [
    | inl same ↦ absurd (cc (rw (w.at_name, same) at other))
    | inr apart ↦ ap (read f) (sym w.result) ∙ read_other f w.field w.val r apart
  ]

  set-same :
      (f : Field) (name : Str) (value v : Value) (r r' : Object)
      → Written name value r r'
      → assigned f name value ≡ some v
      → load (kind f) v ≡ some (read f r')
  set-same f name value v r r' w last =
      let (g, at_name, e) = >>=-eq-some (named name) _ last in
      let field : w.field ≡ g = cc (w.at_name, at_name) in
      elim (Bool-cases (code f == code g)) [
        | inr apart ↦ absurd (cc (rw apart at e))
        | inl same ↦
            let field_same : w.field ≡ f = field ∙ sym (same_field f g same) in
            let same_value : value ≡ v = cc (rw same at e) in
            let held : w.val ≡ read w.field r' =
              sym (read_write w.field w.val r) ∙ ap (read w.field) w.result in
            subst (λ x. load (kind x) v ≡ some (read x r')) field_same
              (ap (load (kind w.field)) (sym same_value) ∙ w.loaded ∙ ap some held)
      ]

  -- Assignments to other attributes change nothing of one.
  assign-other :
      (f : Field) (ws : List (Str × Value)) (r r' : Object)
      → assign P C ws r ≡ some r'
      → last_assigned f ws ≡ none
      → read f r' ≡ read f r
  unfolding assign
  assign-other f [] r r' e other = let same : r ≡ r' = cc in ap (read f) (sym same)
  assign-other f ((name, value) ∷ rest) r r' e other =
      let (s, set, e₁) = >>=-eq-some (set_attribute P C name value r) _ e in
      let (later, now) = first_some-eq-none (last_assigned f rest) _ other in
      assign-other f rest s r' e₁ later
      ∙ set-other f name value r s (set-Written name value r s set) now

  -- After assignments that are accepted, an attribute holds what its last value was converted to.
  pub assign-last :
      (f : Field) (ws : List (Str × Value)) (v : Value) (r r' : Object)
      → assign P C ws r ≡ some r'
      → last_assigned f ws ≡ some v
      → load (kind f) v ≡ some (read f r')
  unfolding assign
  assign-last f [] v r r' e last = cc
  assign-last f ((name, value) ∷ rest) v r r' e last =
      let (s, set, e₁) = >>=-eq-some (set_attribute P C name value r) _ e in
      elim (first_some-eq-some (last_assigned f rest) _ last) [
        | inl later ↦ assign-last f rest v s r' e₁ later
        | inr (over, now) ↦
            set-same f name value v r s (set-Written name value r s set) now
            ∙ ap some (sym (assign-other f rest s r' e₁ over))
      ]

-- What no attribute writes stays as it was.
pub assign-kept :
    (P : Python) (C : PyClass) {A : Type 0} (part : C.Object → A)
    → ((f : C.Field) (v : Val (C.kind f)) (r : C.Object) → part (C.write f v r) ≡ part r)
    → (ws : List (Str × P.Value)) (r r' : C.Object) → assign P C ws r ≡ some r'
    → part r' ≡ part r
unfolding assign set_attribute
assign-kept P C part kept [] r r' e = let same : r ≡ r' = cc e in ap part (sym same)
assign-kept P C part kept ((name, value) ∷ rest) r r' e =
    let (s, set, later) = >>=-eq-some (set_attribute P C name value r) _ e in
    let (f, at_name, e₁) = >>=-eq-some (C.named name) _ set in
    let (v, loaded, e₂) = >>=-eq-some (P.load (C.kind f) value) _ e₁ in
    let written : C.write f v r ≡ s = cc e₂ in
    assign-kept P C part kept rest s r' later ∙ ap part (sym written) ∙ kept f v r
