-- ===== src/Standard/Map/Laws.antt =====
-- Maps stay in order, and a binding is found under its key alone.
use mqss_client.Common.{
  ◌≡◌, refl, inl, inr, true, false, some, List, [], ◌∷◌, if◌then◌else◌, arith, Bool-cases, All,
}
use mqss_client.Common.Bytes.{Str, str_eq}
use mqss_client.Common.Bytes.Laws.{str_eq_iff}
use mqss_client.Standard.Map.{str_lt, insert, lookup}

str_lt_trans : (a b c : Str) → str_lt a b ≡ true → str_lt b c ≡ true → str_lt a c ≡ true
unfolding str_lt
str_lt_trans [] (y ∷ b) (z ∷ c) h k = refl
str_lt_trans (x ∷ a) (y ∷ b) (z ∷ c) h k = ground (arith, str_lt_trans a b c)
str_lt_trans _ _ _ h k = ground arith

-- Of two different strings one is the smaller.
str_lt_total : (a b : Str) → str_eq a b ≡ false → str_lt a b ≡ false → str_lt b a ≡ true
unfolding str_lt str_eq
str_lt_total [] [] h k = cc
str_lt_total [] (y ∷ b) h k = cc
str_lt_total (x ∷ a) [] h k = refl
str_lt_total (x ∷ a) (y ∷ b) h k = ground (arith, str_lt_total a b)

module _ {ℓ} {V : Type ℓ} where
  abbrev pub Above : Str → List (Str × V) → Type 0
  Above k m = All (λ b. str_lt k b.0 ≡ true) m

  -- The keys rise strictly.
  abbrev pub IsSorted : List (Str × V) → Type 0
  IsSorted [] = Unit
  IsSorted ((k, v) ∷ m) = Above k m × IsSorted m

  Above-trans : (j k : Str) (m : List (Str × V)) → str_lt j k ≡ true → Above k m → Above j m
  Above-trans j k [] h a = tt
  Above-trans j k ((i, v) ∷ m) h (p, a) = (str_lt_trans j k i h p, Above-trans j k m h a)

  Above-insert :
      (j k : Str) (v : V) (m : List (Str × V))
      → str_lt j k ≡ true
      → Above j m
      → Above j (insert k v m)
  unfolding insert
  Above-insert j k v [] h a = (h, tt)
  Above-insert j k v ((i, w) ∷ m) h (p, a) = ground (arith, Above-insert j k v m h a)

  pub insert-IsSorted :
      (k : Str) (v : V) (m : List (Str × V)) → IsSorted m → IsSorted (insert k v m)
  unfolding insert
  insert-IsSorted k v [] s = (tt, tt)
  insert-IsSorted k v ((j, w) ∷ m) (a, s) = elim (Bool-cases (str_eq k j)) [
    | inl same ↦ rw same (let e = (str_eq_iff k j).0 same in rw e (a, s))
    | inr other ↦ rw other (elim (Bool-cases (str_lt k j)) [
      | inl below ↦ rw below ((below, Above-trans k j m below a), (a, s))
      | inr above ↦
          rw above (Above-insert j k v m (str_lt_total k j other above) a, insert-IsSorted k v m s)
    ])
  ]

  pub lookup-insert :
      (k j : Str) (v : V) (m : List (Str × V))
      → lookup j (insert k v m) ≡ (if str_eq j k then some v else lookup j m)
  unfolding lookup insert
  lookup-insert k j v [] = refl
  lookup-insert k j v ((i, w) ∷ m) =
      ground (arith, str_eq_iff k i, str_eq_iff j k, str_eq_iff j i, lookup-insert k j v m)
