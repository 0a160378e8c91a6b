-- ===== src/Client/Resources.antt =====
-- `getAllResources` and `getResourceInfo`: the list is all or nothing.
use mqss_client.Common.{
  inl, inr, none, Bool, true, false, is_some, ◌⊎◌, ◌++◌, ◌≡◌, refl, ◌↔◌, Bool, List, [], ◌∷◌, arith,
}
use mqss_client.Common.Effects.{Result-cases, ok}
use mqss_client.Common.Bytes.{Str, txt, find}
use mqss_client.Transport.{BaseClient, Env}
use mqss_client.Client.{get_all_resources, get_resource_info}
use mqss_client.Json.{JsonLib}
use mqss_client.Transport.{BaseClient}
use mqss_client.Resource.{Resource, resource_of_json}
use mqss_client.Client.{read_resources}

module _ (J : JsonLib) where
  -- Each JSON value is read, in order.
  abbrev pub AreRead : List J.Json → List Resource → Type 0
  AreRead [] [] = Unit
  AreRead [] (_ ∷ _) = ⊥
  AreRead (_ ∷ _) [] = ⊥
  AreRead (j ∷ js) (r ∷ rs) = (resource_of_json J j ≡ ok r) × AreRead js rs

  -- The answers for which a resource is reported as unknown.
  abbrev pub IsUnknown : Str → Type 0
  IsUnknown resp =
      (is_some (find resp (txt "RESOURCE NOT FOUND")) ≡ true)
      ⊎ (J.accept resp ≡ false)
      ⊎ ((j : J.Json) × (J.parse resp ≡ ok j) × (J.contains j (txt "ERROR") ≡ true))

  read_resources-AreRead :
      (js : List J.Json) (rs : List Resource) → (read_resources J js ≡ ok rs) ↔ AreRead js rs
  unfolding read_resources
  read_resources-AreRead [] [] = (λ h. tt, λ h. refl)
  read_resources-AreRead [] (r ∷ rs) = (λ h. cc, λ h. absurd h)
  read_resources-AreRead (j ∷ js) [] = ground arith
  read_resources-AreRead (j ∷ js) (r ∷ rs) = ground (arith, read_resources-AreRead js rs)

module _ (J : JsonLib) {W : Type 0} (base : BaseClient J.Json W) (is_hpc : Bool) where
  open J use {Json, accept, parse, elements, contains}

  -- If the transport answers with a JSON value, the list of resources is returned exactly if every
  -- element of it is read as a resource, in order; if the answer is no JSON, the list is empty.
  pub get_all_resources-AreRead :
      (e : Env Json W) (resp : Str) (w : W)
      → base.get (txt "resources") e.world ≡ (ok resp, w)
      → ((j : Json) (rs : List Resource)
          → accept resp ≡ true
          → parse resp ≡ ok j
          → ((get_all_resources J base is_hpc e).0 ≡ ok rs) ↔ AreRead J (elements j) rs)
        × (accept resp ≡ false → (get_all_resources J base is_hpc e).0 ≡ ok [])
  unfolding get_all_resources
  get_all_resources-AreRead e resp w answer = (
    λ j rs accepted parsed.
        rw (answer, accepted, parsed) (read_resources-AreRead J (elements j) rs),
    λ refused. rw (answer, refused),
  )

  -- If the transport answers, a resource is reported as unknown exactly if the answer contains
  -- "RESOURCE NOT FOUND", is no JSON, or is a JSON value with a member "ERROR".
  pub get_resource_info-IsUnknown :
      (name : Str) (e : Env Json W) (resp : Str) (w : W)
      → base.get (txt "resources/" ++ name) e.world ≡ (ok resp, w)
      → ((get_resource_info J base is_hpc name e).0 ≡ ok none) ↔ IsUnknown J resp
  unfolding get_resource_info
  get_resource_info-IsUnknown name e resp w answer = rw answer (elim (Result-cases (parse resp)) [
    | inl (j, parsed) ↦ rw parsed ((λ h. ground arith), (λ h. ground arith))
    | inr (x, thrown) ↦ rw thrown ((λ h. ground arith), (λ h. ground arith))
  ])
