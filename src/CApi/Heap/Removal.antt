-- ===== src/CApi/Heap/Removal.antt =====
-- Freeing a block below which others lie.
use mqss_client.Common.{
  ℕ, ◌≡◌, ◌≢◌, refl, ap, ◌∙◌, true, some, List, [], ◌∷◌, ◌++◌, ◌==◌, All, Bool-cases, inl, inr,
}
use mqss_client.CApi.Heap.{Heap, AreApart, holds, remove, free, free-live}

module _ (p : ℕ) where
  holds-above : (bs base : List (ℕ × ℕ)) → holds p bs ≡ true → holds p (bs ++ base) ≡ true
  unfolding holds
  holds-above [] base h = cc
  holds-above (b ∷ bs) base h = elim (Bool-cases (p == b.0)) [
    | inl same ↦ rw same refl
    | inr other ↦ rw other (holds-above bs base (rw other at h))
  ]

  remove-above :
      (bs base : List (ℕ × ℕ)) → holds p bs ≡ true → remove p (bs ++ base) ≡ remove p bs ++ base
  unfolding remove holds
  remove-above [] base h = cc
  remove-above (b ∷ bs) base h = elim (Bool-cases (p == b.0)) [
    | inl same ↦ rw same refl
    | inr other ↦ rw other (ap (λ l. b ∷ l) (remove-above bs base (rw other at h)))
  ]

  -- `free` of one of the blocks that lie above others.
  pub free-above :
      (bs base : List (ℕ × ℕ)) (h : Heap)
      → h.live ≡ bs ++ base
      → holds p bs ≡ true
      → free (some p) h ≡ record h { live = remove p bs ++ base }
  free-above bs base h e held =
      free-live p h (ap (holds p) e ∙ holds-above bs base held)
      ∙ ap (λ l. record h { live = l }) (ap (remove p) e ∙ remove-above bs base held)

  pub All-remove : (P : ℕ × ℕ → Type 0) (bs : List (ℕ × ℕ)) → All P bs → All P (remove p bs)
  unfolding remove
  All-remove P [] h = tt
  All-remove P (b ∷ bs) (h, hs) = elim (Bool-cases (p == b.0)) [
    | inl same ↦ rw same hs
    | inr other ↦ rw other (h, All-remove P bs hs)
  ]

  pub AreApart-remove : (bs : List (ℕ × ℕ)) → AreApart bs → AreApart (remove p bs)
  unfolding remove
  AreApart-remove [] h = tt
  AreApart-remove (b ∷ bs) (h, hs) = elim (Bool-cases (p == b.0)) [
    | inl same ↦ rw same hs
    | inr other ↦ rw other (All-remove (λ c. b.0 ≢ c.0) bs h, AreApart-remove bs hs)
  ]
