-- ===== src/Common/Bytes/Laws.antt =====
-- Equality of byte strings.
use mathlib.Core.Bool.{Bool, false, and-false}
use mqss_client.Common.{
  ℕ, ltb, length, length-append, drop-append, All, ◌++◌, ◌-◌, ◌≡◌, refl, ◌↔◌, true, some, [], ◌∷◌,
  ◌==◌, arith,
}
use mqss_client.Common.Bytes.{any, ends_strictly_with, Str, str_eq, find, starts_with}

pub str_eq_refl : (s : Str) → str_eq s s ≡ true
unfolding str_eq
str_eq_refl [] = refl
str_eq_refl (x ∷ s) = ground (arith, str_eq_refl s)

eq_of_str_eq : (s t : Str) → str_eq s t ≡ true → s ≡ t
unfolding str_eq
eq_of_str_eq [] [] h = refl
eq_of_str_eq [] (_ ∷ _) h = cc
eq_of_str_eq (_ ∷ _) [] h = cc
eq_of_str_eq (x ∷ s) (y ∷ t) h = ground (arith, eq_of_str_eq s t)

pub str_eq_iff : (s t : Str) → (str_eq s t ≡ true) ↔ (s ≡ t)
str_eq_iff s t = (eq_of_str_eq s t, λ e. rw e (str_eq_refl t))

pub ends_strictly_with-append : (c : ℕ) (s t : Str) → ends_strictly_with ((c ∷ s) ++ t) t ≡ true
unfolding ends_strictly_with
ends_strictly_with-append c s t =
    let longer : ltb (length t) (length ((c ∷ s) ++ t)) ≡ true =
      ground (arith, length-append (c ∷ s) t) in
    let start : length ((c ∷ s) ++ t) - length t ≡ length (c ∷ s) =
      omega (arith, length-append (c ∷ s) t) in
    rw (longer, start) (rw (drop-append (c ∷ s) t) (str_eq_refl t))

-- A text that ends in another of the same length.
pub ends_strictly_with-ne :
    (s t u : Str) → length t ≡ length u → str_eq t u ≡ false → ends_strictly_with (s ++ t) u ≡ false
unfolding ends_strictly_with
ends_strictly_with-ne s t u same other =
    let start : length (s ++ t) - length u ≡ length s = omega (arith, length-append s t, same) in
    rw start (rw (drop-append s t) (rw other (and-false _)))

pub any-false : (p : ℕ → Bool) (s : Str) → All (λ c. p c ≡ false) s → any p s ≡ false
unfolding any
any-false p [] h = refl
any-false p (c ∷ s) h = rw h.0 (any-false p s h.1)

pub any-false-append :
    (p : ℕ → Bool) (s t : Str) → any p s ≡ false → any p t ≡ false → any p (s ++ t) ≡ false
unfolding any
any-false-append p [] t h k = k
any-false-append p (c ∷ s) t h k = ground (arith, any-false-append p s t)

-- The first occurrence of a byte.
pub find-append :
    (p : ℕ) (s t : Str)
    → All (λ c. (c == p) ≡ false) s
    → find (s ++ (p ∷ t)) (p ∷ []) ≡ some (length s)
unfolding find starts_with
find-append p [] t h = ground arith
find-append p (c ∷ s) t h = ground (arith, h.0, find-append p s t h.1)

pub str_eq_comm : (s t : Str) → str_eq s t ≡ str_eq t s
unfolding str_eq
str_eq_comm [] [] = refl
str_eq_comm [] (_ ∷ _) = refl
str_eq_comm (_ ∷ _) [] = refl
str_eq_comm (x ∷ s) (y ∷ t) = ground (arith, str_eq_comm s t)

pub str_eq-append : (p s t : Str) → str_eq (p ++ s) (p ++ t) ≡ str_eq s t
unfolding str_eq
str_eq-append [] s t = refl
str_eq-append (c ∷ p) s t = ground (arith, str_eq-append p s t)
