-- ===== src/Standard/Regex/Sound.antt =====
-- What a match consists of: pieces in the classes of their atoms.
use mqss_client.Common.{
  ap, ℕ, zero, suc, ◌≡◌, inl, inr, true, Option, some, List, [], ◌∷◌, All, arith, Bool-cases,
  Option-cases, length, concat, ◌-◌, drop, append-nil,
}
use mqss_client.Common.Bytes.{Str}
use mathlib.Core.Option
use mqss_client.Standard.Regex.{Class, Atom, one, many, grow, repeat, match, scan, find_all, group}

-- Each piece is in the class of its atom.
abbrev pub Fits : List Atom → List Str → Type 0
Fits [] [] = Unit
Fits [] (_ ∷ _) = ⊥
Fits (one p ∷ atoms) ((c ∷ []) ∷ ps) = (p c ≡ true) × Fits atoms ps
Fits (one p ∷ atoms) _ = ⊥
Fits (many p ∷ atoms) (w ∷ ps) = All (λ c. p c ≡ true) w × Fits atoms ps
Fits (many p ∷ atoms) [] = ⊥

module _ (p : Class) (atoms : List Atom) (k : Str → Option (List Str))
    (sound : (s : Str) (ps : List Str) → k s ≡ some ps → Fits atoms ps) where
  stop-Fits :
      (s : Str) (ps : List Str)
      → Option.map (λ qs. [] ∷ qs) (k s) ≡ some ps
      → Fits (many p ∷ atoms) ps
  stop-Fits s ps e =
      let (qs, matched, same) = (Option.map-eq-some_iff _ _).0 e in
      rw (← same) (tt, sound s qs matched)

  grow-Fits :
      (c : ℕ) (ps : List Str)
      → p c ≡ true
      → Fits (many p ∷ atoms) ps
      → Fits (many p ∷ atoms) (grow c ps)
  grow-Fits c [] h f = absurd f
  grow-Fits c (w ∷ ps) h (f, g) = ((h, f), g)

  repeat-Fits : (s : Str) (ps : List Str) → repeat p k s ≡ some ps → Fits (many p ∷ atoms) ps
  unfolding repeat
  repeat-Fits [] ps e = stop-Fits [] ps e
  repeat-Fits (c ∷ s) ps e = elim (Bool-cases (p c)) [
    | inr out ↦ stop-Fits (c ∷ s) ps (rw out at e)
    | inl within ↦ elim (Option-cases (repeat p k s)) [
      | inl short ↦ stop-Fits (c ∷ s) ps (rw (within, short) at e)
      | inr (qs, long) ↦
          let same : grow c qs ≡ ps = ground (arith) in
          rw (← same) (grow-Fits c qs within (repeat-Fits s qs long))
    ]
  ]

pub match-Fits :
    (atoms : List Atom) (s : Str) (ps : List Str) → match atoms s ≡ some ps → Fits atoms ps
unfolding match
match-Fits [] s [] e = tt
match-Fits [] s (_ ∷ _) e = cc
match-Fits (one p ∷ atoms) [] ps e = cc
match-Fits (one p ∷ atoms) (c ∷ s) ps e = elim (Bool-cases (p c)) [
  | inr out ↦ absurd (ground arith)
  | inl within ↦
      let (qs, matched, same) = (Option.map-eq-some_iff _ _).0 (rw within at e) in
      rw (← same) (within, match-Fits atoms s qs matched)
]
match-Fits (many p ∷ atoms) s ps e = repeat-Fits p atoms (match atoms) (match-Fits atoms) s ps e

scan-Fits : (atoms : List Atom) (n : ℕ) (s : Str) → All (Fits atoms) (scan atoms n s)
unfolding scan
scan-Fits atoms n [] = tt
scan-Fits atoms (suc n) (c ∷ s) = scan-Fits atoms n s
scan-Fits atoms zero (c ∷ s) = elim (Option-cases (match atoms (c ∷ s))) [
  | inl missed ↦ rw (missed, scan) (scan-Fits atoms zero s)
  | inr (ps, found) ↦
      rw (found, scan)
        (match-Fits atoms (c ∷ s) ps found, scan-Fits atoms (length (concat ps) - 1) s)
]

pub find_all-Fits : (atoms : List Atom) (s : Str) → All (Fits atoms) (find_all atoms s)
unfolding find_all
find_all-Fits atoms s = scan-Fits atoms zero s

-- From the `i`-th atom on.
pub Fits-drop :
    (i : ℕ) (atoms : List Atom) (ps : List Str) → Fits atoms ps → Fits (drop i atoms) (drop i ps)
Fits-drop zero atoms ps f = f
Fits-drop (suc i) [] [] f = tt
Fits-drop (suc i) [] (_ ∷ _) f = absurd f
Fits-drop (suc i) (one p ∷ atoms) [] f = absurd f
Fits-drop (suc i) (one p ∷ atoms) ([] ∷ ps) f = absurd f
Fits-drop (suc i) (one p ∷ atoms) ((c ∷ []) ∷ ps) f = Fits-drop i atoms ps f.1
Fits-drop (suc i) (one p ∷ atoms) ((c ∷ d ∷ w) ∷ ps) f = absurd f
Fits-drop (suc i) (many p ∷ atoms) [] f = absurd f
Fits-drop (suc i) (many p ∷ atoms) (w ∷ ps) f = Fits-drop i atoms ps f.1

-- The group of `x+`: one character of the class at least.
pub group-some :
    (p : Class) (atoms : List Atom) (ps : List Str)
    → Fits (one p ∷ many p ∷ atoms) ps
    → (c : ℕ) × (w : Str) × (group 0 2 ps ≡ c ∷ w) × All (λ d. p d ≡ true) (c ∷ w)
group-some p atoms [] f = absurd f
group-some p atoms ([] ∷ ps) f = absurd f
group-some p atoms ((c ∷ []) ∷ []) f = absurd f.1
group-some p atoms ((c ∷ []) ∷ w ∷ ps) f = (c, w, ap (λ s. c ∷ s) (append-nil w), (f.0, f.1.0))
group-some p atoms ((c ∷ d ∷ w) ∷ ps) f = absurd f
