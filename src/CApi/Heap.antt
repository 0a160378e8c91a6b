-- ===== src/CApi/Heap.antt =====
-- `malloc` and `free`: which blocks are allocated, under an allocator that may fail.
pub mod Removal
use mqss_client.Common.{
  ℕ, suc, ◌≡◌, ◌≢◌, refl, ap, Bool, true, false, Option, none, some, List, [], ◌∷◌, ◌==◌,
  if◌then◌else◌, All, arith, ◌∙◌, map,
}

-- The address of the next block, the blocks allocated with their sizes, the latest first, and how
-- often an address was freed that was not one of them.
pub record Heap : Type 0 where
  pub next : ℕ
  pub live : List (ℕ × ℕ)
  pub faults : ℕ

unfoldable pub holds : ℕ → List (ℕ × ℕ) → Bool
holds p [] = false
holds p ((q, n) ∷ blocks) = let rest = holds p blocks in if p == q then true else rest

unfoldable pub remove : ℕ → List (ℕ × ℕ) → List (ℕ × ℕ)
remove p [] = []
remove p ((q, n) ∷ blocks) = let rest = remove p blocks in if p == q then blocks else (q, n) ∷ rest

-- A heap after a block was allocated, and after one was refused.
abbrev pub allocated : ℕ → Heap → Heap
allocated size h = record h { next = suc h.next; live = (h.next, size) ∷ h.live }

abbrev pub refused : Heap → Heap
refused h = record h { next = suc h.next }

-- `malloc`, with what the allocator says of a block of that size; `none` is the null pointer.
unfoldable pub malloc : (ℕ → ℕ → Bool) → ℕ → Heap → Option ℕ × Heap
malloc fits size h = if fits h.next size then (some h.next, allocated size h) else (none, refused h)

unfoldable pub free : Option ℕ → Heap → Heap
unfolding holds
free none h = h
free (some p) h =
    if holds p h.live
    then record h { live = remove p h.live }
    else record h { faults = suc h.faults }

-- The blocks of the first heap are those of the second, and nothing was freed in between that was
-- not allocated.
abbrev pub IsFreed : Heap → Heap → Type 0
IsFreed h h' = (h'.live ≡ h.live) × (h'.faults ≡ h.faults)

-- The blocks that are there after those of a list have been allocated, in its order.
unfoldable pub stack : List (ℕ × ℕ) → List (ℕ × ℕ) → List (ℕ × ℕ)
stack [] base = base
stack (b ∷ bs) base = stack bs (b ∷ base)

-- `free` of each address in turn.
unfoldable pub free_all : List ℕ → Heap → Heap
free_all [] h = h
free_all (p ∷ ps) h = free_all ps (free (some p) h)

abbrev Apart : ℕ → List (ℕ × ℕ) → Type 0
Apart p bs = All (λ b. p ≢ b.0) bs

-- Addresses no two of which are the same.
abbrev pub AreApart : List (ℕ × ℕ) → Type 0
AreApart [] = Unit
AreApart (b ∷ bs) = Apart b.0 bs × AreApart bs

pub holds-head : (b : ℕ × ℕ) (base : List (ℕ × ℕ)) → holds b.0 (b ∷ base) ≡ true
unfolding holds
holds-head b base = ground arith

pub remove-head : (b : ℕ × ℕ) (base : List (ℕ × ℕ)) → remove b.0 (b ∷ base) ≡ base
unfolding remove
remove-head b base = ground arith

holds-stack :
    (p : ℕ) (bs base : List (ℕ × ℕ)) → holds p base ≡ true → holds p (stack bs base) ≡ true
unfolding holds stack
holds-stack p [] base h = h
holds-stack p (b ∷ bs) base h = holds-stack p bs (b ∷ base) (ground (arith, h))

remove-stack :
    (p : ℕ) (bs base : List (ℕ × ℕ))
    → Apart p bs
    → remove p (stack bs base) ≡ stack bs (remove p base)
unfolding remove stack
remove-stack p [] base h = refl
remove-stack p (b ∷ bs) base (other, h) =
    remove-stack p bs (b ∷ base) h ∙ ap (stack bs) (ground (arith, other))

pub free-live :
    (p : ℕ) (h : Heap)
    → holds p h.live ≡ true
    → free (some p) h ≡ record h { live = remove p h.live }
unfolding free
free-live p h there = rw there refl

pub free-none : (h : Heap) → free none h ≡ h
unfolding free
free-none h = refl

-- Freeing the block allocated last.
pub free-head :
    (p n : ℕ) (rest : List (ℕ × ℕ)) (h : Heap)
    → h.live ≡ (p, n) ∷ rest
    → free (some p) h ≡ record h { live = rest }
free-head p n rest h e =
    free-live p h (rw e (holds-head (p, n) rest))
    ∙ ap (λ l. record h { live = l }) (ap (remove p) e ∙ remove-head (p, n) rest)

module _ (fits : ℕ → ℕ → Bool) (size : ℕ) (h : Heap) where
  pub malloc-allocated :
      fits h.next size ≡ true → malloc fits size h ≡ (some h.next, allocated size h)
  unfolding malloc
  malloc-allocated e = rw e refl

  pub malloc-refused : fits h.next size ≡ false → malloc fits size h ≡ (none, refused h)
  unfolding malloc
  malloc-refused e = rw e refl

-- Freeing what was allocated on a heap leaves the heap's blocks, and is no fault.
pub free_all-stack :
    (bs : List (ℕ × ℕ)) (base : List (ℕ × ℕ)) (h : Heap)
    → AreApart bs
    → h.live ≡ stack bs base
    → free_all (map (λ b. b.0) bs) h ≡ record h { live = base }
unfolding free_all stack
free_all-stack [] base h apart e = ap (λ l. record h { live = l }) e
free_all-stack (b ∷ bs) base h (first, apart) e =
    let here : holds b.0 (b ∷ base) ≡ true = holds-head b base in
    let there : holds b.0 h.live ≡ true = rw e (holds-stack b.0 bs (b ∷ base) here) in
    let less : remove b.0 h.live ≡ stack bs base =
      ap (remove b.0) e
      ∙ remove-stack b.0 bs (b ∷ base) first
      ∙ ap (stack bs) (remove-head b base) in
    ap (free_all (map (λ c. c.0) bs)) (free-live b.0 h there)
    ∙ free_all-stack bs base (record h { live = remove b.0 h.live }) apart less
