-- ===== src/CApi/Handles/Lifetimes.antt =====
-- A C caller that frees what it was given, and nothing else.
use mqss_client.Common.{
  ℕ, ◌<◌, ◌≡◌, refl, sym, ap, ◌∙◌, subst, true, Option, none, some, List, [], ◌∷◌, ◌++◌, ◌==◌, All,
  All-mono, arith, Bool-cases, inl, inr,
}
use mqss_client.CApi.Heap.{Heap, AreApart, holds, remove}
use mqss_client.CApi.Heap.Removal.{free-above, All-remove, AreApart-remove}
use mqss_client.CApi.Handles.{
  Object, Store, Sizes, size_of, object_at, erase, put, delete_object, new_handle,
}

module _ (sizes : Sizes) {W : Type 0} where
  -- The blocks of objects.
  abbrev pub blocks : List (ℕ × Object W) → List (ℕ × ℕ)
  blocks [] = []
  blocks ((p, o) ∷ os) = (p, size_of sizes o) ∷ blocks os

  holds-blocks :
      (p : ℕ) (os : List (ℕ × Object W)) {o : Object W}
      → object_at p os ≡ some o
      → holds p (blocks os) ≡ true
  unfolding object_at holds
  holds-blocks p [] h = cc
  holds-blocks p ((q, o) ∷ os) h = elim (Bool-cases (p == q)) [
    | inl same ↦ rw same refl
    | inr other ↦ rw other (holds-blocks p os (rw other at h))
  ]

  blocks-erase : (p : ℕ) (os : List (ℕ × Object W)) → blocks (erase p os) ≡ remove p (blocks os)
  unfolding erase remove
  blocks-erase p [] = refl
  blocks-erase p ((q, o) ∷ os) = elim (Bool-cases (p == q)) [
    | inl same ↦ rw same refl
    | inr other ↦ rw other (ap (λ bs. (q, size_of sizes o) ∷ bs) (blocks-erase p os))
  ]

  blocks-put :
      (p : ℕ) (old new : Object W) (os : List (ℕ × Object W))
      → object_at p os ≡ some old
      → size_of sizes new ≡ size_of sizes old
      → blocks (put p new os) ≡ blocks os
  unfolding object_at put
  blocks-put p old new [] h same = refl
  blocks-put p old new ((q, o) ∷ os) h same = elim (Bool-cases (p == q)) [
    | inl here ↦
        let was : o ≡ old = cc (rw here at h) in
        rw here (ap (λ n. (q, n) ∷ blocks os) (same ∙ ap (size_of sizes) (sym was)))
    | inr other ↦
        rw other
          (ap (λ bs. (q, size_of sizes o) ∷ bs) (blocks-put p old new os (rw other at h) same))
  ]

  -- The blocks of a store are those of its objects, above the blocks of a heap; nothing was freed in
  -- between that was not allocated; and the handles are older than the next block and no two the same.
  pub record IsBalanced (h : Heap) (s : Store W) : Type 0 where
    pub live : s.heap.live ≡ blocks s.objects ++ h.live
    pub faults : s.heap.faults ≡ h.faults
    pub older : All (λ b. b.0 < s.heap.next) (blocks s.objects)
    pub apart : AreApart (blocks s.objects)

  pub new_handle-IsBalanced :
      (h : Heap) (o : Option (Object W)) (s : Store W)
      → IsBalanced h s
      → IsBalanced h (new_handle sizes o s).1
  unfolding new_handle
  new_handle-IsBalanced h none s b = b
  new_handle-IsBalanced h (some o) s b = record {
    live = ap (λ bs. (s.heap.next, size_of sizes o) ∷ bs) b.live;
    faults = b.faults;
    older = (omega arith, All-mono (λ c l. omega (arith, l)) (blocks s.objects) b.older);
    apart = (All-mono (λ c l e. absurd (omega (arith, l, e))) (blocks s.objects) b.older, b.apart);
  }

  pub delete_object-IsBalanced :
      (h : Heap) (p : ℕ) (o : Object W) (s : Store W)
      → object_at p s.objects ≡ some o
      → IsBalanced h s
      → IsBalanced h (delete_object (some p) s)
  unfolding delete_object
  delete_object-IsBalanced h p o s there b =
      let held = holds-blocks p s.objects there in
      let freed = free-above p (blocks s.objects) h.live s.heap b.live held in
      rw freed (record {
        live = ap (λ bs. bs ++ h.live) (sym (blocks-erase p s.objects));
        faults = b.faults;
        older =
            subst (All (λ c. c.0 < s.heap.next)) (sym (blocks-erase p s.objects))
              (All-remove p (λ c. c.0 < s.heap.next) (blocks s.objects) b.older);
        apart =
            subst AreApart (sym (blocks-erase p s.objects))
              (AreApart-remove p (blocks s.objects) b.apart);
      })

  pub put-IsBalanced :
      (h : Heap) (p : ℕ) (old new : Object W) (s : Store W)
      → object_at p s.objects ≡ some old
      → size_of sizes new ≡ size_of sizes old
      → IsBalanced h s
      → IsBalanced h (record s { objects = put p new s.objects })
  put-IsBalanced h p old new s there same b =
      let kept = sym (blocks-put p old new s.objects there same) in
      record {
        live = b.live ∙ ap (λ bs. bs ++ h.live) kept;
        faults = b.faults;
        older = subst (All (λ c. c.0 < s.heap.next)) kept b.older;
        apart = subst AreApart kept b.apart;
      }
