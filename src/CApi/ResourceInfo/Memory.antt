-- ===== src/CApi/ResourceInfo/Memory.antt =====
-- What `MQSSClientResourceGetInfo` and `MQSSClientResourceGetGateInfo` leave in memory.
use mqss_client.Common.{
  ℕ, suc, ◌+◌, ◌*◌, ◌≡◌, refl, Bool, true, false, Option, none, some, List, [], ◌∷◌, ◌++◌, length,
  Bool-cases, inl, inr,
}
use mqss_client.Common.Words.{ℤ, to_int}
use mqss_client.Resource.{Gate, Resource}
use mqss_client.CApi.Heap.{
  Heap, IsFreed, free, free-head, allocated, refused, malloc-allocated, malloc-refused,
}
use mqss_client.CApi.ResourceInfo.{
  total_length, flattened, low_word, failed, succeeded, flatten_2d, new_gates, resource_get_info,
  resource_get_gate_info,
}

module _ (fits : ℕ → ℕ → Bool) {A : Type 0} (to : A → ℤ) (rows : List (List A)) (h : Heap) where
  flatten_2d-allocated :
      fits h.next (4 * total_length rows) ≡ true
      → flatten_2d fits to rows h ≡ (
        some ((h.next, flattened to rows), low_word (total_length rows)),
        allocated (4 * total_length rows) h,
      )
  unfolding flatten_2d
  flatten_2d-allocated e = simp (flatten_2d, malloc-allocated fits (4 * total_length rows) h e)

  flatten_2d-refused :
      fits h.next (4 * total_length rows) ≡ false → flatten_2d fits to rows h ≡ (none, refused h)
  unfolding flatten_2d
  flatten_2d-refused e = simp (flatten_2d, malloc-refused fits (4 * total_length rows) h e)

module _ (fits : ℕ → ℕ → Bool) where
  -- A gate's data, in the two blocks that are allocated for it.
  abbrev gate_size : Gate → ℕ
  gate_size g = length g.name + 1

  abbrev qubits_size : Gate → ℕ
  qubits_size g = 4 * total_length g.supported_qubits

  gate_info-succeeds :
      (g : Gate) (h : Heap)
      → fits h.next (gate_size g) ≡ true
      → fits (suc h.next) (qubits_size g) ≡ true
      → resource_get_gate_info fits (some g) true h ≡ (
        succeeded (record {
          name = (h.next, g.name ++ 0 ∷ []);
          qubit_number = g.qubit_number;
          parameter_number = g.parameter_number;
          supported_qubits = (suc h.next, flattened to_int g.supported_qubits);
          supported_qubit_count = low_word (total_length g.supported_qubits);
        }),
        allocated (qubits_size g) (allocated (gate_size g) h),
      )
  unfolding resource_get_gate_info
  gate_info-succeeds g h name qubits = simp (
    resource_get_gate_info,
    malloc-allocated fits (gate_size g) h name,
    flatten_2d-allocated fits to_int g.supported_qubits (allocated (gate_size g) h) qubits,
  )

  -- If MQSSClientResourceGetGateInfo returns a code of failure, whichever allocation failed, the
  -- blocks of the heap are those from before the call, and nothing was freed that was not
  -- allocated.
  pub resource_get_gate_info-IsFreed :
      (gate : Option Gate) (given : Bool) (h : Heap) (code : ℕ)
      → (resource_get_gate_info fits gate given h).0 ≡ failed code
      → IsFreed h (resource_get_gate_info fits gate given h).1
  unfolding resource_get_gate_info
  resource_get_gate_info-IsFreed none given h code e = (refl, refl)
  resource_get_gate_info-IsFreed (some g) false h code e = (refl, refl)
  resource_get_gate_info-IsFreed (some g) true h code e =
      let m = gate_size g in
      let h1 = allocated m h in
      elim (Bool-cases (fits h.next m)) [
        | inr no_name ↦
            let end : resource_get_gate_info fits (some g) true h ≡ (failed 2, refused h) =
              simp (resource_get_gate_info, malloc-refused fits m h no_name) in
            rw end (refl, refl)
        | inl name ↦ elim (Bool-cases (fits h1.next (qubits_size g))) [
          | inl qubits ↦ cc (gate_info-succeeds g h name qubits, e)
          | inr no_qubits ↦
              let end : resource_get_gate_info fits (some g) true h
                  ≡ (failed 2, free (some h.next) (refused h1)) =
                simp (
                  resource_get_gate_info,
                  malloc-allocated fits m h name,
                  flatten_2d-refused fits to_int g.supported_qubits h1 no_qubits,
                ) in
              rw (end, free-head h.next m h.live (refused h1) refl) (refl, refl)
        ]
      ]

  -- A resource's data, in the three blocks that are allocated for it and those of its gates.
  abbrev pub name_size : Resource → ℕ
  name_size r = length r.name + 1

  abbrev pub couplings_size : Resource → ℕ
  couplings_size r = 4 * total_length r.coupling_map

  abbrev pub gates_size : Resource → ℕ
  gates_size r = 8 * length r.native_gateset

  abbrev pub with_arrays : Resource → Heap → Heap
  with_arrays r h =
      allocated (gates_size r) (allocated (couplings_size r) (allocated (name_size r) h))

  pub resource_info-succeeds :
      (size : ℕ) (r : Resource) (h : Heap)
      → fits h.next (name_size r) ≡ true
      → fits (suc h.next) (couplings_size r) ≡ true
      → fits (suc (suc h.next)) (gates_size r) ≡ true
      → resource_get_info fits size (some r) true h ≡ (
        succeeded (record {
          name = (h.next, r.name ++ 0 ∷ []);
          qubit_count = r.qubit_count;
          online = r.online;
          coupling_map = (suc h.next, flattened (λ q. q) r.coupling_map);
          coupling_map_size = low_word (total_length r.coupling_map);
          native_gateset =
              (suc (suc h.next), (new_gates fits size r.native_gateset (with_arrays r h)).0);
          gate_count = low_word (length r.native_gateset);
        }),
        (new_gates fits size r.native_gateset (with_arrays r h)).1,
      )
  unfolding resource_get_info
  resource_info-succeeds size r h name couplings gates =
      let h1 = allocated (name_size r) h in
      let h2 = allocated (couplings_size r) h1 in
      simp (
        resource_get_info,
        malloc-allocated fits (name_size r) h name,
        flatten_2d-allocated fits (λ q. q) r.coupling_map h1 couplings,
        malloc-allocated fits (gates_size r) h2 gates,
      )

  -- If MQSSClientResourceGetInfo returns a code of failure, whichever allocation failed, the blocks
  -- of the heap are those from before the call, and nothing was freed that was not allocated.
  pub resource_get_info-IsFreed :
      (size : ℕ) (resource : Option Resource) (given : Bool) (h : Heap) (code : ℕ)
      → (resource_get_info fits size resource given h).0 ≡ failed code
      → IsFreed h (resource_get_info fits size resource given h).1
  unfolding resource_get_info
  resource_get_info-IsFreed size resource false h code e = (refl, refl)
  resource_get_info-IsFreed size none true h code e = (refl, refl)
  resource_get_info-IsFreed size (some r) true h code e =
      let m = name_size r in
      let h1 = allocated m h in
      let n = couplings_size r in
      let h2 = allocated n h1 in
      let k = gates_size r in
      elim (Bool-cases (fits h.next m)) [
        | inr no_name ↦
            let end : resource_get_info fits size (some r) true h ≡ (failed 3, refused h) =
              simp (resource_get_info, malloc-refused fits m h no_name) in
            rw end (refl, refl)
        | inl name ↦ elim (Bool-cases (fits h1.next n)) [
          | inr no_couplings ↦
              let end : resource_get_info fits size (some r) true h
                  ≡ (failed 4, free (some h.next) (refused h1)) =
                simp (
                  resource_get_info,
                  malloc-allocated fits m h name,
                  flatten_2d-refused fits (λ q. q) r.coupling_map h1 no_couplings,
                ) in
              rw (end, free-head h.next m h.live (refused h1) refl) (refl, refl)
          | inl couplings ↦ elim (Bool-cases (fits h2.next k)) [
            | inl gates ↦ cc (resource_info-succeeds size r h name couplings gates, e)
            | inr no_gates ↦
                let end : resource_get_info fits size (some r) true h
                    ≡ (failed 5, free (some h.next) (free (some h1.next) (refused h2))) =
                  simp (
                    resource_get_info,
                    malloc-allocated fits m h name,
                    flatten_2d-allocated fits (λ q. q) r.coupling_map h1 couplings,
                    malloc-refused fits k h2 no_gates,
                  ) in
                let without = record (refused h2) { live = h1.live } in
                rw
                  (
                    end,
                    free-head h1.next n h1.live (refused h2) refl,
                    free-head h.next m h.live without refl,
                  )
                  (refl, refl)
          ]
        ]
      ]
