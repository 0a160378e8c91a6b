-- ===== src/CApi/ResourceInfo/Contents.antt =====
-- The data that `MQSSClientResourceGetInfo` gives for a resource.
use mqss_client.Common.{
  ℕ, suc, ◌≡◌, refl, ap, ◌∙◌, sym, Bool, true, some, List, [], ◌∷◌, ◌++◌, length, length-append,
  map, concat, arith,
}
use mqss_client.Common.Words.{ℤ}
use mqss_client.Resource.{Gate, Resource}
use mqss_client.CApi.Heap.{Heap, stack}
use mqss_client.CApi.ResourceInfo.{
  total_length, flattened, low_word, succeeded, ResourceInfo, new_gates, resource_get_info,
}
use mqss_client.CApi.ResourceInfo.Memory.{
  name_size, couplings_size, gates_size, with_arrays, resource_info-succeeds,
}

flattened-concat : (rows : List (List ℤ)) → flattened (λ q. q) rows ≡ concat rows
unfolding flattened
flattened-concat [] = refl
flattened-concat (row ∷ rows) =
    rw (flattened-concat rows) (ap (λ l. l ++ concat rows) (map-same row))
  where
    map-same : (row : List ℤ) → map (λ q. q) row ≡ row
    map-same [] = refl
    map-same (q ∷ qs) = ap (λ l. q ∷ l) (map-same qs)

total_length-concat : {A : Type 0} (rows : List (List A)) → total_length rows ≡ length (concat rows)
unfolding total_length
total_length-concat [] = refl
total_length-concat (row ∷ rows) =
    omega (arith, length-append row (concat rows), total_length-concat rows)

module _ (fits : ℕ → ℕ → Bool) (size : ℕ) where
  new_gates-copies :
      (gs : List Gate) (h : Heap)
      → (map (λ c. c.1) (new_gates fits size gs h).0 ≡ gs)
        × ((new_gates fits size gs h).1.live
            ≡ stack (map (λ c. (c.0, size)) (new_gates fits size gs h).0) h.live)
  unfolding new_gates stack
  new_gates-copies [] h = (refl, refl)
  new_gates-copies (g ∷ gs) h =
      let (copies, blocks) =
        new_gates-copies gs (record h { next = suc h.next; live = (h.next, size) ∷ h.live }) in
      (ap (λ l. g ∷ l) copies, blocks)

  -- What a caller has been given for a resource: its data, the coupling map entry by entry, and a copy
  -- of each gate; and the blocks for it, above those that were there.
  pub record IsDelivered (r : Resource) (info : ResourceInfo) (h h' : Heap) : Type 0 where
    pub name : info.name.1 ≡ r.name ++ 0 ∷ []
    pub qubit_count : info.qubit_count ≡ r.qubit_count
    pub online : info.online ≡ r.online
    pub couplings : info.coupling_map.1 ≡ concat r.coupling_map
    pub couplings_count : info.coupling_map_size ≡ low_word (length info.coupling_map.1)
    pub gates : map (λ c. c.1) info.native_gateset.1 ≡ r.native_gateset
    pub gates_count : info.gate_count ≡ low_word (length r.native_gateset)
    pub blocks :
        h'.live
        ≡ stack (map (λ c. (c.0, size)) info.native_gateset.1) (
            (info.native_gateset.0, gates_size fits r)
            ∷ (info.coupling_map.0, couplings_size fits r)
            ∷ (info.name.0, name_size fits r)
            ∷ h.live)

  -- If its three allocations succeed, MQSSClientResourceGetInfo of a resource succeeds and gives
  -- its data, its coupling map entry by entry with the number of entries modulo 2^32, and a copy of
  -- each gate, and the blocks for these are above those that were there.
  pub resource_get_info-IsDelivered :
      (r : Resource) (h : Heap)
      → fits h.next (name_size fits r) ≡ true
      → fits (suc h.next) (couplings_size fits r) ≡ true
      → fits (suc (suc h.next)) (gates_size fits r) ≡ true
      → (info : ResourceInfo) × ((resource_get_info fits size (some r) true h).0 ≡ succeeded info)
        × IsDelivered r info h (resource_get_info fits size (some r) true h).1
  resource_get_info-IsDelivered r h name couplings gates =
      let (copies, blocks) = new_gates-copies r.native_gateset (with_arrays fits r h) in
      let done = resource_info-succeeds fits size r h name couplings gates in
      let flat = flattened-concat r.coupling_map in
      rw done (
        _,
        refl,
        record {
          name = refl;
          qubit_count = refl;
          online = refl;
          couplings = flat;
          couplings_count = ap low_word (total_length-concat r.coupling_map ∙ ap length (sym flat));
          gates = copies;
          gates_count = refl;
          blocks = blocks;
        },
      )
