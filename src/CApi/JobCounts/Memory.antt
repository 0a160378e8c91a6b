-- ===== src/CApi/JobCounts/Memory.antt =====
-- The memory of `MQSSClientGetJobResultCounts`: none is lost when it fails.
use mqss_client.Common.{
  none, some, true, false, ◌*◌, ◌==◌, ℕ, suc, ◌+◌, ◌≡◌, ◌≢◌, ◌<◌, refl, ap, ◌∙◌, sym, Bool, some,
  List, [], ◌∷◌, ◌++◌, length, length-append, map, All, All-mono, All-append, arith, Bool-cases,
  inl, inr,
}
use mathlib.Core.List.{map-append}
use mqss_client.Common.Bytes.{Str}
use mqss_client.Common.Words.{ℤ, negsuc, to_int}
use mqss_client.Job.{Histogram}
use mqss_client.CApi.Heap.{
  IsFreed, free-none, Heap, malloc, free_all, stack, AreApart, free_all-stack, free-head,
}
use mqss_client.CApi.JobCounts.{
  total_entries, Outputs, JobResult, Option, get_job_result_counts, fill, CString, Filling, Step,
  continued, stopped, copy_entries, copy_results, finish,
}

-- The block that holds a copied string.
abbrev pub block : CString → ℕ × ℕ
block c = (c.0, length c.1)

stack-push : (bs base : List (ℕ × ℕ)) (b : ℕ × ℕ) → stack (bs ++ b ∷ []) base ≡ b ∷ stack bs base
unfolding stack
stack-push [] base b = refl
stack-push (c ∷ bs) base b = stack-push bs (c ∷ base) b

AreApart-push :
    (bs : List (ℕ × ℕ)) (p n : ℕ)
    → AreApart bs
    → All (λ b. b.0 < p) bs
    → AreApart (bs ++ (p, n) ∷ [])
AreApart-push [] p n h low = (tt, tt)
AreApart-push (b ∷ bs) p n (first, h) (lt, low) = (
  All-append (λ c. b.0 ≢ c.0) bs ((p, n) ∷ []) first (ground (arith, lt), tt),
  AreApart-push bs p n h low,
)

-- The heap while the arrays are filled: above some blocks it has those of the strings, all apart.
pub record Fills (base : List (ℕ × ℕ)) (faults : ℕ) (s : Filling) : Type 0 where
  pub blocks : s.heap.live ≡ stack (map block s.strings) base
  pub apart : AreApart (map block s.strings)
  pub below : All (λ b. b.0 < s.heap.next) (map block s.strings)
  pub faultless : s.heap.faults ≡ faults

abbrev pub reached : Step → Filling
reached (continued s) = s
reached (stopped s) = s

pushed-Fills :
    (base : List (ℕ × ℕ)) (f : ℕ) (s : Filling) (text : Str) (value : ℤ) (n : ℕ)
    → length text ≡ n
    → Fills base f s
    → Fills base f (record {
      strings = s.strings ++ (s.heap.next, text) ∷ [];
      values = s.values ++ value ∷ [];
      heap = record s.heap { next = suc s.heap.next; live = (s.heap.next, n) ∷ s.heap.live };
    })
pushed-Fills base f s text value n same h =
    let pushed : map block (s.strings ++ (s.heap.next, text) ∷ [])
        ≡ map block s.strings ++ (s.heap.next, length text) ∷ [] =
      map-append block s.strings ((s.heap.next, text) ∷ []) in
    record {
      blocks =
          rw (← same, pushed, stack-push (map block s.strings) base (s.heap.next, length text))
            (ap (λ l. (s.heap.next, length text) ∷ l) h.blocks);
      apart =
          rw pushed (AreApart-push (map block s.strings) s.heap.next (length text) h.apart h.below);
      below = rw pushed (
          All-append (λ b. b.0 < suc s.heap.next) (map block s.strings)
            ((s.heap.next, length text) ∷ [])
            (All-mono (λ b lt. ground (arith, lt)) (map block s.strings) h.below)
            (ground arith, tt));
      faultless = h.faultless;
    }

refused-Fills :
    (base : List (ℕ × ℕ)) (f : ℕ) (s : Filling)
    → Fills base f s
    → Fills base f (record s { heap = record s.heap { next = suc s.heap.next } })
refused-Fills base f s h = record {
  blocks = h.blocks;
  apart = h.apart;
  below = All-mono (λ b lt. ground (arith, lt)) (map block s.strings) h.below;
  faultless = h.faultless;
}

next-Fills :
    (base : List (ℕ × ℕ)) (f : ℕ) (rest : Filling → Step)
    → ((s : Filling) → Fills base f s → Fills base f (reached (rest s)))
    → (step : Step) → Fills base f (reached step)
    → Fills base f (reached (elim step [ continued s' ↦ rest s' | stopped s' ↦ stopped s' ]))
next-Fills base f rest k (continued s) h = k s h
next-Fills base f rest k (stopped s) h = h

map-block : (cs : List CString) → map (λ b. b.0) (map block cs) ≡ map (λ c. c.0) cs
map-block [] = refl
map-block (c ∷ cs) = ap (λ ps. c.0 ∷ ps) (map-block cs)

empty-Fills :
    (base : List (ℕ × ℕ)) (h : Heap)
    → Fills base h.faults (record { strings = []; values = []; heap = record h { live = base } })
unfolding stack
empty-Fills base h = record { blocks = refl; apart = tt; below = tt; faultless = refl }

module _ (fits : ℕ → ℕ → Bool) where
  copy_entries-Fills :
      (base : List (ℕ × ℕ)) (f : ℕ) (result : Histogram) (s : Filling)
      → Fills base f s
      → Fills base f (reached (copy_entries fits result s))
  unfolding copy_entries malloc
  copy_entries-Fills base f [] s h = h
  copy_entries-Fills base f ((bitstream, count) ∷ result) s h =
      elim (Bool-cases (fits s.heap.next (length bitstream + 1))) [
        | inr refused ↦
            rw (reached, copy_entries, malloc, refused)
              (rw (malloc, refused) (refused-Fills base f s h))
        | inl given ↦
            rw (reached, copy_entries, malloc, given)
              (copy_entries-Fills base f result _ (
                rw (malloc, given)
                  (pushed-Fills base f s (bitstream ++ 0 ∷ []) (to_int count) (length bitstream + 1)
                    (length-append bitstream (0 ∷ [])) h)))
      ]

  copy_results-Fills :
      (base : List (ℕ × ℕ)) (f : ℕ) (results : List Histogram) (s : Filling)
      → Fills base f s
      → Fills base f (reached (copy_results fits results s))
  unfolding copy_results
  copy_results-Fills base f [] s h = h
  copy_results-Fills base f (result ∷ results) s h =
      next-Fills base f (copy_results fits results) (copy_results-Fills base f results)
        (copy_entries fits result s) (copy_entries-Fills base f result s h)

  -- The two arrays above the blocks that were there.
  abbrev arrays : (bits m counts n : ℕ) → List (ℕ × ℕ) → List (ℕ × ℕ)
  arrays bits m counts n base = (bits, m) ∷ (counts, n) ∷ base

  finish-IsFreed :
      (size : ℤ) (bits m counts n : ℕ) (base : List (ℕ × ℕ)) (f : ℕ) (step : Step)
      → Fills (arrays bits m counts n base) f (reached step)
      → (finish fits size (some bits) (some counts) step).0 ≡ negsuc 0
      → ((finish fits size (some bits) (some counts) step).2.live ≡ base)
        × ((finish fits size (some bits) (some counts) step).2.faults ≡ f)
  unfolding finish
  finish-IsFreed size bits m counts n base f (continued s) h e = cc e
  finish-IsFreed size bits m counts n base f (stopped s) h e =
      let start = arrays bits m counts n base in
      let strings_freed : free_all (map (λ c. c.0) s.strings) s.heap
          ≡ record s.heap { live = start } =
        ap (λ ps. free_all ps s.heap) (sym (map-block s.strings))
        ∙ free_all-stack (map block s.strings) start s.heap h.apart h.blocks in
      let bits_freed =
        free-head bits m ((counts, n) ∷ base) (record s.heap { live = start }) refl in
      let counts_freed =
        free-head counts n base (record s.heap { live = (counts, n) ∷ base }) refl in
      rw (strings_freed, bits_freed, counts_freed) (refl, h.faultless)

  fill-IsFreed :
      (results : List Histogram) (size : ℤ) (m n : ℕ) (h : Heap)
      → (let (counts, h1) = malloc fits n h in
          let (bits, h2) = malloc fits m h1 in
          (fill fits results size bits counts h2).0 ≡ negsuc 0
          → IsFreed h (fill fits results size bits counts h2).2)
  unfolding malloc fill
  fill-IsFreed results size m n h =
      let after = λ (l : List (ℕ × ℕ)). record h { next = suc (suc h.next); live = l } in
      elim (Bool-cases (fits h.next n)) [
        | inr no_counts ↦ elim (Bool-cases (fits (suc h.next) m)) [
          | inr no_bits ↦
              rw (no_counts, no_bits)
                (λ e. rw (free-none (after h.live), free-none (after h.live)) (refl, refl))
          | inl bits ↦
              rw (no_counts, bits)
                (λ e.
                  rw
                    (
                      free-none (after ((suc h.next, m) ∷ h.live)),
                      free-head (suc h.next) m h.live (after ((suc h.next, m) ∷ h.live)) refl,
                    )
                    (refl, refl))
        ]
        | inl counts ↦ elim (Bool-cases (fits (suc h.next) m)) [
          | inr no_bits ↦
              rw (counts, no_bits)
                (λ e.
                  rw
                    (
                      free-head h.next n h.live (after ((h.next, n) ∷ h.live)) refl,
                      free-none (after h.live),
                    )
                    (refl, refl))
          | inl bits ↦
              rw (counts, bits)
                (λ e.
                  let start : Filling = record {
                    strings = [];
                    values = [];
                    heap = after (arrays (suc h.next) m h.next n h.live);
                  } in
                  finish-IsFreed size (suc h.next) m h.next n h.live h.faults
                    (copy_results fits results start)
                    (copy_results-Fills (arrays (suc h.next) m h.next n h.live) h.faults results
                      start (empty-Fills (arrays (suc h.next) m h.next n h.live) (after h.live)))
                    e)
        ]
      ]

  -- If MQSSClientGetJobResultCounts returns -1, whichever allocations failed, the blocks of the
  -- heap are those from before the call, and nothing was freed that was not allocated.
  pub get_job_result_counts-IsFreed :
      (job_result : Option JobResult) (given : Bool) (out : Outputs) (h : Heap)
      → (get_job_result_counts fits job_result given out h).0 ≡ negsuc 0
      → IsFreed h (get_job_result_counts fits job_result given out h).2
  unfolding get_job_result_counts
  get_job_result_counts-IsFreed none given out h e = (refl, refl)
  get_job_result_counts-IsFreed (some r) false out h e = (refl, refl)
  get_job_result_counts-IsFreed (some r) true out h e =
      elim (Bool-cases (total_entries r.results == 0)) [
        | inl zero_entries ↦ cc (rw zero_entries at e)
        | inr some_entries ↦ rw some_entries (
            fill-IsFreed r.results (to_int (total_entries r.results)) (8 * total_entries r.results)
              (4 * total_entries r.results) h (rw some_entries at e))
      ]
