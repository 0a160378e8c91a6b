-- ===== src/CApi/JobCounts.antt =====
-- `MQSSClientGetJobResultCounts` of src/c_bindings/job.cpp.
pub mod Memory
pub mod Contents
use mqss_client.Common.{
  ℕ, ◌+◌, ◌*◌, Bool, ◌&&◌, Option, none, some, List, [], ◌∷◌, ◌++◌, length, ◌==◌, map, not, is_some,
  if◌then◌else◌,
}
use mqss_client.Common.Bytes.{Str}
use mqss_client.Common.Words.{ℤ, pos, negsuc, to_int}
use mqss_client.Job.{Histogram, JobResult}
use mqss_client.CApi.Heap.{Heap, malloc, free, free_all}

-- An array in memory: its address, and the cells written so far, from the first one on.
pub record Written (A : Type 0) : Type 0 where
  pub address : Option ℕ
  pub cells : List A

-- A bitstream's copy: its address and its bytes, with the null byte.
abbrev pub CString : Type 0
CString = ℕ × Str

-- The variables of the caller that the function writes.
pub record Outputs : Type 0 where
  pub bitstreams : Written CString
  pub counts : Written ℤ
  pub size : ℤ

-- The loop that counts the entries.
pub total_entries : List Histogram → ℕ
total_entries [] = 0
total_entries (result ∷ results) = length result + total_entries results

-- The arrays while they are filled.
pub record Filling : Type 0 where
  pub strings : List CString
  pub values : List ℤ
  pub heap : Heap

pub data Step : Type 0 where
  continued stopped : Filling → Step

module _ (fits : ℕ → ℕ → Bool) where
  -- The inner loop, which stops at the first bitstream without memory.
  pub copy_entries : Histogram → Filling → Step
  copy_entries [] s = continued s
  copy_entries ((bitstream, count) ∷ result) s =
      let (p, h) = malloc fits (length bitstream + 1) s.heap in
      elim p [
        | none ↦ stopped (record s { heap = h })
        | some address ↦ copy_entries result (record {
          strings = s.strings ++ (address, bitstream ++ 0 ∷ []) ∷ [];
          values = s.values ++ to_int count ∷ [];
          heap = h;
        })
      ]

  pub copy_results : List Histogram → Filling → Step
  copy_results [] s = continued s
  copy_results (result ∷ results) s = elim (copy_entries result s) [
    | continued s' ↦ copy_results results s'
    | stopped s' ↦ stopped s'
  ]

  -- What is made of the outer loop's end: on failure, the strings and then both arrays are freed.
  pub finish : ℤ → (bits counts : Option ℕ) → Step → ℤ × Outputs × Heap
  finish size bits counts (continued s) = (
    pos 0,
    record {
      bitstreams = record { address = bits; cells = s.strings };
      counts = record { address = counts; cells = s.values };
      size = size;
    },
    s.heap,
  )
  finish size bits counts (stopped s) = (
    negsuc 0,
    record {
      bitstreams = record { address = bits; cells = s.strings };
      counts = record { address = counts; cells = s.values };
      size = size;
    },
    free counts (free bits (free_all (map (λ c. c.0) s.strings) s.heap)),
  )

  -- What follows the two allocations.
  pub fill : List Histogram → ℤ → (bits counts : Option ℕ) → Heap → ℤ × Outputs × Heap
  fill results size bits counts h =
      if is_some counts && is_some bits
      then finish size bits counts
          (copy_results results (record { strings = []; values = []; heap = h }))
      else (
        negsuc 0,
        record {
          bitstreams = record { address = bits; cells = [] };
          counts = record { address = counts; cells = [] };
          size = size;
        },
        free bits (free counts h),
      )

  -- `given` says whether the three pointers to the outputs are not null.
  unfoldable pub get_job_result_counts :
      Option JobResult → (given : Bool) → Outputs → Heap → ℤ × Outputs × Heap
  unfolding total_entries copy_entries copy_results finish fill
  get_job_result_counts none given out h = (negsuc 0, out, h)
  get_job_result_counts (some job_result) given out h =
      let results = job_result.results in
      let total = total_entries results in
      let (counts, h1) = malloc fits (4 * total) h in
      let (bits, h2) = malloc fits (8 * total) h1 in
      if not given
      then (negsuc 0, out, h)
      else if total == 0
      then (
        pos 0,
        record {
          bitstreams = record { address = none; cells = [] };
          counts = record { address = none; cells = [] };
          size = to_int total;
        },
        h,
      )
      else fill results (to_int total) bits counts h2
