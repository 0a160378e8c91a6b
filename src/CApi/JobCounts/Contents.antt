-- ===== src/CApi/JobCounts/Contents.antt =====
-- The arrays that `MQSSClientGetJobResultCounts` gives its caller.
use mqss_client.Common.{◌*◌, ℕ, ◌*◌, ◌≡◌, List, [], ◌∷◌, ◌++◌, concat, length, map}
use mqss_client.Common.Bytes.{Str}
use mqss_client.Common.Words.{ℤ, to_int}
use mqss_client.Job.{Histogram}
use mqss_client.CApi.Heap.{Heap}
use mqss_client.CApi.JobCounts.{CString, Filling, Outputs, Step, continued, stopped, total_entries}

-- The copies of an entry's bitstream, with the null byte, and of its count.
abbrev pub text : Str × ℕ → Str
text e = e.0 ++ 0 ∷ []

abbrev pub value : Str × ℕ → ℤ
value e = to_int e.1

abbrev text_of : CString → Str
text_of c = c.1

-- The step wrote the copies of these entries behind what was there, unless it stopped.
abbrev Copies : Histogram → Filling → Step → Type 0
Copies entries s (stopped s') = Unit
Copies entries s (continued s') =
    (map text_of s'.strings ≡ map text_of s.strings ++ map text entries)
    × (s'.values ≡ s.values ++ map value entries)

-- What the caller is given for the entries of all histograms, in order: the copies of their
-- bitstreams, their counts, and their number, for which the arrays were allocated.
pub record IsCopied (results : List Histogram) (out : Outputs) : Type 0 where
  pub texts : map (λ c. c.1) out.bitstreams.cells ≡ map text (concat results)
  pub values : out.counts.cells ≡ map value (concat results)
  pub written : length out.counts.cells ≡ total_entries results
  pub size : out.size ≡ to_int (total_entries results)
