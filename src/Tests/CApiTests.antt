-- ===== src/Tests/CApiTests.antt =====
-- The C interface on small heaps.
use mqss_client.Common.{arith, false, ap, Bool, ℕ, ◌≡◌, refl, none, some, true, [], ◌∷◌, not, ◌==◌}
use mqss_client.Common.Bytes.{txt}
use mqss_client.Common.Words.{pos, negsuc, to_int}
use mqss_client.Job.{JobResult}
use mqss_client.CApi.Heap.{IsFreed, Heap, malloc, free, free_all, remove}
use mqss_client.Common.Bytes.{is_empty, str_eq}
use mqss_client.Common.Effects.{ok}
use mqss_client.Standard.ToString.{numeral}
use mqss_client.Transport.{posted}
use mqss_client.Job.{get_path, to_json}
use mqss_client.Resource.{Resource}
use mqss_client.Client.{submit_job}
use mqss_client.CApi.ResourceInfo.{
  ResourceInfo, failed, succeeded, flatten_2d, resource_get_info, resource_get_gate_info,
}
use mqss_client.CApi.ResourceInfo.Memory.{resource_get_info-IsFreed}
use mqss_client.CApi.ResourceInfo.Contents.{IsDelivered, resource_get_info-IsDelivered}
use mqss_client.CApi.Calls.{mqss_client_submit_job}
use mqss_client.CApi.Calls.Laws.{submit_job-numeral}
use mqss_client.Tests.SampleServer.{library, scripted, at_start, submitted, ising}
use mqss_client.CApi.JobCounts.{Outputs, get_job_result_counts}
use mqss_client.CApi.JobCounts.Memory.{get_job_result_counts-IsFreed}

abbrev two_counts : JobResult
two_counts = record {
  results = ((txt "01", 7) ∷ (txt "10", 200) ∷ []) ∷ ((txt "11", 5) ∷ []) ∷ [];
  timestamp_completed = [];
  timestamp_submitted = [];
  timestamp_scheduled = [];
}

abbrev no_outputs : Outputs
no_outputs = record {
  bitstreams = record { address = none; cells = [] };
  counts = record { address = none; cells = [] };
  size = pos 0;
}

abbrev heap : Heap
heap = record { next = 5; live = (3, 16) ∷ []; faults = 0 }

-- An allocator that refuses one block, by its address.
abbrev all_but : ℕ → ℕ → ℕ → Bool
all_but p q n = not (p == q)

counts_tests :
    (get_job_result_counts (all_but 9) (some two_counts) true no_outputs heap ≡ (
      negsuc 0,
      record {
        bitstreams = record {
          address = some 6;
          cells = (7, b'0' ∷ b'1' ∷ 0 ∷ []) ∷ (8, b'1' ∷ b'0' ∷ 0 ∷ []) ∷ [];
        };
        counts = record { address = some 5; cells = pos 7 ∷ pos 200 ∷ [] };
        size = pos 3;
      },
      record { next = 10; live = (3, 16) ∷ []; faults = 0 },
    ))
    × ((get_job_result_counts (all_but 0) (some two_counts) true no_outputs heap).0 ≡ pos 0)
unfolding get_job_result_counts malloc free free_all remove to_int
counts_tests = (refl, refl)

get_job_result_counts-IsFreed_example :
    IsFreed heap (get_job_result_counts (all_but 9) (some two_counts) true no_outputs heap).2
get_job_result_counts-IsFreed_example =
    get_job_result_counts-IsFreed (all_but 9) (some two_counts) true no_outputs heap
      (ap (λ r. r.0) counts_tests.0)

abbrev fake_resource : Resource
fake_resource = record {
  name = txt "Fake";
  qubit_count = 5;
  online = true;
  coupling_map = (pos 0 ∷ pos 2 ∷ []) ∷ (pos 2 ∷ pos 0 ∷ []) ∷ [];
  native_gateset =
      record {
        name = txt "r";
        qubit_number = 1;
        parameter_number = 2;
        supported_qubits = (0 ∷ []) ∷ (1 ∷ []) ∷ [];
      }
      ∷ [];
}

info_tests :
    ((resource_get_info (all_but 7) 64 (some fake_resource) true heap).0 ≡ failed 5)
    × ((resource_get_gate_info
          (all_but 6)
          (some (record {
            name = txt "r";
            qubit_number = 1;
            parameter_number = 2;
            supported_qubits = (0 ∷ []) ∷ [];
          }))
          true
          heap).0
        ≡ failed 2)
unfolding resource_get_info resource_get_gate_info flatten_2d malloc
info_tests = (refl, refl)

resource_get_info-IsFreed_example :
    IsFreed heap (resource_get_info (all_but 7) 64 (some fake_resource) true heap).1
resource_get_info-IsFreed_example =
    resource_get_info-IsFreed (all_but 7) 64 (some fake_resource) true heap 5 info_tests.0

resource_get_info-IsDelivered_example :
    (info : ResourceInfo) × ((resource_get_info (all_but 0) 64 (some fake_resource) true heap).0
      ≡ succeeded info)
    × IsDelivered
        (all_but 0)
        64
        fake_resource
        info
        heap
        (resource_get_info (all_but 0) 64 (some fake_resource) true heap).1
resource_get_info-IsDelivered_example =
    resource_get_info-IsDelivered (all_but 0) 64 fake_resource heap refl refl refl

submitted_test : submit_job library scripted false ising (at_start (submitted ∷ [])) ≡ (
  ok (some (numeral 12345), record ising { uuid = txt "12345" }),
  record { world = []; trace = posted (txt "hamiltonian_job") (to_json library false ising) ∷ [] },
)
unfolding submit_job is_empty str_eq numeral get_path
submitted_test = refl

submit_job-numeral_test :
    mqss_client_submit_job library scripted false true ising (at_start (submitted ∷ [])) ≡ (
      ok (pos 12345, record ising { uuid = txt "12345" }),
      record {
        world = [];
        trace = posted (txt "hamiltonian_job") (to_json library false ising) ∷ [];
      },
    )
submit_job-numeral_test =
    submit_job-numeral library scripted false ising (record ising { uuid = txt "12345" }) 12345
      (at_start (submitted ∷ []))
      (record {
        world = [];
        trace = posted (txt "hamiltonian_job") (to_json library false ising) ∷ [];
      })
      (omega arith) submitted_test
