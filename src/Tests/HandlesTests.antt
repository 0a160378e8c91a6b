-- ===== src/Tests/HandlesTests.antt =====
-- A C caller that makes a job, submits it, and frees it.
use mqss_client.Common.{◌≡◌, refl, false, none, some, [], ◌∷◌}
use mqss_client.Common.Bytes.{txt, str_eq, is_empty}
use mqss_client.Common.Words.{pos}
use mqss_client.Common.Effects.{ok}
use mqss_client.Standard.Stoi.{stoi}
use mqss_client.Transport.{posted}
use mqss_client.Job.{path_of, JobRequest, get_path, to_json}
use mqss_client.Client.{submit_job}
use mqss_client.CApi.Heap.{IsFreed, holds, remove, free}
use mqss_client.CApi.Calls.{mqss_client_submit_job}
use mqss_client.CApi.Handles.{
  job_object, Store, Sizes, object_at, erase, put, job_at, free_job, new_hamiltonian_job,
  submit_job_at,
}
use mqss_client.CApi.Handles.Lifetimes.{IsBalanced}
use mqss_client.CApi.Handles.Sessions.{
  Reached, start, then, makes_hamiltonian_job, submits_job, frees_job, Reached-IsBalanced,
}
use mqss_client.Common.{arith, true}
use mqss_client.CApi.Handles.Service.{IsRun, get_job_result_at-IsRun}
use mqss_client.Tests.ServiceTests.{duration, compute, energy_result, busy}
use mqss_client.Tests.OrderTests.{
  client, broker, remote, broker-IsServed, env, env-IsIdle, direct-IsService,
}
use mqss_client.Hpc.{hpc_transport}
use mqss_client.Hpc.Remote.{direct, IsIdle, hpc-Simulates}
use mqss_client.Tests.SampleJson.{sample-IsDocumented, sample-MakesValues}
use mqss_client.Tests.ConnectTests.{silent}
use mqss_client.Tests.SampleCurl.{Transfers, curl}
use mqss_client.Tests.SampleServer.{library, scripted, at_start, submitted, ising, texts}

abbrev sizes : Sizes
sizes = record { client = 16; circuit_job = 152; hamiltonian_job = 136; job_result = 120 }

abbrev empty : Store Transfers
empty = record { heap = record { next = 5; live = (3, 16) ∷ []; faults = 0 }; objects = [] }

abbrev with_job : JobRequest → Store Transfers
with_job job = record {
  heap = record { next = 6; live = (5, 136) ∷ (3, 16) ∷ []; faults = 0 };
  objects = (5, job_object job) ∷ [];
}

abbrev labelled : JobRequest
labelled = record ising { uuid = txt "12345" }

made_test :
    new_hamiltonian_job sizes (some (txt "Fake")) (some (txt "Z0 Z1")) (some (txt "0.5")) empty
    ≡ (some 5, with_job ising)
unfolding new_hamiltonian_job
made_test = refl

submitted_test :
    submit_job_at sizes library scripted false (some 5) (with_job ising) (at_start (submitted ∷ []))
    ≡ (
      ok (pos 12345, with_job labelled),
      record {
        world = [];
        trace = posted (txt "hamiltonian_job") (to_json library false ising) ∷ [];
      },
    )
unfolding submit_job_at mqss_client_submit_job submit_job job_at object_at put get_path to_json stoi
    str_eq is_empty
submitted_test = refl

found_test : job_at (some 5) (with_job labelled) ≡ some labelled
unfolding job_at object_at
found_test = refl

abbrev freed : Store Transfers
freed = record { heap = record { next = 6; live = (3, 16) ∷ []; faults = 0 }; objects = [] }

freed_test : free_job (some 5) (with_job labelled) ≡ freed
unfolding free_job free erase remove holds
freed_test = refl

session : Reached sizes library silent curl none [] scripted false empty freed
unfolding free_job free erase remove holds new_hamiltonian_job
session =
    then
      (then
        (then start
          (makes_hamiltonian_job (some (txt "Fake")) (some (txt "Z0 Z1")) (some (txt "0.5"))))
        (submits_job (some 5) (at_start (submitted ∷ [])) _ (pos 12345, with_job labelled)
          submitted_test))
      (frees_job 5 labelled found_test)

Reached-IsBalanced_example :
    IsBalanced sizes empty.heap freed × (freed.objects ≡ [] → IsFreed empty.heap freed.heap)
Reached-IsBalanced_example =
    Reached-IsBalanced sizes library silent curl none [] scripted false empty freed refl session

get_job_result_at-IsRun_example :
    IsRun sizes library
      (hpc_transport library broker client)
      true
      5
      ising
      energy_result
      10
      (with_job ising)
      env
unfolding object_at path_of str_eq
get_job_result_at-IsRun_example =
    get_job_result_at-IsRun sizes library (sample-IsDocumented texts) (sample-MakesValues texts)
      (hpc_transport library broker client) (direct library broker client remote)
      (IsIdle library broker client remote broker-IsServed)
      (hpc-Simulates library broker client remote broker-IsServed) true duration compute
      direct-IsService 5 ising 10 (with_job ising) env busy env-IsIdle refl tt (omega arith)
      (omega arith) (omega arith)
