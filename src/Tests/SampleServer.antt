-- ===== src/Tests/SampleServer.antt =====
-- A server that answers from a script, and samples of its answers.
use mqss_client.Common.{true, false, List, [], ◌∷◌}
use mqss_client.Common.Bytes.{Str, txt}
use mqss_client.Common.Effects.{Result, ok, throw, runtime_error}
use mqss_client.Json.{JsonLib}
use mqss_client.Transport.{BaseClient, Env}
use mqss_client.Job.{JobRequest, circuit, hamiltonian}
use mqss_client.Tests.SampleJson.{Value, str, num, bool, arr, obj, end, field, sample}

-- The answers still to come; a connection that is used up fails.
abbrev pub Script : Type 0
Script = List Str

abbrev next : Script → Result Str × Script
next [] = (throw (runtime_error (txt "closed")), [])
next (r ∷ rs) = (ok r, rs)

abbrev forget : Result Str × Script → Result (Unit {0}) × Script
forget (ok r, rs) = (ok tt, rs)
forget (throw x, rs) = (throw x, rs)

abbrev pub scripted : BaseClient Value Script
scripted = record {
  get = λ path. next;
  post = λ path body. next;
  del = λ path w. forget (next w);
  elapse = λ n w. w;
}

abbrev pub at_start : Script → Env Value Script
at_start s = record { world = s; trace = [] }

abbrev pub running : Str
running = txt "{\"status\":\"RUNNING\"}"

abbrev pub completed : Str
completed = txt "{\"status\":\"COMPLETED\"}"

abbrev pub submitted : Str
submitted = txt "{\"uuid\":\"12345\"}"

abbrev pub three_pending : Str
three_pending = txt "{\"num_pending_jobs\":3}"

abbrev pub counts : Str
counts = txt "[{\"10\":100},{\"01\":7,\"10\":200}]"

abbrev pub result : Str
result = txt "{\"result\":\"[...]\",...}"

abbrev pub counts_value : Value
counts_value = arr (
    field [] (obj (field (txt "10") (num 100) end))
      (field [] (obj (field (txt "10") (num 200) (field (txt "01") (num 7) end))) end))

abbrev pub result_value : Value
result_value = obj (
    field (txt "result") (str counts) (
      field (txt "timestamp_completed") (str (txt "2026-05-26 11:26:07.615381")) (
        field (txt "timestamp_scheduled") (str (txt "2026-05-26 08:07:40.026325"))
          (field (txt "timestamp_submitted") (str (txt "2026-05-25 08:52:14.503964")) end))))

-- A result of one histogram.
abbrev pub single : Str
single = txt "{\"0\":60}"

abbrev pub energy : Str
energy = txt "{\"result\":\"{...}\",...}"

abbrev pub energy_value : Value
energy_value = obj (
    field (txt "result") (str single) (
      field (txt "timestamp_completed") (str (txt "2026-05-26 11:26:07.615381")) (
        field (txt "timestamp_scheduled") (str (txt "2026-05-26 08:07:40.026325"))
          (field (txt "timestamp_submitted") (str (txt "2026-05-25 08:52:14.503964")) end))))

abbrev pub fake : Str
fake = txt "{\"name\":\"Fake\",...}"

abbrev pub fake_value : Value
fake_value = obj (
    field (txt "name") (str (txt "Fake")) (
      field (txt "qubits") (num 5) (
        field (txt "online") (bool true) (
          field (txt "connectivity") (str (txt "[[0, 2], [2, 0]]"))
            (field (txt "instructions") (str (txt "[('r', {(0,): None, (1,): None})]")) end)))))

abbrev pub texts : List (Str × Value)
texts =
    (running, obj (field (txt "status") (str (txt "RUNNING")) end))
    ∷ (completed, obj (field (txt "status") (str (txt "COMPLETED")) end))
    ∷ (three_pending, obj (field (txt "num_pending_jobs") (num 3) end))
    ∷ (submitted, obj (field (txt "uuid") (str (txt "12345")) end))
    ∷ (counts, counts_value)
    ∷ (result, result_value)
    ∷ (single, obj (field (txt "0") (num 60) end))
    ∷ (energy, energy_value)
    ∷ (fake, fake_value)
    ∷ (txt "[fake]", arr (field [] fake_value end))
    ∷ []

abbrev pub library : JsonLib
library = sample texts

abbrev pub bell : JobRequest
bell = record {
  uuid = txt "12345";
  kind = circuit (record {
    circuit = txt "OPENQASM 2.0;";
    circuit_format = txt "qasm";
    resource_name = txt "Fake";
    shots = 100;
    no_modify = false;
    queued = false;
  });
}

abbrev pub ising : JobRequest
ising = record {
  uuid = [];
  kind = hamiltonian (record {
    resource_name = txt "Fake";
    interaction_str = txt "Z0 Z1";
    coefficients_str = txt "0.5";
  });
}
