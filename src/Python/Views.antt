-- ===== src/Python/Views.antt =====
-- bindings/resource.cpp and bindings/job.cpp: resources, gates and results as Python sees them.
use mqss_client.Common.{[], ◌∷◌, map}
use mqss_client.Common.Bytes.{txt}
use mqss_client.Resource.{Resource, Gate}
use mqss_client.Job.{JobResult, Histogram}
use mqss_client.Python.{Python, View, text, word, flag}

module _ (P : Python) where
  open P use {Value, give, give_int, give_list, give_dict, give_gate}

  abbrev pub resource_view : View Value Resource
  resource_view =
      (txt "name", λ r. give text r.name)
      ∷ (txt "qubit_count", λ r. give word r.qubit_count)
      ∷ (txt "online", λ r. give flag r.online)
      ∷ (
        txt "coupling_map",
        λ r. give_list (map (λ row. give_list (map give_int row)) r.coupling_map),
      )
      ∷ (txt "native_gateset", λ r. give_list (map give_gate r.native_gateset))
      ∷ []

  abbrev pub gate_view : View Value Gate
  gate_view =
      (txt "name", λ g. give text g.name)
      ∷ (txt "qubit_number", λ g. give word g.qubit_number)
      ∷ (txt "parameter_number", λ g. give word g.parameter_number)
      ∷ (
        txt "supported_qubits",
        λ g. give_list (map (λ row. give_list (map (give word) row)) g.supported_qubits),
      )
      ∷ []

  -- A histogram is a dictionary.
  abbrev pub give_histogram : Histogram → Value
  give_histogram h = give_dict (map (λ b. (b.0, give word b.1)) h)

  abbrev pub result_view : View Value JobResult
  result_view =
      (txt "results", λ r. give_list (map give_histogram r.results))
      ∷ (txt "timestamp_completed", λ r. give text r.timestamp_completed)
      ∷ (txt "timestamp_submitted", λ r. give text r.timestamp_submitted)
      ∷ (txt "timestamp_scheduled", λ r. give text r.timestamp_scheduled)
      ∷ []
