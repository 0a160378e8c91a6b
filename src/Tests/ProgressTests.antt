-- ===== src/Tests/ProgressTests.antt =====
-- Waiting for a job that a server runs for some seconds.
use mqss_client.Job.{get_path}
use mqss_client.Common.{
  zero, suc, [], ◌≡◌, ℕ, ◌-◌, ◌<◌, ◌≤◌, refl, false, arith, if◌then◌else◌, ◌++◌,
}
use mqss_client.Common.Bytes.{is_empty, Str, txt, str_eq}
use mqss_client.Common.Words.{pos}
use mqss_client.Common.Effects.{ok}
use mqss_client.Transport.{BaseClient}
use mqss_client.Client.{wait_for_job_result, job_path}
use mqss_client.Transport.{Env}
use mqss_client.Standard.Map.{insert}
use mqss_client.Job.{job_result_of_json}
use mqss_client.Client.Wait.Delivery.{Keeps, IsDelivered, wait_for_job_result-IsDelivered}
use mqss_client.Tests.SampleServer.{result_value}
use mqss_client.Tests.ClientTests.{bell_result}
use mqss_client.Client.Wait.Progress.{Answers, Runs}
use mqss_client.Tests.SampleJson.{Value, str, sample-IsDocumented}
use mqss_client.Tests.SampleServer.{library, texts, running, completed, result, bell}

abbrev served : ℕ → Str
served zero = completed
served (suc w) = running

-- The world is the time that the job still needs.
abbrev clocked : BaseClient Value ℕ
clocked = record {
  get =
      λ path w. (ok (if str_eq path (job_path bell ++ txt "/result") then result else served w), w);
  post = λ path body w. (ok [], w);
  del = λ path w. (ok tt, w);
  elapse = λ n w. w - n;
}

-- Once the job is submitted, a hundred seconds of it at most.
abbrev Knows : ℕ → Type 0
Knows w = w ≤ 100

running-Answers :
    (w : ℕ) → Knows w → 0 < w → Answers library clocked bell Knows (λ w. w) w (txt "RUNNING")
unfolding str_eq get_path
running-Answers zero known h = absurd (omega arith)
running-Answers (suc w) known h = record {
  resp = running;
  after = suc w;
  answer = refl;
  reports = record {
    value = _;
    member = str (txt "RUNNING");
    parsed = refl;
    found = refl;
    text = refl;
  };
  same = refl;
  still = known;
}

completed-Answers :
    (w : ℕ) → Knows w → w ≡ 0 → Answers library clocked bell Knows (λ w. w) w (txt "COMPLETED")
unfolding str_eq get_path
completed-Answers (suc w) known h = absurd (omega arith)
completed-Answers zero known h = record {
  resp = completed;
  after = zero;
  answer = refl;
  reports = record {
    value = _;
    member = str (txt "COMPLETED");
    parsed = refl;
    found = refl;
    text = refl;
  };
  same = refl;
  still = known;
}

runs : Runs library clocked bell Knows (λ w. w)
unfolding str_eq is_empty
runs = record {
  busy = λ w known h. (txt "RUNNING", (refl, refl), running-Answers w known h);
  done = completed-Answers;
  ticks = λ n w known. (refl, omega (arith, known));
}

keeps : Keeps library clocked bell Knows (λ w. w) bell_result
unfolding str_eq get_path job_result_of_json insert
keeps = record {
  resp = λ w. result;
  value = λ w. result_value;
  after = λ w. w;
  answer = λ w known h. refl;
  parsed = λ w. refl;
  read = λ w. refl;
}

abbrev three_left : Env Value ℕ
three_left = record { world = 3; trace = [] }

wait_for_job_result-IsDelivered_example :
    IsDelivered library
      (sample-IsDocumented texts)
      clocked
      false
      bell
      Knows
      (λ w. w)
      runs
      bell_result
      keeps
      2
      three_left
      (wait_for_job_result library clocked false bell (pos 5) 2 three_left)
wait_for_job_result-IsDelivered_example =
    wait_for_job_result-IsDelivered library (sample-IsDocumented texts) clocked false bell Knows
      (λ w. w) runs bell_result keeps 2 5 three_left (omega arith) (omega arith) (omega arith)
      (omega arith)
