-- ===== src/Hpc/Jobs.antt =====
-- A job over the broker, from its submission to its result.
use mqss_client.Common.{ℕ, ◌≤◌, ◌<◌, ◌+◌, min, ◌≡◌, refl, true, []}
use mqss_client.Json.{JsonLib, IsDocumented, MakesValues}
use mqss_client.Transport.{Env}
use mqss_client.Job.{JobKind, JobRequest, JobResult}
use mqss_client.Job.Encoding.{IsUnsigned}
use mqss_client.RabbitMq.{Amqp, Session}
use mqss_client.Hpc.{HpcClient, hpc_transport}
use mqss_client.Hpc.Broker.{Service, IsServed}
use mqss_client.Hpc.Remote.{direct, IsIdle, hpc-Simulates}
use mqss_client.Client.Service.{IsService}
use mqss_client.Client.Programs.Jobs.{Computed, submit_job-Computed}

-- A job submitted over the broker comes to what the service behind it computes: if the service
-- answers every message, accepts every request that it can read, gives it an identifier and from
-- then on knows the job, runs it for a duration and keeps its result, the broker keeps the order of
-- messages and delivers them to a connection once it consumes the response queue, where no answer
-- is waiting, and the JSON library behaves as documented, then submitting a job whose number of
-- shots is an unsigned returns an identifier and the job with it, and waiting for that job, with
-- polling every p seconds, p at least 1, and a timeout above 0 of at least its duration and one
-- interval, returns the computed result.
pub submit_job-delivered :
    (J : JsonLib) (doc : IsDocumented J) (made : MakesValues J) {W : Type 0} (amqp : Amqp W)
    (client : HpcClient) {V : Type 0} (service : Service J.Json V)
    (q : IsServed J amqp client service) (duration : JobKind → ℕ) (compute : JobKind → JobResult)
    (able : IsService J (direct J amqp client service) duration compute) (job : JobRequest)
    (e : Env J.Json (Session W)) (p t : ℕ)
    → q.pending e.world.world ≡ []
    → IsUnsigned J job.kind
    → 0 < p
    → 0 < t
    → duration job.kind + min t p ≤ t
    → Computed J (hpc_transport J amqp client) true job (compute job.kind) p t e
submit_job-delivered J doc made amqp client service q duration compute able job e p t idle =
    submit_job-Computed J doc made (hpc_transport J amqp client) (direct J amqp client service)
      (IsIdle J amqp client service q) (hpc-Simulates J amqp client service q) true duration compute
      able job e (q.state e.world.world) p t (idle, refl)
