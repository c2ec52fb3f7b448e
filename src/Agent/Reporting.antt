-- ===== src/Agent/Reporting.antt =====
-- apps/agent/cmd/agent/run.go: what becomes of a RunBackup message, from the handler to the report.
use backupy_agent.Prelude.{
  ℕ, ◌+◌, ◌^◌, ◌≤◌, ◌<◌, ◌≡◌, ◌⊎◌, refl, inl, inr, some, List, [], length, Result, ok, err,
  Result-cases, arith,
}
use backupy_agent.Prelude.Bytes.{Bytes}
use backupy_agent.Queue.{Queue, IsQueue, Job}
use backupy_agent.Wss.Messages.{Envelope, Payload, other}
use backupy_agent.Wss.Client.{Client, Wiring, send, stamp, numbered, disconnect, out_capacity}
use backupy_agent.Wss.Client.Sending.{Kept, send_kept, send_dropped}
use backupy_agent.Pipeline.Request.{RunBackup, BackupCompleted, RunError, World, Trace}
use backupy_agent.Pipeline.Runner.{run}

pub data JobStatus : Type 0 where
  job_status_unspecified queued running success failed cancelled : JobStatus

pub record JobUpdate : Type 0 where
  pub job_id : Bytes
  pub run_id : Bytes
  pub status : JobStatus
  pub error_message : Bytes

-- The payloads of the two reports, as the bytes that the connection passes on, and the text of an error.
pub record Bodies : Type 0 where
  pub completed : BackupCompleted → Bytes
  pub updated : JobUpdate → Bytes
  pub error_text : RunError → Bytes

-- `NewEnvelope` with a payload.
unfoldable pub new_envelope : ℕ → Payload → Envelope
new_envelope now p = record { seq = 0; ts_ms = now; correlation_id = []; payload = some p }

unfoldable pub build_backup_completed : Bodies → ℕ → BackupCompleted → Envelope
unfolding new_envelope
build_backup_completed b now done = new_envelope now (other (b.completed done))

unfoldable pub build_job_failed : Bodies → ℕ → Bytes → Bytes → RunError → Envelope
unfolding new_envelope
build_job_failed b now job_id run_id e = new_envelope now (
    other (
      b.updated (record {
        job_id = job_id;
        run_id = run_id;
        status = failed;
        error_message = b.error_text e;
      })))

unfoldable pub report_of : Bodies → ℕ → RunBackup → Result RunError BackupCompleted → Envelope
unfolding build_job_failed build_backup_completed
report_of b now req (err e) = build_job_failed b now req.job_id req.run_id e
report_of b now req (ok done) = build_backup_completed b now done

-- The goroutine of `OnRunBackup`, on the client as it is when the run has ended. The answer of `Send`
-- is dropped.
unfoldable pub on_run_backup :
    {St : Type 0}
    → World
    → Wiring St
    → Bodies
    → List ℕ
    → ℕ
    → RunBackup
    → Client St
    → Client St × Trace
on_run_backup w wiring b schedule now req c =
    let (result, tr) = run w schedule (some req) in
    ((send wiring now (some (report_of b now req result)) c).1, tr)

module _ {St : Type 0} (w : World) (wiring : Wiring St) (q : Queue St) (is_queue : IsQueue q)
    (b : Bodies) where
  -- Where the goroutine of a RunBackup leaves the message about its run, with a queue that takes it and
  -- a working codec. The message is BackupCompleted with the report of a success, or the update of a job
  -- that failed, with the ids of the request and the text of the error. Where there is an out channel
  -- with room it is the last one in the channel, and there only: if the connection ends with it in
  -- the channel, the client is as if it had never been sent, but for its number. Where there is no
  -- channel, or it is full, the message is in the queue under its key.
  pub on_run_backup-Kept :
      (schedule : List ℕ) (now : ℕ) (req : RunBackup) (raw : Bytes) (c : Client St)
      (jobs : List Job)
      → wiring.queue ≡ some q
      → wiring.codec.marshal
          (stamp now (numbered (report_of b now req (run w schedule (some req)).0) c).0)
        ≡ some raw
      → length raw + 31 ≤ 2 ^ 31
      → is_queue.Holds c.disk jobs
      → let env = report_of b now req (run w schedule (some req)).0 in
        Kept wiring q is_queue
          (stamp now (numbered env c).0)
          raw
          jobs
          c.out
          (on_run_backup w wiring b schedule now req c).0
        × (((done : BackupCompleted) × ((run w schedule (some req)).0 ≡ ok done)
              × (env.payload ≡ some (other (b.completed done))))
            ⊎ ((e : RunError) × ((run w schedule (some req)).0 ≡ err e)
                × (u : JobUpdate) × (env.payload ≡ some (other (b.updated u)))
                × (u.job_id ≡ req.job_id)
                × (u.run_id ≡ req.run_id)
                × (u.status ≡ failed)
                × (u.error_message ≡ b.error_text e)))
        × ((out : List Envelope)
            → c.out ≡ some out
            → length out < out_capacity
            → disconnect (on_run_backup w wiring b schedule now req c).0
              ≡ disconnect (numbered env c).1)
  unfolding on_run_backup report_of
  on_run_backup-Kept schedule now req raw c jobs wired encoded fits holds =
      let result = (run w schedule (some req)).0 in
      let env = report_of b now req result in
      (
        (send_kept wiring q is_queue now env raw c jobs wired encoded (no_id result) fits holds).1,
        elim (Result-cases result) [
          | inl (done, good) ↦ inl (done, good, rw good refl)
          | inr (e, bad) ↦ inr (
            e,
            bad,
            record {
              job_id = req.job_id;
              run_id = req.run_id;
              status = failed;
              error_message = b.error_text e;
            },
            rw bad refl,
            refl,
            refl,
            refl,
            refl,
          )
        ],
        λ out on room. send_dropped wiring now env c out on room,
      )
    where
      no_id :
          (r : Result RunError BackupCompleted)
          → length (report_of b now req r).correlation_id ≤ 32768
      no_id (ok done) = omega arith
      no_id (err e) = omega arith
