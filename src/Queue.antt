-- ===== src/Queue.antt =====
-- apps/agent/internal/queue/queue.go: the job queue as an interface with its laws, and the queue over
-- the store.
use backupy_agent.Prelude.{
  ℕ, ◌+◌, ◌^◌, ◌≤◌, ◌<◌, ◌≡◌, refl, ap, none, List, [], ◌∷◌, map, length, take, Result, ok, ◌>>=◌,
}
use backupy_agent.Prelude.Bytes.{Bytes}
use backupy_agent.Prelude.Int.{ℤ, pos}
use backupy_agent.Cipher.{Aead, IsGcm, Random, IsRandom}
use backupy_agent.Bolt.{Bolt, IsBolt, insert, remove}
use backupy_agent.State.Envelope.{StateError}
use backupy_agent.State.Store.{Store, QueuedJob, enqueue_job, dequeue_jobs, ack_job, queue_depth}
use backupy_agent.State.Store.Jobs.{
  Queued, enqueue_job-insert, ack_job-remove, dequeue_jobs-take, queue_depth-length,
}

-- `RunID` and `Payload`
abbrev pub Job : Type 0
Job = Bytes × Bytes

-- `Queue`, over the state `St` of the implementation.
pub record Queue (St : Type 0) : Type 0 where
  pub enqueue : Bytes → Bytes → St → Result StateError Unit × St
  pub pop : ℤ → St → Result StateError (List Job)
  pub ack : Bytes → St → Result StateError Unit × St
  pub depth : St → ℕ

-- What a client relies on: a queue is a map from run ids to payloads in key order.
pub record IsQueue {St : Type 0} (q : Queue St) : Type 1 where
  pub Holds : St → List Job → Type 0
  pub enqueue_insert :
      (run_id payload : Bytes) (s : St) (jobs : List Job)
      → 0 < length run_id
      → length run_id ≤ 32768
      → length payload + 31 ≤ 2 ^ 31
      → Holds s jobs
      → let (r, s') = q.enqueue run_id payload s in
        (r ≡ ok tt) × Holds s' (insert run_id payload jobs)
  pub ack_remove :
      (run_id : Bytes) (s : St) (jobs : List Job)
      → Holds s jobs
      → let (r, s') = q.ack run_id s in (r ≡ ok tt) × Holds s' (remove run_id jobs)
  pub pop_take :
      (n : ℕ) (s : St) (jobs : List Job) → Holds s jobs → q.pop (pos n) s ≡ ok (take n jobs)
  pub depth_length : (s : St) (jobs : List Job) → Holds s jobs → q.depth s ≡ length jobs

-- `Job{RunID: j.RunID, Payload: j.Payload}`
unfoldable pub job_of : QueuedJob → Job
job_of (run_id, payload) = (run_id, payload)

-- `NewBolt` with the methods of `boltQueue`.
unfoldable pub new_bolt : {Db : Type 0} → Bolt Db → Aead → Random → Queue (Store Db)
new_bolt bolt aead rand = record {
  enqueue = λ run_id payload s. enqueue_job bolt aead rand run_id payload s;
  pop = λ n s. dequeue_jobs bolt aead n s >>= λ raw. ok (map job_of raw);
  ack = λ run_id s. ack_job bolt run_id s;
  depth = λ s. queue_depth bolt s;
}

map-job_of : (jobs : List QueuedJob) → map job_of jobs ≡ jobs
unfolding job_of
map-job_of [] = refl
map-job_of (j ∷ jobs) = ap (λ l. j ∷ l) (map-job_of jobs)

-- The queue over the store meets the interface, with working cipher, randomness and disk.
pub new_bolt-IsQueue :
    {Db : Type 0} (bolt : Bolt Db) (is_bolt : IsBolt bolt) (aead : Aead) (gcm : IsGcm aead)
    (rand : Random) (fresh : IsRandom rand) (commits : (d : Db) → bolt.commit d ≡ none)
    → IsQueue (new_bolt bolt aead rand)
unfolding new_bolt
new_bolt-IsQueue bolt is_bolt aead gcm rand fresh commits = record {
  Holds = Queued bolt is_bolt aead gcm rand fresh commits;
  enqueue_insert = enqueue_job-insert bolt is_bolt aead gcm rand fresh commits;
  ack_remove = ack_job-remove bolt is_bolt aead gcm rand fresh commits;
  pop_take = λ n s jobs holds.
      rw (dequeue_jobs-take bolt is_bolt aead gcm rand fresh commits n s jobs holds)
        (ap (λ l. ok l) (map-job_of (take n jobs)));
  depth_length = queue_depth-length bolt is_bolt aead gcm rand fresh commits;
}
