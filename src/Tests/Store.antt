-- ===== src/Tests/Store.antt =====
-- The store and the queue on a database of lists.
use backupy_agent.Prelude.{◌≡◌, refl, none, [], ◌∷◌, ◌++◌, take, ok, err, arith}
use backupy_agent.Prelude.Bytes.{Bytes, codes, ◌===◌}
use backupy_agent.Prelude.Int.{pos}
use backupy_agent.Bolt.{insert, remove, bkt_config, bkt_registry, bkt_queue, bkt_logs}
use backupy_agent.State.Envelope.{cipher_failed}
use backupy_agent.State.Store.{
  Store, enqueue_job, ack_job, dequeue_jobs, save_config, load_config, save_session, load_session,
  buffer_log, record_heartbeat, key_config_current, key_config_version, key_session_id,
  key_server_time, key_heartbeat, uint64_of,
}
use backupy_agent.State.Store.Jobs.{
  Queued, open_all, enqueue_job-insert, ack_job-remove, dequeue_jobs-take,
}
use backupy_agent.State.Store.Saving.{
  Atomic, Sealed, load_config-save_config, load_session-save_session, operations-Atomic,
}
use backupy_agent.State.Store.Commits.{Wrote}
use backupy_agent.Prelude.Words.{put_uint64}
use backupy_agent.Tests.Toy.{toy, toy_of, toy_of-IsGcm, toy-IsGcm, toy_random, toy_random-IsRandom}
use backupy_agent.Tests.ToyBolt.{ToyDb, toy_bolt, toy_bolt-IsBolt, toy_commits, empty_store}

empty_queue :
    Queued toy_bolt toy_bolt-IsBolt toy toy-IsGcm toy_random toy_random-IsRandom toy_commits
      empty_store []
unfolding Queued open_all
empty_queue = refl

-- A store with one job.
abbrev one_job_store : Store ToyDb
one_job_store = (enqueue_job toy_bolt toy toy_random (codes "run") (5 ∷ []) empty_store).1

enqueue_job-insert_example :
    let (r, s') = enqueue_job toy_bolt toy toy_random (codes "run") (5 ∷ []) empty_store in
    (r ≡ ok tt)
    × Queued toy_bolt toy_bolt-IsBolt toy toy-IsGcm toy_random toy_random-IsRandom toy_commits s'
        (insert (codes "run") (5 ∷ []) [])
enqueue_job-insert_example =
    enqueue_job-insert toy_bolt toy_bolt-IsBolt toy toy-IsGcm toy_random toy_random-IsRandom
      toy_commits (codes "run") (5 ∷ []) empty_store [] (omega arith) (omega arith) (omega arith)
      empty_queue

one_job :
    Queued toy_bolt toy_bolt-IsBolt toy toy-IsGcm toy_random toy_random-IsRandom toy_commits
      one_job_store
      (insert (codes "run") (5 ∷ []) [])
one_job =
    (enqueue_job-insert toy_bolt toy_bolt-IsBolt toy toy-IsGcm toy_random toy_random-IsRandom
      toy_commits (codes "run") (5 ∷ []) empty_store [] (omega arith) (omega arith) (omega arith)
      empty_queue).1

ack_job-remove_example :
    let (r, s') = ack_job toy_bolt (codes "run") one_job_store in
    (r ≡ ok tt)
    × Queued toy_bolt toy_bolt-IsBolt toy toy-IsGcm toy_random toy_random-IsRandom toy_commits s'
        (remove (codes "run") (insert (codes "run") (5 ∷ []) []))
ack_job-remove_example =
    ack_job-remove toy_bolt toy_bolt-IsBolt toy toy-IsGcm toy_random toy_random-IsRandom toy_commits
      (codes "run") one_job_store (insert (codes "run") (5 ∷ []) []) one_job

dequeue_jobs-take_example :
    dequeue_jobs toy_bolt toy (pos 4) one_job_store ≡ ok (take 4 (insert (codes "run") (5 ∷ []) []))
dequeue_jobs-take_example =
    dequeue_jobs-take toy_bolt toy_bolt-IsBolt toy toy-IsGcm toy_random toy_random-IsRandom
      toy_commits 4 one_job_store (insert (codes "run") (5 ∷ []) []) one_job

load_config-save_config_example :
    let (r, s') = save_config toy_bolt toy toy_random 7 (1 ∷ 2 ∷ []) empty_store in
    (r ≡ ok tt) × (load_config toy_bolt toy s' ≡ ok (7, 1 ∷ 2 ∷ []))
load_config-save_config_example =
    load_config-save_config toy_bolt toy_bolt-IsBolt toy toy-IsGcm toy_random toy_random-IsRandom
      toy_commits 7 (1 ∷ 2 ∷ []) empty_store (omega arith) (omega arith)

-- The cipher of another key.
shut_opens : (nonce : Bytes) → (toy_of 8).open_sealed nonce (toy.seal nonce (codes "sid")) ≡ none
unfolding ◌===◌
shut_opens nonce = refl

load_session-save_session_example :
    let (r, s') = save_session toy_bolt toy toy_random (codes "sid") (pos 9) empty_store in
    (r ≡ ok tt)
    × (load_session toy_bolt toy s' ≡ ok (codes "sid"))
    × (load_session toy_bolt (toy_of 8) s' ≡ err cipher_failed)
load_session-save_session_example =
    load_session-save_session toy_bolt toy_bolt-IsBolt toy toy-IsGcm toy_random toy_random-IsRandom
      toy_commits (codes "sid") (pos 9) empty_store (toy_of 8) (omega arith) (toy_of-IsGcm 8)
      shut_opens

operations-Atomic_example :
    let s = empty_store in
    let config = save_config toy_bolt toy toy_random 7 (3 ∷ []) s in
    let session = save_session toy_bolt toy toy_random (3 ∷ []) (pos 9) s in
    let job = enqueue_job toy_bolt toy toy_random [] (3 ∷ []) s in
    let log = buffer_log toy_bolt toy toy_random (pos 9) (3 ∷ []) s in
    let acked = ack_job toy_bolt [] s in
    let beat = record_heartbeat toy_bolt (pos 9) s in
    Atomic s config (
      Sealed toy_bolt toy_bolt-IsBolt toy toy_random s
        (3 ∷ [])
        config.1
        bkt_config
        (λ enc. insert key_config_version (put_uint64 7) (insert key_config_current enc [])))
    × Atomic s session (
        Sealed toy_bolt toy_bolt-IsBolt toy toy_random s (3 ∷ []) session.1 bkt_registry (λ enc.
          insert key_server_time (put_uint64 (uint64_of (pos 9))) (insert key_session_id enc [])))
    × Atomic s job (
        Sealed toy_bolt toy_bolt-IsBolt toy toy_random s
          (3 ∷ [])
          job.1
          bkt_queue
          (λ enc. insert [] enc []))
    × Atomic s log (
        Sealed toy_bolt toy_bolt-IsBolt toy toy_random s
          (3 ∷ [])
          log.1
          bkt_logs
          (λ enc. insert (put_uint64 (uint64_of (pos 9)) ++ put_uint64 1) enc []))
    × Atomic s acked (Wrote toy_bolt toy_bolt-IsBolt s.db bkt_queue (remove [] []) acked.1.db)
    × Atomic s beat (
        Wrote toy_bolt toy_bolt-IsBolt s.db bkt_registry
          (insert key_heartbeat (put_uint64 (uint64_of (pos 9))) [])
          beat.1.db)
operations-Atomic_example =
    operations-Atomic toy_bolt toy_bolt-IsBolt toy toy_random empty_store 7 (pos 9) [] (3 ∷ [])
