-- ===== src/State/Store/Jobs.antt =====
-- The queue of the store as a map from run ids to payloads.
use backupy_agent.Prelude.{
  ℕ, zero, suc, ◌+◌, ◌^◌, ◌≤◌, ◌<◌, ◌≡◌, refl, sym, ◌∙◌, ap, false, inl, inr, none, List, [], ◌∷◌,
  ◌++◌, length, take, Result, ok, ◌>>=◌, Result-cases, arith, length-append,
}
use backupy_agent.Prelude.Bytes.{Bytes, is_empty}
use backupy_agent.Prelude.Int.{pos}
use backupy_agent.Cipher.{Aead, IsGcm, Random, IsRandom}
use backupy_agent.Bolt.{bkt_queue, Entries, Bolt, IsBolt, insert, remove, Bucket-refl}
use backupy_agent.State.Envelope.{
  StateError, state_env_version, open_value, open_value-seal_value, seal_value_ok,
}
use backupy_agent.State.Store.{
  QueuedJob, Store, update, put_entry, enqueue_job, ack_job, open_first, dequeue_jobs, queue_depth,
}
use backupy_agent.State.Store.Steps.{update_ok, put_entry_ok, with_sealed_ok}

is_empty_no : (b : Bytes) → 0 < length b → is_empty b ≡ false
is_empty_no [] h = absurd (omega arith)
is_empty_no (x ∷ xs) h = refl

module _ (aead : Aead) where
  -- Every entry opened.
  unfoldable pub open_all : Entries → Result StateError (List QueuedJob)
  open_all [] = ok []
  open_all ((k, v) ∷ es) = open_value aead v >>= λ pt. open_all es >>= λ rest. ok ((k, pt) ∷ rest)

  open_all_inv :
      (k v : Bytes) (es : Entries) {jobs : List QueuedJob}
      → open_all ((k, v) ∷ es) ≡ ok jobs
      → (pt : Bytes) × (rest : List QueuedJob) × (open_value aead v ≡ ok pt)
        × (open_all es ≡ ok rest)
        × (jobs ≡ (k, pt) ∷ rest)
  unfolding open_all
  open_all_inv k v es {jobs} h = elim (Result-cases (open_value aead v)) [
    | inr (e, bad) ↦ absurd (ground arith)
    | inl (pt, good) ↦ elim (Result-cases (open_all es)) [
      | inr (e, bad) ↦ absurd (ground arith)
      | inl (rest, opened) ↦ (pt, rest, good, opened, ground arith)
    ]
  ]

  length-open_all :
      (es : Entries) {jobs : List QueuedJob} → open_all es ≡ ok jobs → length jobs ≡ length es
  unfolding open_all
  length-open_all [] h = ground arith
  length-open_all ((k, v) ∷ es) {jobs} h =
      let (pt, rest, good, opened, at) = open_all_inv k v es h in
      ap (λ (l : List QueuedJob). length l) at ∙ omega (arith, length-open_all es opened)

  open_first-take :
      (n : ℕ) (es : Entries) {jobs : List QueuedJob}
      → open_all es ≡ ok jobs
      → open_first aead n es ≡ ok (take n jobs)
  unfolding open_first open_all
  open_first-take zero es h = refl
  open_first-take (suc n) [] h = ground arith
  open_first-take (suc n) ((k, v) ∷ es) {jobs} h =
      let (pt, rest, good, opened, at) = open_all_inv k v es h in
      rw (at, good, open_first-take n es opened)

  open_all-insert :
      (k v pt : Bytes) (es : Entries) {jobs : List QueuedJob}
      → open_value aead v ≡ ok pt
      → open_all es ≡ ok jobs
      → open_all (insert k v es) ≡ ok (insert k pt jobs)
  unfolding open_all insert
  open_all-insert k v pt [] good h = ground arith
  open_all-insert k v pt ((j, w) ∷ es) {jobs} good h =
      let (qt, rest, fine, opened, at) = open_all_inv j w es h in
      ground (arith, open_all-insert k v pt es good opened)

  open_all-remove :
      (k : Bytes) (es : Entries) {jobs : List QueuedJob}
      → open_all es ≡ ok jobs
      → open_all (remove k es) ≡ ok (remove k jobs)
  unfolding open_all remove
  open_all-remove k [] h = ground arith
  open_all-remove k ((j, w) ∷ es) {jobs} h =
      let (qt, rest, fine, opened, at) = open_all_inv j w es h in
      ground (arith, open_all-remove k es opened)

module _ {Db : Type 0} (bolt : Bolt Db) (is_bolt : IsBolt bolt) (aead : Aead) (gcm : IsGcm aead)
    (rand : Random) (fresh : IsRandom rand) (commits : (d : Db) → bolt.commit d ≡ none) where
  -- The jobs of a store, by run id in key order.
  unfoldable pub Queued : Store Db → List QueuedJob → Type 0
  Queued s jobs = open_all aead (bolt.cursor s.db bkt_queue) ≡ ok jobs

  -- What is enqueued under a run id that bbolt takes as a key is in the queue, in the place of what
  -- that run id had, and all other jobs stay.
  pub enqueue_job-insert :
      (run_id payload : Bytes) (s : Store Db) (jobs : List QueuedJob)
      → 0 < length run_id
      → length run_id ≤ 32768
      → length payload + 31 ≤ 2 ^ 31
      → Queued s jobs
      → let (r, s') = enqueue_job bolt aead rand run_id payload s in
        (r ≡ ok tt) × Queued s' (insert run_id payload jobs)
  unfolding enqueue_job Queued
  enqueue_job-insert run_id payload s jobs some_id short fits holds =
      let nonce = fresh.draw s.draws in
      let v = state_env_version ∷ (nonce ++ aead.seal nonce payload) in
      let sealed = seal_value_ok aead gcm rand fresh s.draws payload in
      let opened = open_value-seal_value aead gcm rand fresh s.draws payload sealed in
      let size : length v + 2 ≤ 2 ^ 31 = omega (
        arith,
        length-append nonce (aead.seal nonce payload),
        gcm.sealed_length nonce payload,
        fresh.draw_length s.draws,
      ) in
      let id : is_empty run_id ≡ false = is_empty_no run_id some_id in
      let (d', done) = is_bolt.puts s.db bkt_queue run_id v some_id short size in
      let now = is_bolt.cursor_put s.db bkt_queue run_id v bkt_queue done in
      let body = put_entry_ok bolt bkt_queue run_id v s.db done in
      rw
        (
          id,
          with_sealed_ok bolt aead rand payload _ s sealed,
          update_ok bolt (put_entry bolt bkt_queue run_id v) (record s { draws = suc s.draws }) body
              (commits d'),
          now,
          Bucket-refl bkt_queue,
        )
        (refl, open_all-insert aead run_id v payload (bolt.cursor s.db bkt_queue) opened holds)

  -- An acknowledged job is gone and all others stay, also if there was no job of that run id.
  pub ack_job-remove :
      (run_id : Bytes) (s : Store Db) (jobs : List QueuedJob)
      → Queued s jobs
      → let (r, s') = ack_job bolt run_id s in (r ≡ ok tt) × Queued s' (remove run_id jobs)
  unfolding ack_job update Queued
  ack_job-remove run_id s jobs holds =
      let (d', done) = is_bolt.deletes s.db bkt_queue run_id in
      let now = is_bolt.cursor_delete s.db bkt_queue run_id bkt_queue done in
      rw (ack_job, update, done, commits d', now, Bucket-refl bkt_queue)
        (refl, open_all-remove aead run_id (bolt.cursor s.db bkt_queue) holds)

  -- A read gives the first jobs in key order.
  pub dequeue_jobs-take :
      (n : ℕ) (s : Store Db) (jobs : List QueuedJob)
      → Queued s jobs
      → dequeue_jobs bolt aead (pos n) s ≡ ok (take n jobs)
  unfolding dequeue_jobs Queued
  dequeue_jobs-take n s jobs holds = open_first-take aead n (bolt.cursor s.db bkt_queue) holds

  -- The depth is the number of jobs.
  pub queue_depth-length :
      (s : Store Db) (jobs : List QueuedJob) → Queued s jobs → queue_depth bolt s ≡ length jobs
  unfolding queue_depth Queued
  queue_depth-length s jobs holds =
      is_bolt.key_n_cursor s.db bkt_queue
      ∙ sym (length-open_all aead (bolt.cursor s.db bkt_queue) holds)
