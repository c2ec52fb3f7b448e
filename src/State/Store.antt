-- ===== src/State/Store.antt =====
-- apps/agent/internal/state/state.go: the encrypted store of the agent. Its functions take the
-- database, the cipher and the random source, and pass the store on.
pub mod Steps
pub mod Commits
pub mod Saving
pub mod Jobs
use backupy_agent.Prelude.{
  ℕ, zero, suc, ◌+◌, ◌-◌, ◌%◌, ◌^◌, ◌≤◌, ◌<◌, ◌≡◌, Bool, true, false, Option, none, some, List, [],
  ◌∷◌, ◌++◌, map, length, take, ltb, ◌==◌, if◌then◌else◌, Result, ok, err, ◌>>=◌, map_err,
}
use backupy_agent.Prelude.Bytes.{Bytes, is_empty, codes}
use backupy_agent.Prelude.Words.{put_uint64, uint64}
use backupy_agent.Prelude.Int.{ℤ, pos, negsuc}
use backupy_agent.Io.{Fault}
use backupy_agent.Cipher.{Aead, Random}
use backupy_agent.Bolt.{Bucket, bkt_config, bkt_queue, bkt_registry, bkt_logs, Entries, Bolt}
use backupy_agent.State.Envelope.{
  StateError, not_found, empty_path, empty_run_id, database, seal_value, open_value,
  derive_state_key,
}

abbrev pub key_config_current : Bytes
key_config_current = codes "current"

abbrev pub key_config_version : Bytes
key_config_version = codes "version"

abbrev pub key_session_id : Bytes
key_session_id = codes "session_id"

abbrev pub key_server_time : Bytes
key_server_time = codes "server_time_ms"

abbrev pub key_heartbeat : Bytes
key_heartbeat = codes "last_heartbeat_ms"

-- `uint64(n)` of an int64 and `int64(n)` of a uint64.
unfoldable pub uint64_of : ℤ → ℕ
uint64_of (pos n) = n % 2 ^ 64
uint64_of (negsuc n) = 2 ^ 64 - 1 - n % 2 ^ 64

unfoldable pub int64_of : ℕ → ℤ
int64_of n = if ltb n (2 ^ 63) then pos n else negsuc (2 ^ 64 - 1 - n)

-- `u64Bytes` is `put_uint64`.
unfoldable pub bytes_to_u64 : Bytes → ℕ
bytes_to_u64 b = if length b == 8 then uint64 b else 0

-- `RunID` and `Payload`
abbrev pub QueuedJob : Type 0
QueuedJob = Bytes × Bytes

-- `Store`, with the number of random draws made.
pub record Store (Db : Type 0) : Type 0 where
  pub db : Db
  pub draws : ℕ

-- `filepath.Ext(path) != ""`: a dot behind the last slash.
unfoldable pub has_ext : Bool → Bytes → Bool
has_ext dot [] = dot
has_ext dot (c ∷ cs) =
    if c == 47 then has_ext false cs else (if c == 46 then has_ext true cs else has_ext dot cs)

-- The loops over a cursor: the first `n` entries, opened.
unfoldable pub open_first : Aead → ℕ → Entries → Result StateError (List QueuedJob)
open_first aead zero es = ok []
open_first aead (suc n) [] = ok []
open_first aead (suc n) ((k, v) ∷ es) =
    open_value aead v >>= λ pt. open_first aead n es >>= λ rest. ok ((k, pt) ∷ rest)

module _ {Db : Type 0} (bolt : Bolt Db) where
  -- `db.Update`: the transaction is rolled back on an error of the body and of the commit.
  unfoldable pub update :
      {A : Type 0} → (Db → Result StateError (A × Db)) → Store Db → Result StateError A × Store Db
  update body s = elim (body s.db) [
    | err e ↦ (err e, s)
    | ok (a, d) ↦ elim (bolt.commit d) [
      | some f ↦ (err (database f), s)
      | none ↦ (ok a, record s { db = d })
    ]
  ]

  unfoldable pub put_entry : Bucket → Bytes → Bytes → Db → Result StateError (Unit × Db)
  put_entry b k v d = map_err database (bolt.put d b k v) >>= λ d'. ok (tt, d')

  unfoldable pub create_each : List Bucket → Db → Result StateError (Unit × Db)
  create_each [] d = ok (tt, d)
  create_each (b ∷ bs) d = map_err database (bolt.create_bucket d b) >>= λ d'. create_each bs d'

  -- `ensureBuckets`
  unfoldable pub ensure_buckets : Store Db → Result StateError Unit × Store Db
  ensure_buckets s = update (create_each (bkt_config ∷ bkt_queue ∷ bkt_registry ∷ bkt_logs ∷ [])) s

  -- `Open`: `open_db` is `bolt.Open`, `gcm` makes the cipher of a key.
  unfoldable pub open_store :
      (Bytes → Option Bytes)
      → (Bytes → Aead)
      → (Bytes → Result Fault Db)
      → Bytes
      → Bytes
      → Result StateError (Aead × Store Db)
  open_store hkdf gcm open_db path agent_key =
      if is_empty path
      then err empty_path
      else derive_state_key hkdf agent_key >>= λ key.
          map_err database (open_db (if has_ext false path then path else path ++ codes ".db"))
          >>= λ d.
              let (made, s) = ensure_buckets (record { db = d; draws = 0 }) in
              made >>= λ u. ok (gcm key, s)

  -- `QueueDepth`
  unfoldable pub queue_depth : Store Db → ℕ
  queue_depth s = bolt.key_n s.db bkt_queue

  -- `AckJob`
  unfoldable pub ack_job : Bytes → Store Db → Result StateError Unit × Store Db
  ack_job run_id s =
      update (λ d. map_err database (bolt.delete d bkt_queue run_id) >>= λ d'. ok (tt, d')) s

  -- `RecordHeartbeat`, `LastHeartbeat`
  unfoldable pub record_heartbeat : ℤ → Store Db → Result StateError Unit × Store Db
  record_heartbeat ts s =
      update (put_entry bkt_registry key_heartbeat (put_uint64 (uint64_of ts))) s

  unfoldable pub last_heartbeat : Store Db → ℤ
  last_heartbeat s = elim (bolt.get s.db bkt_registry key_heartbeat) [
    | none ↦ pos 0
    | some v ↦ int64_of (bytes_to_u64 v)
  ]

  unfoldable pub delete_each : List Bytes → Db → Result StateError Db
  delete_each [] d = ok d
  delete_each (k ∷ ks) d = map_err database (bolt.delete d bkt_logs k) >>= λ d'. delete_each ks d'

  module _ (aead : Aead) (rand : Random) where
    -- `enc, err := seal(s.aead, raw)` before a transaction.
    unfoldable pub with_sealed :
        {A : Type 0}
        → Bytes
        → (Bytes → Store Db → Result StateError A × Store Db)
        → Store Db
        → Result StateError A × Store Db
    with_sealed raw next s =
        let s' = record s { draws = suc s.draws } in
        elim (seal_value aead rand s.draws raw) [ err e ↦ (err e, s') | ok enc ↦ next enc s' ]

    -- `SaveConfig`
    unfoldable pub save_config : ℕ → Bytes → Store Db → Result StateError Unit × Store Db
    save_config version raw s =
        with_sealed raw
          (λ enc. update (λ d. put_entry bkt_config key_config_current enc d >>= λ r.
            put_entry bkt_config key_config_version (put_uint64 version) r.1))
          s

    -- `EnqueueJob`
    unfoldable pub enqueue_job : Bytes → Bytes → Store Db → Result StateError Unit × Store Db
    enqueue_job run_id payload s =
        if is_empty run_id
        then (err empty_run_id, s)
        else with_sealed payload (λ enc. update (put_entry bkt_queue run_id enc)) s

    -- `SaveSession`
    unfoldable pub save_session : Bytes → ℤ → Store Db → Result StateError Unit × Store Db
    save_session session_id server_time s =
        with_sealed session_id
          (λ enc. update (λ d. put_entry bkt_registry key_session_id enc d >>= λ r.
            put_entry bkt_registry key_server_time (put_uint64 (uint64_of server_time)) r.1))
          s

    -- `BufferLog`
    unfoldable pub buffer_log : ℤ → Bytes → Store Db → Result StateError Unit × Store Db
    buffer_log ts payload s =
        with_sealed payload
          (λ enc. update (λ d.
            let (seq, d') = bolt.next_sequence d bkt_logs in
            put_entry bkt_logs (put_uint64 (uint64_of ts) ++ put_uint64 seq) enc d'))
          s

  module _ (aead : Aead) where
    -- `LoadConfig`
    unfoldable pub load_config : Store Db → Result StateError (ℕ × Bytes)
    load_config s = elim (bolt.get s.db bkt_config key_config_current) [
      | none ↦ err not_found
      | some v ↦ open_value aead v >>= λ raw. ok (
        elim (bolt.get s.db bkt_config key_config_version) [ none ↦ 0 | some vb ↦ bytes_to_u64 vb ],
        raw,
      )
    ]

    -- `LoadSession`
    unfoldable pub load_session : Store Db → Result StateError Bytes
    load_session s = elim (bolt.get s.db bkt_registry key_session_id) [
      | none ↦ err not_found
      | some v ↦ open_value aead v
    ]

    -- `DequeueJobs`
    unfoldable pub dequeue_jobs : ℤ → Store Db → Result StateError (List QueuedJob)
    dequeue_jobs (negsuc n) s = ok []
    dequeue_jobs (pos n) s = open_first aead n (bolt.cursor s.db bkt_queue)

    -- `DrainLogs`
    unfoldable pub drain_logs : ℤ → Store Db → Result StateError (List Bytes) × Store Db
    drain_logs (negsuc n) s = (ok [], s)
    drain_logs (pos zero) s = (ok [], s)
    drain_logs (pos (suc n)) s =
        update
          (λ d. open_first aead (suc n) (bolt.cursor d bkt_logs) >>= λ out.
            delete_each (map (λ (e : QueuedJob). e.0) out) d >>= λ d'.
            ok (map (λ (e : QueuedJob). e.1) out, d'))
          s
