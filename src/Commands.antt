-- ===== src/Commands.antt =====
-- The commands dump-state and health-check of apps/agent/cmd/agent (dumpstate.go, healthcheck.go).
-- Paths, bbolt and encoding/json are parameters.
pub mod Hiding
use backupy_agent.Prelude.{
  ℕ, ◌≡◌, Bool, true, false, Option, List, [], ◌∷◌, map, if◌then◌else◌, Result, ok, err, ◌>>=◌,
  map_err,
}
use backupy_agent.Prelude.Bytes.{Bytes, codes}
use backupy_agent.Prelude.Int.{ℤ, pos}
use backupy_agent.Io.{Fault}
use backupy_agent.Cipher.{Aead}
use backupy_agent.Bolt.{Bolt}
use backupy_agent.Config.{Settings, Surroundings, ConfigError, load}
use backupy_agent.State.Envelope.{StateError}
use backupy_agent.State.Store.{
  Store, QueuedJob, open_store, load_config, load_session, last_heartbeat, queue_depth,
  dequeue_jobs,
}

-- `stateDump`, without `Meta`, which is never set; a job is its run id and its payload in
-- hexadecimal.
pub record StateDump : Type 0 where
  pub path : Bytes
  pub session_id : Bytes
  pub config_version : ℕ
  pub config_bytes : Bytes
  pub queue_depth : ℕ
  pub queue : List (Bytes × Bytes)
  pub last_heartbeat : ℤ
  pub note : Bytes

pub data CommandError : Type 0 where
  bad_config : ConfigError → CommandError
  bad_state : StateError → CommandError
  encode_failed : Fault → CommandError

-- What the commands meet: `state_db_path` is `filepath.Join(dir, "state.db")`.
pub record Host (Db : Type 0) : Type 0 where
  pub surroundings : Surroundings
  pub state_db_path : Bytes → Bytes
  pub hkdf : Bytes → Option Bytes
  pub gcm : Bytes → Aead
  pub open_db : Bytes → Result Fault Db
  pub hex : Bytes → Bytes
  pub encode : StateDump → Result Fault Bytes

unfoldable pub or_else : {A : Type 0} → A → Result StateError A → A
or_else a (err e) = a
or_else a (ok b) = b

abbrev pub omitted : Bytes
omitted = codes "config bytes omitted; re-run with --allow-secrets to include"

-- The version, the bytes and the note that `LoadConfig` leaves.
unfoldable pub shown_config :
    (Bytes → Bytes) → Bool → Result StateError (ℕ × Bytes) → ℕ × (Bytes × Bytes)
shown_config hex allow_secrets (err e) = (0, ([], []))
shown_config hex allow_secrets (ok (v, raw)) =
    (v, if allow_secrets then (hex raw, []) else ([], omitted))

unfoldable pub shown_queue : (Bytes → Bytes) → List QueuedJob → List (Bytes × Bytes)
shown_queue hex jobs = map (λ (j : QueuedJob). (j.0, hex j.1)) jobs

module _ {Db : Type 0} (bolt : Bolt Db) (h : Host Db) where
  -- The reads of dump-state: a part that fails to load stays empty.
  unfoldable pub collect : Bool → Bytes → Aead → Store Db → StateDump
  unfolding or_else
  collect allow_secrets path aead s =
      let (version, (bytes, note)) = shown_config h.hex allow_secrets (load_config bolt aead s) in
      record {
        path = path;
        session_id = or_else [] (load_session bolt aead s);
        config_version = version;
        config_bytes = bytes;
        queue_depth = queue_depth bolt s;
        queue =
            if allow_secrets
            then shown_queue h.hex (or_else [] (dequeue_jobs bolt aead (pos 100) s))
            else [];
        last_heartbeat = last_heartbeat bolt s;
        note = note;
      }

  unfoldable pub open_state : Settings → Result CommandError (Aead × Store Db)
  open_state c =
      map_err bad_state
        (open_store bolt h.hkdf h.gcm h.open_db (h.state_db_path c.state_dir) c.agent_key)

  -- `RunE` of dump-state: what it prints.
  unfoldable pub dump_state : Bool → Result CommandError Bytes
  dump_state allow_secrets = map_err bad_config (load h.surroundings) >>= λ c. open_state c >>= λ r.
      map_err encode_failed (h.encode (collect allow_secrets (h.state_db_path c.state_dir) r.0 r.1))

  -- `RunE` of health-check: `ok` is printed, or the process exits with 1.
  unfoldable pub health_check : Result CommandError Bytes
  health_check =
      map_err bad_config (load h.surroundings) >>= λ c. open_state c >>= λ r. ok (codes "ok")
