-- ===== src/Tests/Commands.antt =====
-- The commands on two databases with different secrets, and the connection gauge.
use backupy_agent.Prelude.{◌≡◌, refl, false, some, [], ◌∷◌, Result, ok}
use backupy_agent.Prelude.Bytes.{Bytes, codes, ◌===◌, is_empty}
use backupy_agent.Prelude.Maps.{find_key}
use backupy_agent.Prelude.Words.{put_uint64, uint64}
use backupy_agent.Bolt.{lookup, insert, before, ◌=ᵇ◌}
use backupy_agent.Io.{Fault}
use backupy_agent.State.Envelope.{derive_state_key, open_value, seal_value, open_body}
use backupy_agent.State.Store.{
  Store, save_config, enqueue_job, open_store, has_ext, ensure_buckets, load_config, update,
  create_each, put_entry, with_sealed, bytes_to_u64, load_session, last_heartbeat, queue_depth,
}
use backupy_agent.Commands.{Host, open_state, dump_state}
use backupy_agent.Commands.Hiding.{SameOutside, dump_state_blind}
use backupy_agent.Metrics.{set_wss_states, set_wss_states-shown, shown}
use backupy_agent.Tests.Toy.{toy, toy_random}
use backupy_agent.Tests.ToyBolt.{ToyDb, toy_bolt, empty_store}
use backupy_agent.Tests.Config.{settings, surroundings, loads}

-- A store with a config and a job.
abbrev store_of : Bytes → Bytes → Store ToyDb
store_of raw payload =
    (enqueue_job toy_bolt toy toy_random (codes "run") payload
      (save_config toy_bolt toy toy_random 7 raw empty_store).1).1

abbrev one_db : ToyDb
one_db = (store_of (1 ∷ 2 ∷ []) (5 ∷ [])).db

abbrev other_db : ToyDb
other_db = (store_of (9 ∷ []) (6 ∷ 7 ∷ [])).db

abbrev opens_other : Bytes → Result Fault ToyDb
opens_other path = ok other_db

abbrev host : Host ToyDb
host = record {
  surroundings = surroundings;
  state_db_path = λ dir. dir;
  hkdf = λ key. some key;
  gcm = λ key. toy;
  open_db = λ path. ok one_db;
  hex = λ b. b;
  encode = λ d. ok d.config_bytes;
}

opens : open_state toy_bolt host settings ≡ ok (toy, record { db = one_db; draws = 0 })
unfolding open_state open_store derive_state_key is_empty has_ext ensure_buckets update create_each
opens = refl

opens' :
    open_state toy_bolt (record host { open_db = opens_other }) settings
    ≡ ok (toy, record { db = other_db; draws = 0 })
unfolding open_state open_store derive_state_key is_empty has_ext ensure_buckets update create_each
opens' = refl

same_outside :
    SameOutside toy_bolt toy toy
      (record { db = one_db; draws = 0 })
      (record { db = other_db; draws = 0 })
unfolding save_config enqueue_job with_sealed seal_value update put_entry load_config open_value
    open_body bytes_to_u64 put_uint64 uint64 lookup insert before ◌=ᵇ◌ ◌===◌ is_empty load_session
    last_heartbeat queue_depth
same_outside = record {
  version = 7;
  raw = 1 ∷ 2 ∷ [];
  raw' = 9 ∷ [];
  loads = refl;
  loads' = refl;
  session = refl;
  heartbeat = refl;
  depth = refl;
}

dump_state_blind_example :
    dump_state toy_bolt host false
    ≡ dump_state toy_bolt (record host { open_db = opens_other }) false
dump_state_blind_example =
    dump_state_blind toy_bolt host opens_other loads opens opens' same_outside

-- A state without a gauge of its own stays at 1.
set_wss_states-shown_example :
    find_key (codes "lost") (set_wss_states (codes "lost" ∷ codes "connected" ∷ []) [])
    ≡ shown (codes "lost") (codes "connected" ∷ []) (codes "lost") (find_key (codes "lost") [])
set_wss_states-shown_example =
    set_wss_states-shown (codes "lost") (codes "connected" ∷ []) [] (codes "lost")
