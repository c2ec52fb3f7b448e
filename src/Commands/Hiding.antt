-- ===== src/Commands/Hiding.antt =====
-- What dump-state prints without --allow-secrets.
use backupy_agent.Prelude.{ℕ, ◌≡◌, refl, sym, ◌∙◌, ap, Bool, false, Result, ok, map_err}
use backupy_agent.Prelude.Bytes.{Bytes}
use backupy_agent.Io.{Fault}
use backupy_agent.Cipher.{Aead}
use backupy_agent.Bolt.{Bolt}
use backupy_agent.Config.{Settings, load}
use backupy_agent.State.Store.{Store, load_config, load_session, last_heartbeat, queue_depth}
use backupy_agent.Commands.{Host, shown_config, collect, open_state, dump_state, encode_failed}

-- Two stores, each under its cipher, that agree in the version of the config, the session, the
-- heartbeat and the number of jobs.
pub record SameOutside {Db : Type 0} (bolt : Bolt Db) (aead aead' : Aead) (s s' : Store Db)
    : Type 0 where
  pub version : ℕ
  pub raw : Bytes
  pub raw' : Bytes
  pub loads : load_config bolt aead s ≡ ok (version, raw)
  pub loads' : load_config bolt aead' s' ≡ ok (version, raw')
  pub session : load_session bolt aead s ≡ load_session bolt aead' s'
  pub heartbeat : last_heartbeat bolt s ≡ last_heartbeat bolt s'
  pub depth : queue_depth bolt s ≡ queue_depth bolt s'

module _ {Db : Type 0} (bolt : Bolt Db) (h : Host Db) where
  collect_blind :
      (path : Bytes) (aead aead' : Aead) (s s' : Store Db)
      → SameOutside bolt aead aead' s s'
      → collect bolt h false path aead s ≡ collect bolt h false path aead' s'
  unfolding collect shown_config
  collect_blind path aead aead' s s' same =
      rw (collect, same.loads, same.loads', same.session, same.heartbeat, same.depth) refl

  dump_state_at :
      (allow_secrets : Bool) {c : Settings} {aead : Aead} {s : Store Db}
      → load h.surroundings ≡ ok c
      → open_state bolt h c ≡ ok (aead, s)
      → dump_state bolt h allow_secrets
        ≡ map_err encode_failed
            (h.encode (collect bolt h allow_secrets (h.state_db_path c.state_dir) aead s))
  unfolding dump_state
  dump_state_at allow_secrets loaded opened = rw (dump_state, loaded, opened) refl

module _ {Db : Type 0} (bolt : Bolt Db) (h : Host Db) where
  -- Without --allow-secrets, dump-state prints the same on two hosts that differ in their database
  -- only, where each opens and has a config, and which agree in its version, the session, the
  -- heartbeat and the number of jobs: neither the config's bytes nor any payload gets into it.
  pub dump_state_blind :
      (open_db' : Bytes → Result Fault Db) {c : Settings} {aead aead' : Aead} {s s' : Store Db}
      → load h.surroundings ≡ ok c
      → open_state bolt h c ≡ ok (aead, s)
      → open_state bolt (record h { open_db = open_db' }) c ≡ ok (aead', s')
      → SameOutside bolt aead aead' s s'
      → dump_state bolt h false ≡ dump_state bolt (record h { open_db = open_db' }) false
  unfolding collect
  dump_state_blind open_db' {c} {aead} {aead'} {s} {s'} loaded opened opened' same =
      dump_state_at bolt h false loaded opened
      ∙ ap (λ d. map_err encode_failed (h.encode d))
          (collect_blind bolt h (h.state_db_path c.state_dir) aead aead' s s' same)
      ∙ sym (dump_state_at bolt (record h { open_db = open_db' }) false loaded opened')
