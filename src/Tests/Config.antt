-- ===== src/Tests/Config.antt =====
-- A configuration, and the report of a run.
use backupy_agent.Prelude.{
  ◌<◌, List, length, ◌≡◌, ◌⊎◌, refl, true, false, none, some, [], ◌∷◌, ok, err, arith,
}
use backupy_agent.Prelude.Bytes.{codes, ◌===◌}
use backupy_agent.Prelude.Strings.{has_prefix}
use backupy_agent.Wss.Url.{Url, build_ws_url, has_suffix, endpoint}
use backupy_agent.Wss.Messages.{Envelope, other}
use backupy_agent.Wss.Client.{stamp, numbered, disconnect, out_capacity}
use backupy_agent.Wss.Client.Sending.{Kept}
use backupy_agent.Config.{
  Settings, Surroundings, load, validate, validate_server_url, check_scheme, check_agent_key,
  matches_agent_key, is_tagged, all_of, validate_state_dir_writable,
}
use backupy_agent.Config.Connecting.{parsed, IsSocket, build_ws_url-load}
use backupy_agent.Pipeline.Request.{BackupCompleted, RunError}
use backupy_agent.Pipeline.Runner.{run}
use backupy_agent.Agent.Reporting.{
  Bodies, JobUpdate, failed, report_of, on_run_backup, on_run_backup-Kept,
}
use backupy_agent.Tests.Runs.{a_world, a_request}
use backupy_agent.Tests.Connection.{toy_queue, toy_queue-IsQueue, toy_wiring, offline}

abbrev pub settings : Settings
settings = record {
  server_url = codes "https://api.backupy.ru";
  agent_key = codes "bkpy_test_0123456789abcdefABCDEF0123456789";
  state_dir = codes "/var/lib/backup-agent";
  dev_allow_insecure = false;
}

abbrev pub surroundings : Surroundings
surroundings = record {
  parse_environment = ok settings;
  url_parse =
      λ raw. ok (record { scheme = codes "https"; path = []; rest = codes "api.backupy.ru" });
  host_of = λ u. u.rest;
  mkdir_all = λ dir. ok tt;
  create_probe = λ dir. ok tt;
}

pub loads : load surroundings ≡ ok settings
unfolding load validate validate_server_url check_scheme check_agent_key matches_agent_key is_tagged
    all_of validate_state_dir_writable has_prefix ◌===◌
loads = refl

build_ws_url-load_example :
    (matches_agent_key settings.agent_key ≡ true)
    × ((v : Url) × (build_ws_url false (parsed surroundings settings.server_url) ≡ ok v)
        × IsSocket false v.scheme
        × (has_suffix v.path endpoint ≡ true))
build_ws_url-load_example = build_ws_url-load surroundings settings loads

abbrev bodies : Bodies
bodies = record { completed = λ r. r.run_id; updated = λ u. u.run_id; error_text = λ e. [] }

on_run_backup-Kept_example :
    let result = (run a_world (2 ∷ 0 ∷ []) (some a_request)).0 in
    let env = report_of bodies 8 a_request result in
    Kept toy_wiring toy_queue toy_queue-IsQueue
      (stamp 8 (numbered env offline).0)
      (1 ∷ [])
      []
      none
      (on_run_backup a_world toy_wiring bodies (2 ∷ 0 ∷ []) 8 a_request offline).0
    × (((done : BackupCompleted) × (result ≡ ok done)
          × (env.payload ≡ some (other (bodies.completed done))))
        ⊎ ((e : RunError) × (result ≡ err e)
            × (u : JobUpdate) × (env.payload ≡ some (other (bodies.updated u)))
            × (u.job_id ≡ a_request.job_id)
            × (u.run_id ≡ a_request.run_id)
            × (u.status ≡ failed)
            × (u.error_message ≡ bodies.error_text e)))
    × ((out : List Envelope)
        → offline.out ≡ some out
        → length out < out_capacity
        → disconnect (on_run_backup a_world toy_wiring bodies (2 ∷ 0 ∷ []) 8 a_request offline).0
          ≡ disconnect (numbered env offline).1)
on_run_backup-Kept_example =
    on_run_backup-Kept a_world toy_wiring toy_queue toy_queue-IsQueue bodies (2 ∷ 0 ∷ []) 8
      a_request (1 ∷ []) offline [] refl refl (omega arith) refl
