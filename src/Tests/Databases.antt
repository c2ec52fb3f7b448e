-- ===== src/Tests/Databases.antt =====
-- A whole run with the registered driver of PostgreSQL, and the restored dump.
use backupy_agent.Prelude.{◌≡◌, refl, none, some, [], ◌∷◌, ◌++◌, length, Option, ok, arith}
use backupy_agent.Prelude.Bytes.{Bytes, codes, ◌===◌}
use backupy_agent.Prelude.Strings.{
  contains, to_lower, trim_space, trim_left_space, trim_right_space, after, has_prefix,
}
use backupy_agent.Io.{Fault, fault, read_full, write}
use backupy_agent.Prelude.Words.{put_uint32}
use backupy_agent.Pipeline.Encrypt.{new_encryptor, stream, stream_loop, stream_round}
use backupy_agent.Pipeline.Hooks.{
  new_hook_set, run_in_set, run_hook, exec_hook, limit_timeout, classify, cap_timeout,
}
use backupy_agent.Pipeline.HookRing.{new_hook_ring_buffer, write_all, string}
use backupy_agent.Pipeline.Request.{postgresql, Target, BackupCompleted, World}
use backupy_agent.Pipeline.Stages.{
  smoke_check, is_pg_dump_magic, compress_stage, encrypt_stage, stage_encrypted_body, put,
  dump_error, is_some, take_one, keep_first, head_or_zero, receive, run_stages,
}
use backupy_agent.Pipeline.Runner.{
  db_type_key, run_pre_hooks, run_post_hooks, completed_of, run_hooked, checked_driver, resolve,
  resolve_job, resolve_target, check_connection, encryptor_of, check_creds, check_uploader, prepare,
  run,
}
use backupy_agent.Decrypt.Run.{Host, returned, run_tool}
use backupy_agent.Drivers.Command.{
  Connection, Command, DriverError, probe_version, output, run_stream, dump_with, stream_error,
  engine_of,
}
use backupy_agent.Drivers.PgDump.{
  pg_validate, pg_dump_command, pg_smoke_command, pg_conn_args, pg_env, parse_pg_dump_version,
}
use backupy_agent.Drivers.PgDump.Asking.{Asks}
use backupy_agent.Drivers.Registry.{
  registry, driver_of, dump_stream, dump_of, checked, connection_of, failure,
}
use backupy_agent.EndToEnd.{whole}
use backupy_agent.EndToEnd.Restore.{Serves, Issued}
use backupy_agent.EndToEnd.Databases.{run_tool-registry}
use backupy_agent.Tests.Toy.{tag, toy_nonce, toy-IsGcm, toy_random-IsRandom}
use backupy_agent.Tests.Runs.{a_world, a_request, a_report, a_driver, a_job}
use backupy_agent.Tests.Tool.{a_host, a_token, a_dek, a_claims, a_call, a_token_parses}
use backupy_agent.Tests.Drivers.{a_connection, a_runner}

abbrev decode : Bytes → Connection
decode raw = a_connection

abbrev fault_of : DriverError → Fault
fault_of e = fault 3

abbrev stays_open : Target → Option Fault
stays_open t = none

abbrev pg_target : Target
pg_target = record { id = codes "t"; db_type = postgresql; connection = some [] }

abbrev pg_world : World
pg_world = record a_world {
  drivers = registry a_runner decode fault_of stays_open a_driver a_driver;
  target_lookup = some (λ t. some pg_target);
}

abbrev pg_report : BackupCompleted
pg_report = record a_report { size_bytes = 42; db_engine_version = codes "PostgreSQL 16.2" }

abbrev pg_body : Bytes
pg_body = 0 ∷ 0 ∷ 0 ∷ 34 ∷ (toy_nonce 0 ++ (tag ++ (40 ∷ (codes "PGDMP" ++ (0 ∷ 0 ∷ 0 ∷ 0 ∷ [])))))

abbrev pg_host : Host
pg_host = record a_host { input = ok (whole pg_body) }

resolved : resolve pg_world a_request ≡ ok (some a_job, pg_target)
unfolding resolve resolve_job resolve_target check_connection ◌===◌
resolved = refl

pg_run_succeeds : (run pg_world (2 ∷ 0 ∷ []) (some a_request)).0 ≡ ok pg_report
unfolding run prepare check_creds check_uploader checked_driver resolve resolve_job resolve_target
    check_connection db_type_key encryptor_of new_encryptor run_hooked run_pre_hooks run_post_hooks
    run_in_set run_hook exec_hook limit_timeout classify cap_timeout new_hook_set run_stages
    compress_stage smoke_check is_pg_dump_magic encrypt_stage stage_encrypted_body put dump_error
    is_some take_one keep_first head_or_zero receive completed_of stream stream_loop stream_round
    read_full write put_uint32 ◌===◌ new_hook_ring_buffer write_all string registry driver_of
    dump_stream dump_of checked connection_of failure pg_validate pg_dump_command pg_smoke_command
    pg_conn_args pg_env parse_pg_dump_version probe_version output run_stream dump_with stream_error
    engine_of contains to_lower trim_space trim_left_space trim_right_space after has_prefix
pg_run_succeeds = refl

pg_run_makes :
    (run pg_world (2 ∷ 0 ∷ []) (some a_request)).1.puts ≡ (codes "https://s3", pg_body) ∷ []
unfolding run prepare check_creds check_uploader checked_driver resolve resolve_job resolve_target
    check_connection db_type_key encryptor_of new_encryptor run_hooked run_pre_hooks run_post_hooks
    run_in_set run_hook exec_hook limit_timeout classify cap_timeout new_hook_set run_stages
    compress_stage smoke_check is_pg_dump_magic encrypt_stage stage_encrypted_body put dump_error
    is_some take_one keep_first head_or_zero receive completed_of stream stream_loop stream_round
    read_full write put_uint32 ◌===◌ new_hook_ring_buffer write_all string registry driver_of
    dump_stream dump_of checked connection_of failure pg_validate pg_dump_command pg_smoke_command
    pg_conn_args pg_env parse_pg_dump_version probe_version output run_stream dump_with stream_error
    engine_of contains to_lower trim_space trim_left_space trim_right_space after has_prefix
pg_run_makes = refl

pg-Serves : Serves pg_world pg_body pg_host
pg-Serves = record {
  same_gcm = λ dek. refl;
  same_hash = λ b. refl;
  has_input = refl;
  has_output = refl;
  never_cancelled = refl;
  has_decoder = refl;
  closes = refl;
  unzips = λ b. refl;
}

pg-Issued : Issued pg_host a_token a_dek pg_report
pg-Issued = record {
  claims = a_claims;
  parsed = a_token_parses;
  algorithm = refl;
  version = refl;
  key = refl;
  hash = refl;
}

run_tool-registry_example :
    (cmd : Command) × Asks a_connection cmd
    × ((a_runner.run_stream (length (pg_validate a_runner (some a_connection) []).1) cmd).ends
        ≡ none)
    × (run_tool pg_host a_call ≡ record {
      outcome = returned (ok tt);
      file =
          some
            (a_runner.run_stream
              (length (pg_validate a_runner (some a_connection) []).1)
              cmd).bytes;
    })
run_tool-registry_example =
    run_tool-registry pg_world pg_host a_call a_runner decode fault_of stays_open a_driver a_driver
      toy_random-IsRandom (λ dek. toy-IsGcm) (2 ∷ 0 ∷ []) a_request pg_report a_dek
      (codes "https://s3") pg_body [] (some a_job) pg_target refl resolved refl refl (omega arith)
      (omega arith) pg_run_succeeds refl pg_run_makes pg-Serves pg-Issued refl
