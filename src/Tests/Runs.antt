-- ===== src/Tests/Runs.antt =====
-- A whole run.
use backupy_agent.Prelude.{
  ◌≡◌, refl, true, none, some, [], ◌∷◌, ◌++◌, if◌then◌else◌, ok, err, arith,
}
use backupy_agent.Prelude.Bytes.{Bytes, codes, ◌===◌}
use backupy_agent.Prelude.Int.{pos}
use backupy_agent.Io.{read_full, write}
use backupy_agent.Prelude.Words.{put_uint32}
use backupy_agent.Pipeline.Encrypt.{new_encryptor, stream, stream_loop, stream_round}
use backupy_agent.Pipeline.Hooks.{
  ChildRun, exited_zero, exit_error, exited_non_zero, new_hook_set, run_in_set, run_hook, exec_hook,
  limit_timeout, classify, cap_timeout,
}
use backupy_agent.Pipeline.HookRing.{new_hook_ring_buffer, write_all, string}
use backupy_agent.Pipeline.Request.{
  sqlite, Target, JobSpec, RunBackup, BackupCompleted, Driver, pre_hook, World,
}
use backupy_agent.Pipeline.Stages.{
  smoke_check, compress_stage, encrypt_stage, stage_encrypted_body, put, dump_error, is_some,
  take_one, keep_first, head_or_zero, receive, run_stages,
}
use backupy_agent.Pipeline.Runner.{
  db_type_key, run_pre_hooks, run_post_hooks, completed_of, run_hooked, checked_driver, resolve,
  resolve_job, resolve_target, check_connection, encryptor_of, check_creds, check_uploader, prepare,
  run,
}
use backupy_agent.Pipeline.Runner.Runs.{CompleteUploads, Delivered, run_puts, run_delivers}
use backupy_agent.Pipeline.Runner.Hooking.{Pass, run_hooked_stops}
use backupy_agent.Tests.Toy.{toy, tag, toy_nonce, toy_random}

abbrev pub quiet : ChildRun
quiet = record { stdout = []; stderr = []; took = 5; ended = exited_zero; ctx_err = none }

abbrev pub a_target : Target
a_target = record { id = codes "t"; db_type = sqlite; connection = some [] }

abbrev pub a_job : JobSpec
a_job = record { target_id = codes "t"; pre_hooks = codes "true" ∷ []; post_hooks = [] }

abbrev pub a_driver : Driver
a_driver = record {
  name = codes "sqlite3";
  validate = λ t. none;
  dump = λ t. record { bytes = 1 ∷ 2 ∷ 3 ∷ []; ends = none };
  engine_version = λ t. codes "3";
  closed = λ t. none;
}

abbrev pub a_world : World
a_world = record {
  drivers = λ k. some a_driver;
  has_uploader = true;
  job_lookup = some (λ j. some a_job);
  target_lookup = some (λ t. some a_target);
  unwrap = λ k. ok (
      k
      ++ (0 ∷ 0 ∷ 0 ∷ 0 ∷ 0 ∷ 0 ∷ 0 ∷ 0 ∷ 0 ∷ 0 ∷ 0 ∷ 0 ∷ 0 ∷ 0 ∷ 0 ∷ 0 ∷ 0 ∷ 0 ∷ 0 ∷ 0 ∷ 0 ∷ 0 ∷ 0
          ∷ 0 ∷ 0 ∷ 0 ∷ 0 ∷ 0 ∷ 0 ∷ 0 ∷ []));
  gcm = λ k. toy;
  rand = toy_random;
  zstd = λ b. 40 ∷ b;
  shell = λ c env t. quiet;
  temp_file = none;
  http = λ url body. ok 200;
  hex_sha256 = λ b. codes "ab";
}

abbrev pub a_request : RunBackup
a_request = record {
  job_id = codes "j";
  run_id = codes "r";
  encrypted_dek = 9 ∷ 9 ∷ [];
  upload_creds = some (record { presigned_put_url = codes "https://s3"; final_s3_key = codes "k" });
}

abbrev pub a_report : BackupCompleted
a_report = record {
  job_id = codes "j";
  run_id = codes "r";
  s3_key = codes "k";
  size_bytes = 40;
  sha256 = codes "ab";
  encrypted_dek = 9 ∷ 9 ∷ [];
  compression = codes "zstd";
  db_engine_version = codes "3";
}

pub run_succeeds : (run a_world (2 ∷ 0 ∷ []) (some a_request)).0 ≡ ok a_report
unfolding run prepare check_creds check_uploader checked_driver resolve resolve_job resolve_target
    check_connection db_type_key encryptor_of new_encryptor run_hooked run_pre_hooks run_post_hooks
    run_in_set run_hook exec_hook limit_timeout classify cap_timeout new_hook_set run_stages
    compress_stage smoke_check encrypt_stage stage_encrypted_body put dump_error is_some take_one
    keep_first head_or_zero receive completed_of stream stream_loop stream_round read_full write
    put_uint32 ◌===◌ new_hook_ring_buffer write_all string
run_succeeds = refl

-- The upload: one frame with the compressed dump, and the end marker.
abbrev pub a_body : Bytes
a_body = 0 ∷ 0 ∷ 0 ∷ 32 ∷ (toy_nonce 0 ++ (tag ++ (40 ∷ 1 ∷ 2 ∷ 3 ∷ 0 ∷ 0 ∷ 0 ∷ 0 ∷ [])))

pub run_makes :
    (run a_world (2 ∷ 0 ∷ []) (some a_request)).1.puts ≡ (codes "https://s3", a_body) ∷ []
unfolding run prepare check_creds check_uploader checked_driver resolve resolve_job resolve_target
    check_connection db_type_key encryptor_of new_encryptor run_hooked run_pre_hooks run_post_hooks
    run_in_set run_hook exec_hook limit_timeout classify cap_timeout new_hook_set run_stages
    compress_stage smoke_check encrypt_stage stage_encrypted_body put dump_error is_some take_one
    keep_first head_or_zero receive completed_of stream stream_loop stream_round read_full write
    put_uint32 ◌===◌ new_hook_ring_buffer write_all string
run_makes = refl

run_puts_example :
    CompleteUploads a_world (some a_request) (run a_world (1 ∷ []) (some a_request)).1.puts
run_puts_example = run_puts a_world (1 ∷ []) (some a_request)

run_delivers_example :
    Delivered a_world a_request a_report (run a_world (2 ∷ 0 ∷ []) (some a_request)).1
run_delivers_example = run_delivers a_world (2 ∷ 0 ∷ []) a_request a_report run_succeeds

-- The same world with a shell in which the command `b` fails.
abbrev failing_world : World
failing_world = record a_world {
  shell = λ c env t. if c === codes "b" then record quiet { ended = exit_error (pos 3) } else quiet;
}

abbrev three_hooks : JobSpec
three_hooks = record a_job {
  pre_hooks = codes "a" ∷ codes "b" ∷ codes "c" ∷ [];
  post_hooks = codes "d" ∷ [];
}

first_passes : Pass failing_world.shell (codes "a" ∷ []) 0 5
unfolding Pass run_in_set run_hook exec_hook limit_timeout classify cap_timeout new_hook_ring_buffer
    write_all string ◌===◌
first_passes = (refl, refl)

second_fails :
    (run_in_set failing_world.shell (codes "b") [] (pos 0) 5).0.1 ≡ some (exited_non_zero (pos 3))
unfolding run_in_set run_hook exec_hook limit_timeout classify cap_timeout new_hook_ring_buffer
    write_all string ◌===◌
second_fails = refl

run_hooked_stops_example :
    let (r, tr) =
      run_hooked failing_world [] a_request
        (record { presigned_put_url = []; final_s3_key = [] })
        (some three_hooks)
        a_target
        a_driver
        none in
    (r ≡ err (pre_hook 1 (exited_non_zero (pos 3))))
    × (tr.puts ≡ [])
    × (tr.hooks ≡ codes "a" ∷ codes "b" ∷ [])
run_hooked_stops_example =
    run_hooked_stops failing_world [] a_request
      (record { presigned_put_url = []; final_s3_key = [] }) three_hooks a_target a_driver none
      (codes "a" ∷ []) (codes "b") (codes "c" ∷ []) 5 refl (omega arith) first_passes second_fails
