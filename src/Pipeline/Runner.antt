-- ===== src/Pipeline/Runner.antt =====
-- apps/agent/internal/pipeline/runner.go: `Run`, from its checks to its report.
pub mod Results
pub mod Uploads
pub mod Runs
pub mod Hooking
use backupy_agent.Prelude.{
  ℕ, zero, suc, ◌+◌, ◌/◌, Bool, true, false, not, ◌&&◌, ◌||◌, Option, none, some, List, [], ◌∷◌,
  ◌++◌, map, length, take, drop, ltb, leb, ◌==◌, if◌then◌else◌, Result, ok, err, ◌>>=◌, map_err,
}
use backupy_agent.Prelude.Bytes.{Bytes, is_empty, codes, ◌===◌}
use backupy_agent.Prelude.Strings.{to_lower}
use backupy_agent.Prelude.Int.{ℤ, pos}
use backupy_agent.Io.{Fault, fault, Reader, Writer}
use backupy_agent.Cipher.{Aead, Random}
use backupy_agent.Pipeline.Encrypt.{CryptError, new_encryptor, dek_size, stream}
use backupy_agent.Pipeline.Hooks.{
  Shell, HookError, HookSet, new_hook_set, run_in_set, hooks_max_count,
}
use backupy_agent.Pipeline.Request.{
  DbType, Target, JobSpec, UploadCreds, RunBackup, BackupCompleted, Driver, RunError, World, Trace,
  postgresql, mysql, mariadb, mongodb, redis, sqlite, other, nil_request, no_upload_creds,
  no_uploader, no_job, no_target, no_lookups, no_connection, no_driver, unwrap_dek, dump, smoke,
  compress, encrypt, upload, validate_stage, build_encryptor, encrypt_stream, http_status, pre_hook,
}
use backupy_agent.Pipeline.Stages.{
  is_pg_dump_magic, is_mysqldump_header, smoke_check, Stage, compress_stage, encrypt_stage,
  stage_encrypted_body, put, dump_error, is_some, take_one, keep_first, head_or_zero, receive,
  run_stages,
}

-- `dbTypeKey`
unfoldable pub db_type_key : DbType → Bytes
db_type_key postgresql = codes "postgresql"
db_type_key mysql = codes "mysql"
db_type_key mariadb = codes "mariadb"
db_type_key mongodb = codes "mongodb"
db_type_key redis = codes "redis"
db_type_key sqlite = codes "sqlite"
db_type_key (other n) = to_lower n

-- `passthroughDEK`; the error is its own.
unfoldable pub passthrough_dek : Bytes → Result Fault Bytes
passthrough_dek b = if length b == dek_size then ok b else err (fault 0)

-- `resolve`
unfoldable pub resolve_job : World → RunBackup → Result RunError (Option JobSpec)
resolve_job w req = elim w.job_lookup [
  | none ↦ ok none
  | some look ↦ elim (look req.job_id) [ none ↦ err no_job | some job ↦ ok (some job) ]
]

unfoldable pub resolve_target : World → Option JobSpec → Result RunError Target
resolve_target w job = elim w.target_lookup [
  | none ↦ err no_lookups
  | some look ↦ elim job [
    | none ↦ err no_target
    | some j ↦ elim (look j.target_id) [ none ↦ err no_target | some t ↦ ok t ]
  ]
]

unfoldable pub check_connection : Target → Result RunError Target
check_connection t = elim t.connection [ none ↦ err no_connection | some c ↦ ok t ]

unfoldable pub resolve : World → RunBackup → Result RunError (Option JobSpec × Target)
resolve w req = resolve_job w req >>= λ job.
    resolve_target w job >>= λ t. check_connection t >>= λ t. ok (job, t)

-- The encryptor of a run, none where the job has no encryption.
unfoldable pub encryptor_of : World → Bytes → Result RunError (Option Aead)
encryptor_of w [] = ok none
encryptor_of w (b ∷ bs) = map_err unwrap_dek (w.unwrap (b ∷ bs)) >>= λ dek.
    map_err build_encryptor (new_encryptor w.gcm dek) >>= λ e. ok (some e)

-- The pre-hooks from index `i` on.
unfoldable pub run_pre_hooks : World → ℕ → List Bytes → Trace → Option RunError × Trace
run_pre_hooks w i [] tr = (none, tr)
run_pre_hooks w i (c ∷ cs) tr =
    let ((res, e), used) = run_in_set w.shell c [] (pos 0) tr.consumed in
    let tr' = record tr { hooks = tr.hooks ++ (c ∷ []); consumed = used } in
    let (r, after) = run_pre_hooks w (suc i) cs tr' in
    if leb hooks_max_count i
    then (none, tr)
    else elim e [ some x ↦ (some (pre_hook i x), tr') | none ↦ (r, after) ]

unfoldable pub run_post_hooks : World → ℕ → List Bytes → Trace → Trace
run_post_hooks w i [] tr = tr
run_post_hooks w i (c ∷ cs) tr =
    let (r, used) = run_in_set w.shell c [] (pos 0) tr.consumed in
    let after =
      run_post_hooks w (suc i) cs (record tr { hooks = tr.hooks ++ (c ∷ []); consumed = used }) in
    if leb hooks_max_count i then tr else after

unfoldable pub completed_of : RunBackup → UploadCreds → Bytes → Bytes × ℕ → BackupCompleted
completed_of req creds engine (sha, size) = record {
  job_id = req.job_id;
  run_id = req.run_id;
  s3_key = creds.final_s3_key;
  size_bytes = size;
  sha256 = sha;
  encrypted_dek = req.encrypted_dek;
  compression = codes "zstd";
  db_engine_version = engine;
}

-- `Run` behind its checks: hooks, stages, hooks.
unfoldable pub run_hooked :
    World
    → List ℕ
    → RunBackup
    → UploadCreds
    → Option JobSpec
    → Target
    → Driver
    → Option Aead
    → Result RunError BackupCompleted × Trace
run_hooked w schedule req creds job t d aead =
    let pre : List Bytes = elim job [ none ↦ [] | some j ↦ j.pre_hooks ] in
    let post : List Bytes = elim job [ none ↦ [] | some j ↦ j.post_hooks ] in
    let (failed, tr) =
      run_pre_hooks w 0 pre (record { puts = []; hooks = []; consumed = new_hook_set }) in
    let (result, requests) = run_stages w schedule d t aead creds.presigned_put_url in
    let tr' = run_post_hooks w 0 post (record tr { puts = requests }) in
    elim failed [
      | some e ↦ (err e, tr)
      | none ↦ (result >>= λ up. ok (completed_of req creds (d.engine_version t) up), tr')
    ]

unfoldable pub checked_driver :
    World → RunBackup → Result RunError (Option JobSpec × Target × Driver × Option Aead)
checked_driver w req = resolve w req >>= λ found.
    let t = found.1 in
    elim (w.drivers (db_type_key t.db_type)) [
      | none ↦ err (no_driver (db_type_key t.db_type))
      | some d ↦ encryptor_of w req.encrypted_dek >>= λ e. elim (d.validate t) [
        | some f ↦ err (validate_stage f)
        | none ↦ ok (found.0, t, d, e)
      ]
    ]

unfoldable pub check_creds : Option UploadCreds → Result RunError UploadCreds
check_creds none = err no_upload_creds
check_creds (some c) = if is_empty c.presigned_put_url then err no_upload_creds else ok c

unfoldable pub check_uploader : World → Result RunError Unit
check_uploader w = if w.has_uploader then ok tt else err no_uploader

-- The part of `Run` that has no effect, in its order: the credentials, the uploader, the job, the target,
-- the driver, the key, the driver's own check.
unfoldable pub prepare :
    World
    → RunBackup
    → Result RunError (UploadCreds × Option JobSpec × Target × Driver × Option Aead)
prepare w req = check_creds req.upload_creds >>= λ creds. check_uploader w >>= λ u.
    checked_driver w req >>= λ found. ok (creds, found.0, found.1, found.2, found.3)

-- `Run`
unfoldable pub run : World → List ℕ → Option RunBackup → Result RunError BackupCompleted × Trace
run w schedule none = (err nil_request, record { puts = []; hooks = []; consumed = new_hook_set })
run w schedule (some req) = elim (prepare w req) [
  | err e ↦ (err e, record { puts = []; hooks = []; consumed = new_hook_set })
  | ok (creds, job, t, d, aead) ↦ run_hooked w schedule req creds job t d aead
]
