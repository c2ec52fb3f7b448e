-- ===== src/Pipeline/Request.antt =====
-- What a run of apps/agent/internal/pipeline/runner.go is given, meets and reports.
use backupy_agent.Prelude.{ℕ, Bool, Option, List, Result}
use backupy_agent.Prelude.Bytes.{Bytes}
use backupy_agent.Io.{Fault, Reader}
use backupy_agent.Cipher.{Aead, Random}
use backupy_agent.Pipeline.Encrypt.{CryptError}
use backupy_agent.Pipeline.Hooks.{Shell, HookError, HookSet}

pub data DbType : Type 0 where
  postgresql mysql mariadb mongodb redis sqlite : DbType
  -- any other value, by its name
  other : Bytes → DbType

pub record Target : Type 0 where
  pub id : Bytes
  pub db_type : DbType
  pub connection : Option Bytes

pub record JobSpec : Type 0 where
  pub target_id : Bytes
  pub pre_hooks : List Bytes
  pub post_hooks : List Bytes

pub record UploadCreds : Type 0 where
  pub presigned_put_url : Bytes
  pub final_s3_key : Bytes

pub record RunBackup : Type 0 where
  pub job_id : Bytes
  pub run_id : Bytes
  pub encrypted_dek : Bytes
  pub upload_creds : Option UploadCreds

-- Without the duration, which the clock gives.
pub record BackupCompleted : Type 0 where
  pub job_id : Bytes
  pub run_id : Bytes
  pub s3_key : Bytes
  pub size_bytes : ℕ
  pub sha256 : Bytes
  pub encrypted_dek : Bytes
  pub compression : Bytes
  pub db_engine_version : Bytes

-- `Driver`: what `Dump` writes and the error that it returns, if its writes succeed; the error that it
-- returns when the pipe is closed under it, unless it had written all.
pub record Driver : Type 0 where
  pub name : Bytes
  pub validate : Target → Option Fault
  pub dump : Target → Reader
  pub engine_version : Target → Bytes
  pub closed : Target → Option Fault

pub data RunError : Type 0 where
  nil_request no_upload_creds no_uploader no_job no_target no_lookups no_connection : RunError
  no_driver : Bytes → RunError
  unwrap_dek dump smoke compress encrypt upload validate_stage : Fault → RunError
  build_encryptor : CryptError → RunError
  encrypt_stream : CryptError → RunError
  http_status : ℕ → RunError
  pre_hook : ℕ → HookError → RunError

-- What is outside of the program, and the options of the runner. A lookup may be nil.
pub record World : Type 0 where
  pub drivers : Bytes → Option Driver
  pub has_uploader : Bool
  pub job_lookup : Option (Bytes → Option JobSpec)
  pub target_lookup : Option (Bytes → Option Target)
  pub unwrap : Bytes → Result Fault Bytes
  pub gcm : Bytes → Aead
  pub rand : Random
  pub zstd : Bytes → Bytes
  pub shell : Shell
  -- creating, filling, closing or opening the temporary file
  pub temp_file : Option Fault
  -- the answer to a PUT: an HTTP status
  pub http : Bytes → Bytes → Result Fault ℕ
  pub hex_sha256 : Bytes → Bytes

-- What a run has done to the outside: the PUT requests made and the hooks started.
pub record Trace : Type 0 where
  pub puts : List (Bytes × Bytes)
  pub hooks : List Bytes
  pub consumed : HookSet
