-- ===== src/Drivers/Redis.antt =====
-- apps/agent/internal/pipeline/redis.go. The clock, the context, the file and the archive writers are
-- parameters.
pub mod Waiting
pub mod Snapshot
use backupy_agent.Prelude.{
  ℕ, zero, suc, ◌+◌, Bool, true, false, not, ◌&&◌, ◌||◌, Option, none, some, List, [], ◌∷◌, ◌++◌,
  ltb, ◌==◌, if◌then◌else◌, Result, ok, err,
}
use backupy_agent.Prelude.Bytes.{Bytes, codes, is_empty}
use backupy_agent.Prelude.Int.{ℤ, ltz}
use backupy_agent.Prelude.Numbers.{parse_int}
use backupy_agent.Prelude.Strings.{
  to_lower, equal_fold, trim_space, trim_prefix, has_prefix, contains, split,
}
use backupy_agent.Io.{Fault, Reader}
use backupy_agent.Drivers.Command.{
  Connection, Command, CmdRunner, DriverError, ping_failed, last_save_failed, bgsave_failed,
  cannot_read, archive_failed, cancelled, config_failed, unexpected_reply, save_timeout,
  empty_dump_path, not_an_integer, out_of_fuel, M, ◌>>=◌, ◌>>◌, pure, fail, must, connected, output,
  probe_version, flag, port_flag, Dumped, stream_error,
}

abbrev pub redis_cli : Bytes
redis_cli = codes "redis-cli"

-- In milliseconds.
abbrev pub poll_interval : ℕ
poll_interval = 250

abbrev pub poll_timeout : ℕ
poll_timeout = 300000

-- What the driver meets. `now` is the clock when the wait begins and at the end of each round;
-- `ctx` the context at the start of a round, `select` what ends the pause behind it.
pub record Machine : Type 0 where
  pub runner : CmdRunner
  pub now : ℕ → ℕ
  pub ctx : ℕ → Option Fault
  pub select : ℕ → Option Fault
  pub join_path : Bytes → Bytes → Bytes
  pub file_open : Bytes → Result Fault Reader
  pub tar_gz : Bytes → Reader → Reader

abbrev pub password_flags : Bytes → List Bytes
password_flags value =
    if is_empty value then [] else codes "-a" ∷ value ∷ codes "--no-auth-warning" ∷ []

-- The database goes in only if it reads as a number.
abbrev pub database_flag : Bytes → List Bytes
database_flag value = elim (parse_int value) [ none ↦ [] | some n ↦ codes "-n" ∷ value ∷ [] ]

-- `connArgs`
unfoldable pub redis_conn_args : Connection → List Bytes
redis_conn_args c =
    flag (codes "-h") c.host
    ++ (port_flag (codes "-p") c.port
        ++ (password_flags c.password_secret_ref
            ++ (flag (codes "--user") c.username ++ database_flag c.database)))

unfoldable pub redis_command : List Bytes → List Bytes → Command
redis_command base words = record { binary = redis_cli; args = base ++ words; env = [] }

-- `Validate`
unfoldable pub redis_validate : CmdRunner → Option Connection → M (Unit {0})
unfolding output
redis_validate r target = do
  c ← connected target
  probe_version r redis_cli redis_cli
  answer ← output r (redis_command (redis_conn_args c) (codes "PING" ∷ []))
  out ← must ping_failed answer
  if contains (to_lower out) (codes "pong") then pure tt else fail unexpected_reply

unfoldable pub read_timestamp : Bytes → M ℤ
read_timestamp s = elim (parse_int s) [ none ↦ fail (not_an_integer s) | some n ↦ pure n ]

unfoldable pub last_save_command : List Bytes → Command
last_save_command base = redis_command base (codes "LASTSAVE" ∷ [])

-- `lastSave`
unfoldable pub last_save : CmdRunner → List Bytes → M ℤ
unfolding output
last_save r base = do
  answer ← output r (last_save_command base)
  out ← must last_save_failed answer
  read_timestamp (trim_space out)

-- The loop of `waitForSave`, in round `k`.
unfoldable pub wait_loop : Machine → List Bytes → ℤ → ℕ → ℕ → M (Unit {0})
wait_loop w base prev zero k = fail out_of_fuel
wait_loop w base prev (suc fuel) k = elim (w.ctx k) [
  | some e ↦ fail (cancelled e)
  | none ↦ do
    cur ← last_save w.runner base
    elim (ltz prev cur) [
      | true ↦ pure tt
      | false ↦ elim (ltb (w.now 0 + poll_timeout) (w.now (suc k))) [
        | true ↦ fail save_timeout
        | false ↦ elim (w.select k) [
          | some e ↦ fail (cancelled e)
          | none ↦ wait_loop w base prev fuel (suc k)
        ]
      ]
    ]
]

-- The rounds that fit into the timeout, and two.
abbrev pub poll_rounds : ℕ
poll_rounds = 1202

-- `waitForSave`
unfoldable pub wait_for_save : Machine → List Bytes → ℤ → M (Unit {0})
wait_for_save w base prev = wait_loop w base prev poll_rounds 0

-- The last line that is neither empty nor the key.
unfoldable pub last_value : Bytes → List Bytes → Bytes
last_value key [] = []
last_value key (l ∷ ls) =
    let later = last_value key ls in
    let v = trim_space l in
    if not (is_empty later)
    then later
    else (if not (is_empty v) && not (equal_fold v key) then v else [])

-- `config`
unfoldable pub config : CmdRunner → List Bytes → Bytes → M Bytes
unfolding output
config r base key = do
  answer ← output r (redis_command base (codes "CONFIG" ∷ codes "GET" ∷ key ∷ []))
  out ← must (config_failed key) answer
  pure (last_value key (split 10 (trim_space out)))

unfoldable pub version_line : List Bytes → Bytes
version_line [] = codes "Redis"
version_line (l ∷ ls) =
    let line = trim_space l in
    let rest = version_line ls in
    if has_prefix line (codes "redis_version:")
    then codes "Redis " ++ trim_prefix line (codes "redis_version:")
    else rest

unfoldable pub version_of : Result Fault Bytes → Bytes
version_of (err e) = codes "Redis"
version_of (ok out) = version_line (split 10 out)

-- `serverVersion`
unfoldable pub server_version : CmdRunner → List Bytes → M Bytes
unfolding output
server_version r base = do
  answer ← output r (redis_command base (codes "INFO" ∷ codes "server" ∷ []))
  pure (version_of answer)

unfoldable pub bgsave : CmdRunner → List Bytes → M (Unit {0})
unfolding output
bgsave r base = do
  answer ← output r (redis_command base (codes "BGSAVE" ∷ []))
  out ← must bgsave_failed answer
  pure tt

-- From the file on.
unfoldable pub stream_file : Machine → List Bytes → Bytes → M Dumped
stream_file w base path = do
  file ← must cannot_read (w.file_open path)
  let archive = w.tar_gz (codes "dump.rdb") file
  must archive_failed (stream_error archive)
  version ← server_version w.runner base
  pure (record { stream = archive; engine_version = version })

-- From the finished snapshot on.
unfoldable pub stream_snapshot : Machine → List Bytes → M Dumped
stream_snapshot w base = do
  dir ← config w.runner base (codes "dir")
  name ← config w.runner base (codes "dbfilename")
  if is_empty dir || is_empty name
      then fail empty_dump_path
      else stream_file w base (w.join_path dir name)

-- `Dump`
unfoldable pub redis_run_dump : Machine → Option Connection → M Dumped
redis_run_dump w target = do
  c ← connected target
  prev ← last_save w.runner (redis_conn_args c)
  bgsave w.runner (redis_conn_args c)
  wait_for_save w (redis_conn_args c) prev
  stream_snapshot w (redis_conn_args c)
