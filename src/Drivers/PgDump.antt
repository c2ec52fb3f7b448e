-- ===== src/Drivers/PgDump.antt =====
-- apps/agent/internal/pipeline/pg_dump.go
pub mod Hiding
pub mod Asking
use backupy_agent.Prelude.{
  Bool, true, false, Option, none, some, List, [], ◌∷◌, ◌++◌, ◌==◌, if◌then◌else◌, Result, ok, err,
}
use backupy_agent.Prelude.Bytes.{Bytes, codes, is_empty}
use backupy_agent.Prelude.Strings.{trim_space, after}
use backupy_agent.Io.{Fault}
use backupy_agent.Wss.Client.{decimal}
use backupy_agent.Drivers.Command.{
  Connection, Command, CmdRunner, DriverError, smoke_probe, M, ◌>>=◌, ◌>>◌, pure, must, connected,
  output, probe_version, flag, port_flag, Dumped, dump_with,
}

abbrev pub pg_dump : Bytes
pg_dump = codes "pg_dump"

-- `connArgs`
unfoldable pub pg_conn_args : Connection → List Bytes
pg_conn_args c =
    flag (codes "-h") c.host
    ++ (port_flag (codes "-p") c.port
        ++ (flag (codes "-U") c.username ++ flag (codes "-d") c.database))

-- `env`
unfoldable pub pg_env : Connection → List Bytes
pg_env c =
    if is_empty c.password_secret_ref
    then []
    else (codes "PGPASSWORD=" ++ c.password_secret_ref) ∷ []

unfoldable pub pg_smoke_command : Connection → Command
pg_smoke_command c = record {
  binary = pg_dump;
  args = pg_conn_args c ++ (codes "--schema-only" ∷ codes "--no-acl" ∷ codes "--no-owner" ∷ []);
  env = pg_env c;
}

unfoldable pub pg_dump_command : Connection → Command
pg_dump_command c = record {
  binary = pg_dump;
  args =
      pg_conn_args c
      ++ (codes "--format=custom"
          ∷ codes "--no-owner"
          ∷ codes "--no-acl"
          ∷ codes "--serializable-deferrable"
          ∷ codes "--no-comments"
          ∷ []);
  env = pg_env c;
}

-- `parsePgDumpVersion`
unfoldable pub parse_pg_dump_version : Bytes → Bytes
parse_pg_dump_version s =
    let t = trim_space s in
    elim (after t (codes "(PostgreSQL)")) [
      | none ↦ t
      | some rest ↦ codes "PostgreSQL " ++ trim_space rest
    ]

-- `Validate`
unfoldable pub pg_validate : CmdRunner → Option Connection → M (Unit {0})
unfolding output
pg_validate r target = do
  c ← connected target
  probe_version r pg_dump pg_dump
  answer ← output r (pg_smoke_command c)
  out ← must smoke_probe answer
  pure tt

-- `Dump`
unfoldable pub pg_run_dump : CmdRunner → Option Connection → M Dumped
pg_run_dump r target = do
  c ← connected target
  dump_with r (pg_dump_command c) parse_pg_dump_version (codes "PostgreSQL")
