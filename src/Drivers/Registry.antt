-- ===== src/Drivers/Registry.antt =====
-- The drivers that apps/agent/cmd/agent/run.go gives to the runner: those that run one dump tool, as the
-- `Driver` of apps/agent/internal/pipeline/pipeline.go. The driver of Redis and that of SQLite are
-- arguments.
use backupy_agent.Prelude.{
  ◌≡◌, refl, ◌⊎◌, inl, inr, Option-cases, Option, none, some, List, [], ◌∷◌, ◌++◌, length, ◌||◌,
  if◌then◌else◌, Result, ok, err,
}
use backupy_agent.Prelude.Bytes.{Bytes, codes, ◌===◌}
use backupy_agent.Io.{Fault, Reader}
use backupy_agent.Pipeline.Request.{Target, Driver}
use backupy_agent.Drivers.Command.{
  Connection, Command, CmdRunner, DriverError, nil_connection, exec, M, ◌>>=◌, connected, Dumped,
  dump_with, run_stream, output, stream_error, engine_of, version_command,
}
use backupy_agent.Drivers.PgDump.{
  pg_dump, pg_validate, pg_dump_command, parse_pg_dump_version, pg_run_dump,
}
use backupy_agent.Drivers.Mysqldump.{
  mysqldump, mysql_validate, mysql_dump_command, parse_mysqldump_version, mysql_run_dump,
}
use backupy_agent.Drivers.Mongodump.{
  mongodump, mongo_validate, mongo_dump_command, parse_mongodump_version, mongo_run_dump,
}

pub record Tool : Type 0 where
  pub name : Bytes
  pub check : CmdRunner → Option Connection → M (Unit {0})
  pub dump_command : Connection → Command
  pub parse_version : Bytes → Bytes
  pub default_engine : Bytes

abbrev pub pg_tool : Tool
pg_tool = record {
  name = pg_dump;
  check = pg_validate;
  dump_command = pg_dump_command;
  parse_version = parse_pg_dump_version;
  default_engine = codes "PostgreSQL";
}

abbrev pub mysql_tool : Tool
mysql_tool = record {
  name = mysqldump;
  check = mysql_validate;
  dump_command = mysql_dump_command;
  parse_version = parse_mysqldump_version;
  default_engine = codes "MySQL";
}

abbrev pub mongo_tool : Tool
mongo_tool = record {
  name = mongodump;
  check = mongo_validate;
  dump_command = mongo_dump_command;
  parse_version = parse_mongodump_version;
  default_engine = codes "MongoDB";
}

-- `Dump` of a driver that runs one tool.
unfoldable pub dump_of : Tool → CmdRunner → Option Connection → M Dumped
dump_of tool r target = do
  c ← connected target
  dump_with r (tool.dump_command c) tool.parse_version tool.default_engine

tools-dump_of :
    (r : CmdRunner) (target : Option Connection)
    → (pg_run_dump r target ≡ dump_of pg_tool r target)
      × (mysql_run_dump r target ≡ dump_of mysql_tool r target)
      × (mongo_run_dump r target ≡ dump_of mongo_tool r target)
unfolding pg_run_dump mysql_run_dump mongo_run_dump dump_of
tools-dump_of r target = (refl, refl, refl)

unfoldable pub failure : {A : Type 0} → (DriverError → Fault) → Result DriverError A → Option Fault
failure fault_of (ok a) = none
failure fault_of (err e) = some (fault_of e)

module _ (r : CmdRunner) (decode : Bytes → Connection) (fault_of : DriverError → Fault)
    (closed : Target → Option Fault) where
  unfoldable pub connection_of : Target → Option Connection
  connection_of t = elim t.connection [ none ↦ none | some raw ↦ some (decode raw) ]

  -- The commands that the check of a target has run.
  unfoldable pub checked : Tool → Target → List Command
  checked tool t = (tool.check r (connection_of t) []).1

  -- What `Dump` writes, and its error.
  unfoldable pub dump_stream : Tool → Target → Reader
  dump_stream tool t = elim (connection_of t) [
    | none ↦ record { bytes = []; ends = some (fault_of nil_connection) }
    | some c ↦
        let s = r.run_stream (length (checked tool t)) (tool.dump_command c) in
        record {
          bytes = s.bytes;
          ends = elim s.ends [ none ↦ none | some e ↦ some (fault_of (exec e)) ];
        }
  ]

  unfoldable pub driver_of : Tool → Driver
  unfolding dump_stream
  driver_of tool = record {
    name = tool.name;
    validate = λ t. failure fault_of (tool.check r (connection_of t) []).0;
    dump = dump_stream tool;
    engine_version = λ t. elim (dump_of tool r (connection_of t) (checked tool t)).0 [
      | err e ↦ []
      | ok d ↦ d.engine_version
    ];
    closed = closed;
  }

  -- The map of drivers that `run` makes.
  unfoldable pub registry : Driver → Driver → Bytes → Option Driver
  unfolding driver_of
  registry redis sqlite key =
      if key === codes "postgresql"
      then some (driver_of pg_tool)
      else (if key === codes "mysql" || key === codes "mariadb"
          then some (driver_of mysql_tool)
          else (if key === codes "mongodb"
              then some (driver_of mongo_tool)
              else (if key === codes "redis"
                  then some redis
                  else (if key === codes "sqlite" then some sqlite else none))))

module _ (r : CmdRunner) (decode : Bytes → Connection) (fault_of : DriverError → Fault)
    (closed : Target → Option Fault) where
  -- The stream of a driver is what its `Dump` writes, with the error that `Dump` returns.
  dump_stream-dump_of :
      (tool : Tool) (t : Target)
      → let dumped =
          (dump_of tool r
            (connection_of r decode fault_of closed t)
            (checked r decode fault_of closed tool t)).0 in
        ((d : Dumped) × (dumped ≡ ok d) × (dump_stream r decode fault_of closed tool t ≡ d.stream))
        ⊎ ((e : DriverError) × (dumped ≡ err e)
            × ((dump_stream r decode fault_of closed tool t).ends ≡ some (fault_of e)))
  unfolding dump_of dump_stream dump_with run_stream stream_error output
  dump_stream-dump_of tool t = elim (Option-cases (connection_of r decode fault_of closed t)) [
    | inl missing ↦ inr (nil_connection, rw (dump_of, missing) refl, rw (dump_stream, missing) refl)
    | inr (c, present) ↦
        let s =
          r.run_stream (length (checked r decode fault_of closed tool t)) (tool.dump_command c) in
        elim (Option-cases s.ends) [
          | inl whole ↦ inl (
            record {
              stream = s;
              engine_version = engine_of tool.parse_version tool.default_engine (
                  r.output
                    (length (checked r decode fault_of closed tool t ++ (tool.dump_command c ∷ [])))
                    (version_command (tool.dump_command c).binary));
            },
            rw (dump_of, present, whole) refl,
            rw (dump_stream, present, whole) refl,
          )
          | inr (e, cut) ↦
              inr (exec e, rw (dump_of, present, cut) refl, rw (dump_stream, present, cut) refl)
        ]
  ]
