-- ===== src/Drivers/Mongodump.antt =====
-- The driver of apps/agent/internal/pipeline/mongodump.go.
use backupy_agent.Prelude.{
  Bool, false, ◌&&◌, ◌||◌, Option, none, some, List, [], ◌∷◌, ◌++◌, ◌==◌, if◌then◌else◌,
}
use backupy_agent.Prelude.Bytes.{Bytes, codes, is_empty}
use backupy_agent.Prelude.Strings.{to_lower, trim_space, has_prefix, split, cut_at}
use backupy_agent.Drivers.Command.{
  Connection, Command, CmdRunner, M, ◌>>=◌, connected, probe_version, flag, port_flag, Dumped,
  dump_with,
}

abbrev pub mongodump : Bytes
mongodump = codes "mongodump"

abbrev pub is_uri : Bytes → Bool
is_uri host = has_prefix host (codes "mongodb://") || has_prefix host (codes "mongodb+srv://")

abbrev pub password_flags : Bytes → List Bytes
password_flags value =
    if is_empty value
    then []
    else codes "--password" ∷ value ∷ codes "--authenticationDatabase" ∷ codes "admin" ∷ []

-- `connArgs`
unfoldable pub mongo_conn_args : Connection → List Bytes
mongo_conn_args c =
    (if is_uri c.host
      then codes "--uri" ∷ c.host ∷ []
      else flag (codes "--host") c.host
        ++ (port_flag (codes "--port") c.port
            ++ (flag (codes "--username") c.username ++ password_flags c.password_secret_ref)))
    ++ flag (codes "--db") c.database

unfoldable pub mongo_dump_command : Connection → Command
mongo_dump_command c = record {
  binary = mongodump;
  args = mongo_conn_args c ++ (codes "--archive" ∷ codes "--gzip" ∷ []);
  env = [];
}

unfoldable pub mongodump_version_line : List Bytes → Bytes
mongodump_version_line [] = codes "MongoDB"
mongodump_version_line (l ∷ ls) =
    let line = trim_space l in
    let rest = mongodump_version_line ls in
    if has_prefix (to_lower line) (codes "mongodump version:")
    then elim (cut_at 58 line) [
      | none ↦ rest
      | some (name, v) ↦ codes "MongoDB Tools " ++ trim_space v
    ]
    else rest

-- `parseMongodumpVersion`
unfoldable pub parse_mongodump_version : Bytes → Bytes
parse_mongodump_version s = mongodump_version_line (split 10 (trim_space s))

-- `Validate`
unfoldable pub mongo_validate : CmdRunner → Option Connection → M (Unit {0})
mongo_validate r target = do c ← connected target; probe_version r mongodump mongodump

-- `Dump`
unfoldable pub mongo_run_dump : CmdRunner → Option Connection → M Dumped
mongo_run_dump r target = do
  c ← connected target
  dump_with r (mongo_dump_command c) parse_mongodump_version (codes "MongoDB")

-- `IsMongodumpArchiveMagic`
unfoldable pub is_mongodump_archive_magic : Bytes → Bool
is_mongodump_archive_magic (a ∷ b ∷ c ∷ d ∷ rest) =
    (a == 31 && b == 139) || (a == 109 && (b == 226 && (c == 153 && d == 129)))
is_mongodump_archive_magic (a ∷ b ∷ rest) = a == 31 && b == 139
is_mongodump_archive_magic head = false
