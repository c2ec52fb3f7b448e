-- ===== src/Drivers/Mysqldump.antt =====
-- apps/agent/internal/pipeline/mysqldump.go
pub mod Banner
use backupy_agent.Prelude.{
  ℕ, Bool, true, false, ◌||◌, Option, none, some, List, [], ◌∷◌, ◌++◌, ◌==◌, if◌then◌else◌, Result,
  ok, err,
}
use backupy_agent.Prelude.Bytes.{Bytes, codes, is_empty}
use backupy_agent.Prelude.Strings.{
  to_lower, trim_space, contains, after_folded, fields, fields_func, split,
}
use backupy_agent.Io.{Fault}
use backupy_agent.Drivers.Command.{
  Connection, Command, CmdRunner, smoke_probe, M, ◌>>=◌, ◌>>◌, pure, must, connected, output,
  probe_version, flag, port_flag, Dumped, dump_with,
}

abbrev pub mysqldump : Bytes
mysqldump = codes "mysqldump"

abbrev pub joined_flag : Bytes → Bytes → List Bytes
joined_flag prefix value = if is_empty value then [] else (prefix ++ value) ∷ []

-- `connArgs`
unfoldable pub mysql_conn_args : Connection → List Bytes
mysql_conn_args c =
    flag (codes "-h") c.host
    ++ (port_flag (codes "-P") c.port
        ++ (flag (codes "-u") c.username
            ++ (joined_flag (codes "--password=") c.password_secret_ref
                ++ joined_flag [] c.database)))

unfoldable pub mysql_smoke_command : Connection → Command
mysql_smoke_command c = record {
  binary = mysqldump;
  args =
      mysql_conn_args c
      ++ (codes "--no-data"
          ∷ codes "--no-create-info"
          ∷ codes "--skip-triggers"
          ∷ codes "--skip-comments"
          ∷ []);
  env = [];
}

unfoldable pub mysql_dump_command : Connection → Command
mysql_dump_command c = record {
  binary = mysqldump;
  args =
      mysql_conn_args c
      ++ (codes "--single-transaction"
          ∷ codes "--routines"
          ∷ codes "--triggers"
          ∷ codes "--events"
          ∷ codes "--quick"
          ∷ codes "--hex-blob"
          ∷ codes "--skip-extended-insert"
          ∷ []);
  env = [];
}

abbrev is_field_end : ℕ → Bool
is_field_end c = c == 32 || (c == 44 || c == 9)

abbrev pub first_piece : List Bytes → Bytes
first_piece [] = []
first_piece (w ∷ ws) = w

-- The first field that names MariaDB, up to its first dash.
unfoldable pub mariadb_field : List Bytes → Option Bytes
mariadb_field [] = none
mariadb_field (f ∷ fs) =
    if contains (to_lower f) (codes "mariadb")
    then some (codes "MariaDB " ++ first_piece (split 45 f))
    else mariadb_field fs

unfoldable pub mariadb_version : Bytes → Bytes
mariadb_version s =
    if contains (to_lower s) (codes "mariadb")
    then elim (mariadb_field (fields_func is_field_end s)) [ none ↦ s | some v ↦ v ]
    else s

-- The field behind "ver ", in whatever case.
unfoldable pub mysql_version : Bytes → Option Bytes
mysql_version s = elim (after_folded s (codes "ver ")) [
  | none ↦ none
  | some rest ↦ elim (fields rest) [ [] ↦ none | v ∷ vs ↦ some (codes "MySQL " ++ v) ]
]

-- `parseMysqldumpVersion`
unfoldable pub parse_mysqldump_version : Bytes → Bytes
parse_mysqldump_version s =
    let t = trim_space s in elim (mysql_version t) [ some v ↦ v | none ↦ mariadb_version t ]

-- `Validate`
unfoldable pub mysql_validate : CmdRunner → Option Connection → M (Unit {0})
unfolding output
mysql_validate r target = do
  c ← connected target
  probe_version r mysqldump mysqldump
  answer ← output r (mysql_smoke_command c)
  out ← must smoke_probe answer
  pure tt

-- `Dump`
unfoldable pub mysql_run_dump : CmdRunner → Option Connection → M Dumped
mysql_run_dump r target = do
  c ← connected target
  dump_with r (mysql_dump_command c) parse_mysqldump_version (codes "MySQL")
