-- ===== src/Drivers/Sqlite.antt =====
-- apps/agent/internal/pipeline/sqlite.go. The temporary file is one that is removed again at the end;
-- the file system and gzip are parameters.
use backupy_agent.Prelude.{
  Bool, true, false, ◌&&◌, Option, none, some, List, [], ◌∷◌, ◌++◌, ◌==◌, if◌then◌else◌, Result, ok,
  err,
}
use backupy_agent.Prelude.Bytes.{Bytes, codes, is_empty}
use backupy_agent.Prelude.Numbers.{parse_int}
use backupy_agent.Prelude.Strings.{fields, split}
use backupy_agent.Io.{Fault, Reader}
use backupy_agent.Drivers.Command.{
  Connection, Command, CmdRunner, version_probe, unexpected_version, no_database, cannot_stat,
  create_temp, backup_exec, open_snapshot, gzip_failed, M, ◌>>=◌, ◌>>◌, pure, fail, must, connected,
  output, run_stream, version_command, stream_error, Dumped,
}

abbrev pub sqlite3 : Bytes
sqlite3 = codes "sqlite3"

pub record Disk : Type 0 where
  pub runner : CmdRunner
  pub stat : Bytes → Result Fault (Unit {0})
  pub temp_path : Result Fault Bytes
  pub open_file : Bytes → Result Fault Reader
  pub gzip : Reader → Reader

unfoldable pub all_numbers : List Bytes → Bool
all_numbers [] = true
all_numbers (p ∷ ps) = elim (parse_int p) [ none ↦ false | some n ↦ all_numbers ps ]

-- `looksLikeSqliteVersion`
unfoldable pub looks_like_sqlite_version : Bytes → Bool
looks_like_sqlite_version s = elim (fields s) [ [] ↦ false | f ∷ fs ↦ all_numbers (split 46 f) ]

-- The path of the database file.
unfoldable pub database_path : Connection → M Bytes
database_path c = if is_empty c.database then fail no_database else pure c.database

-- `Validate`
unfoldable pub sqlite_validate : Disk → Option Connection → M (Unit {0})
unfolding output
sqlite_validate w target = do
  c ← connected target
  path ← database_path c
  answer ← output w.runner (version_command sqlite3)
  out ← must version_probe answer
  if looks_like_sqlite_version out then must cannot_stat (w.stat path) else fail unexpected_version

unfoldable pub version_text : Result Fault Bytes → Bytes
version_text (err e) = codes "SQLite"
version_text (ok out) = elim (fields out) [ [] ↦ codes "SQLite" | f ∷ fs ↦ codes "SQLite " ++ f ]

-- `versionString`
unfoldable pub version_string : CmdRunner → M Bytes
unfolding output
version_string r = do answer ← output r (version_command sqlite3); pure (version_text answer)

unfoldable pub backup_command : Bytes → Bytes → Command
backup_command path temp = record {
  binary = sqlite3;
  args = path ∷ (codes ".backup '" ++ (temp ++ codes "'")) ∷ [];
  env = [];
}

-- `Dump`; what the command itself prints is discarded.
unfoldable pub sqlite_run_dump : Disk → Option Connection → M Dumped
unfolding run_stream
sqlite_run_dump w target = do
  c ← connected target
  path ← database_path c
  must cannot_stat (w.stat path)
  temp ← must create_temp w.temp_path
  printed ← run_stream w.runner (backup_command path temp)
  must backup_exec (stream_error printed)
  src ← must open_snapshot (w.open_file temp)
  let zipped = w.gzip src
  must gzip_failed (stream_error zipped)
  version ← version_string w.runner
  pure (record { stream = zipped; engine_version = version })

-- `IsSqliteGzMagic`, and `IsRedisTarGzMagic` of redis.go
unfoldable pub is_gz_magic : Bytes → Bool
is_gz_magic (a ∷ b ∷ rest) = a == 31 && b == 139
is_gz_magic head = false
