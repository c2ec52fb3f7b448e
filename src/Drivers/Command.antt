-- ===== src/Drivers/Command.antt =====
-- What the drivers share: the connection of a target, and `cmdRunner` of
-- apps/agent/internal/pipeline/pg_dump.go. os/exec is a parameter: what the k-th command gives.
use backupy_agent.Prelude.{
  ℕ, Option, none, some, List, [], ◌∷◌, ◌++◌, length, ◌==◌, if◌then◌else◌, Result, ok, err,
}
use backupy_agent.Prelude.Bytes.{Bytes, codes, is_empty}
use backupy_agent.Prelude.Strings.{to_lower, contains}
use backupy_agent.Io.{Fault, Reader}
use backupy_agent.Wss.Client.{decimal}

-- `backupv1.Connection`, as far as the drivers read it.
pub record Connection : Type 0 where
  pub host : Bytes
  pub port : ℕ
  pub username : Bytes
  pub password_secret_ref : Bytes
  pub database : Bytes

-- A command with what is put on top of the inherited environment.
pub record Command : Type 0 where
  pub binary : Bytes
  pub args : List Bytes
  pub env : List Bytes

-- `Output` gives standard output or an error; `RunStream` hands on what it gives until it ends.
pub record CmdRunner : Type 0 where
  pub output : ℕ → Command → Result Fault Bytes
  pub run_stream : ℕ → Command → Reader

pub data DriverError : Type 0 where
  nil_connection unexpected_version : DriverError
  version_probe smoke_probe exec : Fault → DriverError
  -- of Redis
  ping_failed last_save_failed bgsave_failed cannot_read archive_failed cancelled :
      Fault → DriverError
  config_failed : Bytes → Fault → DriverError
  unexpected_reply save_timeout empty_dump_path : DriverError
  not_an_integer : Bytes → DriverError
  -- of SQLite
  no_database : DriverError
  cannot_stat create_temp backup_exec open_snapshot gzip_failed : Fault → DriverError
  -- the model's own: a loop ran out of fuel
  out_of_fuel : DriverError

-- What a driver does: the commands so far, and a result.
abbrev pub M : Type 0 → Type 0
M A = List Command → Result DriverError A × List Command

infixl 5 ◌>>=◌ ◌>>◌
abbrev pub ◌>>=◌ : {A B : Type 0} → M A → (A → M B) → M B
◌>>=◌ m f ran = let (r, ran') = m ran in elim r [ ok a ↦ f a ran' | err e ↦ (err e, ran') ]

abbrev pub ◌>>◌ : {B : Type 0} → M (Unit {0}) → M B → M B
m >> k = m >>= λ _. k

abbrev pub pure : {A : Type 0} → A → M A
pure a ran = (ok a, ran)

abbrev pub fail : {A : Type 0} → DriverError → M A
fail e ran = (err e, ran)

-- `runner.Output`
unfoldable pub output : CmdRunner → Command → M (Result Fault Bytes)
output r c ran = (ok (r.output (length ran) c), ran ++ (c ∷ []))

-- `runner.RunStream`
unfoldable pub run_stream : CmdRunner → Command → M Reader
run_stream r c ran = (ok (r.run_stream (length ran) c), ran ++ (c ∷ []))

-- `if err != nil { return wrap(err) }`
abbrev pub must : {A : Type 0} → (Fault → DriverError) → Result Fault A → M A
must wrap (ok a) = pure a
must wrap (err e) = fail (wrap e)

abbrev pub connected : Option Connection → M Connection
connected none = fail nil_connection
connected (some c) = pure c

abbrev pub version_command : Bytes → Command
version_command binary = record { binary = binary; args = codes "--version" ∷ []; env = [] }

-- The probe for the version, and whether its answer names the tool.
unfoldable pub probe_version : CmdRunner → Bytes → Bytes → M (Unit {0})
unfolding output
probe_version r binary name = do
  answer ← output r (version_command binary)
  out ← must version_probe answer
  if contains (to_lower out) name then pure tt else fail unexpected_version

-- The version that a dump reports: a default where the tool does not answer.
unfoldable pub engine_of : (Bytes → Bytes) → Bytes → Result Fault Bytes → Bytes
engine_of parse_version default (ok out) = parse_version out
engine_of parse_version default (err e) = default

-- `if v != "" { args = append(args, flag, v) }`
abbrev pub flag : Bytes → Bytes → List Bytes
flag name value = if is_empty value then [] else name ∷ value ∷ []

abbrev pub port_flag : Bytes → ℕ → List Bytes
port_flag name port = if port == 0 then [] else name ∷ decimal 10 port ∷ []

-- `DumpInfo` with the stream that was written.
pub record Dumped : Type 0 where
  pub stream : Reader
  pub engine_version : Bytes

unfoldable pub stream_error : Reader → Result Fault (Unit {0})
stream_error s = elim s.ends [ none ↦ ok tt | some e ↦ err e ]

-- The dump itself: a stream that fails is an error behind what was written of it.
unfoldable pub dump_with : CmdRunner → Command → (Bytes → Bytes) → Bytes → M Dumped
unfolding run_stream output engine_of
dump_with r c parse_version default = do
  stream ← run_stream r c
  must exec (stream_error stream)
  answer ← output r (version_command c.binary)
  pure (record { stream = stream; engine_version = engine_of parse_version default answer })
