-- ===== src/Config.antt =====
-- apps/agent/internal/config/config.go: the checks on the bootstrap configuration. Reading the
-- environment, net/url and the file system are parameters.

pub mod Connecting
use backupy_agent.Prelude.{
  ℕ, ◌+◌, Bool, true, false, not, ◌&&◌, ◌||◌, Option, none, some, List, [], ◌∷◌, length, drop, leb,
  ◌==◌, if◌then◌else◌, Result, ok, err, ◌>>=◌, ◌>>◌, map_err,
}
use backupy_agent.Prelude.Bytes.{Bytes, codes, is_empty, ◌===◌}
use backupy_agent.Prelude.Strings.{has_prefix}
use backupy_agent.Io.{Fault}
use backupy_agent.Wss.Url.{Url}

-- `Config`, of the fields that are checked.
pub record Settings : Type 0 where
  pub server_url : Bytes
  pub agent_key : Bytes
  pub state_dir : Bytes
  pub dev_allow_insecure : Bool

pub data ConfigError : Type 0 where
  parse_env invalid_url cannot_create_dir dir_not_writable : Fault → ConfigError
  missing_host http_refused invalid_agent_key empty_state_dir : ConfigError
  unsupported_scheme : Bytes → ConfigError

pub record Surroundings : Type 0 where
  pub parse_environment : Result Fault Settings
  pub url_parse : Bytes → Result Fault Url
  pub host_of : Url → Bytes
  pub mkdir_all : Bytes → Result Fault (Unit {0})
  pub create_probe : Bytes → Result Fault (Unit {0})

unfoldable pub all_of : (ℕ → Bool) → Bytes → Bool
all_of p [] = true
all_of p (c ∷ cs) = p c && all_of p cs

-- `[A-Za-z0-9]` and `[a-f0-9]`
abbrev pub is_alnum : ℕ → Bool
is_alnum c = (leb 65 c && leb c 90) || ((leb 97 c && leb c 122) || (leb 48 c && leb c 57))

abbrev pub is_hex : ℕ → Bool
is_hex c = (leb 97 c && leb c 102) || (leb 48 c && leb c 57)

-- A prefix, and so many characters of a class behind it.
unfoldable pub is_tagged : Bytes → Bytes → Bool
unfolding all_of has_prefix
is_tagged prefix s =
    has_prefix s prefix
    && (length s == length prefix + 32 && all_of is_alnum (drop (length prefix) s))

-- `agentKeyPattern.MatchString`
unfoldable pub matches_agent_key : Bytes → Bool
unfolding is_tagged all_of
matches_agent_key s =
    is_tagged (codes "bkpy_live_") s
    || (is_tagged (codes "bkpy_test_") s || (length s == 64 && all_of is_hex s))

unfoldable pub check_scheme : Bool → Bytes → Result ConfigError (Unit {0})
check_scheme allow_insecure scheme =
    if scheme === codes "https"
    then ok tt
    else (if scheme === codes "http"
        then (if allow_insecure then ok tt else err http_refused)
        else err (unsupported_scheme scheme))

-- `validateServerURL`
unfoldable pub validate_server_url : Surroundings → Bytes → Bool → Result ConfigError (Unit {0})
validate_server_url w raw allow_insecure = map_err invalid_url (w.url_parse raw) >>= λ u.
    if is_empty (w.host_of u) then err missing_host else check_scheme allow_insecure u.scheme

-- `validateStateDirWritable`; the probe is removed again.
unfoldable pub validate_state_dir_writable : Surroundings → Bytes → Result ConfigError (Unit {0})
validate_state_dir_writable w dir =
    if is_empty dir
    then err empty_state_dir
    else map_err cannot_create_dir (w.mkdir_all dir)
      >> map_err dir_not_writable (w.create_probe dir)

unfoldable pub check_agent_key : Bytes → Result ConfigError (Unit {0})
check_agent_key key = if matches_agent_key key then ok tt else err invalid_agent_key

-- `Validate`
unfoldable pub validate : Surroundings → Settings → Result ConfigError (Unit {0})
validate w c =
    validate_server_url w c.server_url c.dev_allow_insecure
    >> (check_agent_key c.agent_key >> validate_state_dir_writable w c.state_dir)

-- `Load`
unfoldable pub load : Surroundings → Result ConfigError Settings
load w = map_err parse_env w.parse_environment >>= λ c. validate w c >> ok c
