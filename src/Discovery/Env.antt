-- ===== src/Discovery/Env.antt =====
-- The environment of a container, in apps/agent/internal/discovery/docker.go: which names are hints.
pub mod Hiding
use backupy_agent.Prelude.{
  Bool, true, false, ◌||◌, Option, none, some, List, [], ◌∷◌, ◌++◌, if◌then◌else◌,
}
use backupy_agent.Prelude.Bytes.{Bytes, codes, is_empty, ◌===◌}
use backupy_agent.Prelude.Strings.{cut_at}
use backupy_agent.Prelude.Maps.{assign}

-- `envHintKeysByDBType`
abbrev pub env_hint_keys_by_db_type : List (Bytes × List Bytes)
env_hint_keys_by_db_type =
    (
      codes "postgresql",
      codes "POSTGRES_USER"
          ∷ codes "POSTGRES_PASSWORD"
          ∷ codes "POSTGRES_DB"
          ∷ codes "POSTGRESQL_USER"
          ∷ codes "POSTGRESQL_PASSWORD"
          ∷ codes "POSTGRESQL_DATABASE"
          ∷ codes "PGUSER"
          ∷ codes "PGPASSWORD"
          ∷ codes "PGDATABASE"
          ∷ [],
    )
    ∷ (
      codes "mysql",
      codes "MYSQL_USER"
          ∷ codes "MYSQL_PASSWORD"
          ∷ codes "MYSQL_ROOT_PASSWORD"
          ∷ codes "MYSQL_DATABASE"
          ∷ codes "MYSQL_ALLOW_EMPTY_PASSWORD"
          ∷ [],
    )
    ∷ (
      codes "mariadb",
      codes "MYSQL_USER"
          ∷ codes "MYSQL_PASSWORD"
          ∷ codes "MYSQL_ROOT_PASSWORD"
          ∷ codes "MYSQL_DATABASE"
          ∷ codes "MARIADB_USER"
          ∷ codes "MARIADB_PASSWORD"
          ∷ codes "MARIADB_ROOT_PASSWORD"
          ∷ codes "MARIADB_DATABASE"
          ∷ [],
    )
    ∷ (
      codes "mongodb",
      codes "MONGO_INITDB_ROOT_USERNAME"
          ∷ codes "MONGO_INITDB_ROOT_PASSWORD"
          ∷ codes "MONGO_INITDB_DATABASE"
          ∷ [],
    )
    ∷ (codes "redis", codes "REDIS_PASSWORD" ∷ codes "REDIS_USERNAME" ∷ [])
    ∷ []

unfoldable pub all_keys : List (Bytes × List Bytes) → List Bytes
all_keys [] = []
all_keys ((db_type, ks) ∷ rest) = ks ++ all_keys rest

-- `envHintAllowSet`
unfoldable pub env_hint_allow_set : List Bytes
unfolding all_keys
env_hint_allow_set = all_keys env_hint_keys_by_db_type

unfoldable pub member : Bytes → List Bytes → Bool
member k [] = false
member k (x ∷ xs) = x === k || member k xs

-- The name in `KEY=VALUE`, where it is not empty.
unfoldable pub env_key : Bytes → Option Bytes
env_key e = elim (cut_at 61 e) [
  | none ↦ none
  | some (key, value) ↦ if is_empty key then none else some key
]

-- One turn of the loop of `filterEnv`.
unfoldable pub add_hint : Bytes → List (Bytes × Bytes) → List (Bytes × Bytes)
add_hint e hints = elim (env_key e) [
  | none ↦ hints
  | some key ↦ if member key env_hint_allow_set then assign key (codes "set") hints else hints
]

unfoldable pub add_hints : List Bytes → List (Bytes × Bytes) → List (Bytes × Bytes)
add_hints [] hints = hints
add_hints (e ∷ es) hints = add_hints es (add_hint e hints)

-- `filterEnv`
unfoldable pub filter_env : List Bytes → List (Bytes × Bytes)
filter_env env = add_hints env []
