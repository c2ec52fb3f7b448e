-- ===== src/Discovery/Images.antt =====
-- Image names, in apps/agent/internal/discovery/docker.go.
pub mod Matching
use backupy_agent.Prelude.{
  ℕ, Bool, true, false, not, ◌&&◌, ◌||◌, Option, none, some, List, [], ◌∷◌, ◌++◌, length, drop, leb,
  ◌==◌, if◌then◌else◌,
}
use backupy_agent.Prelude.Bytes.{Bytes, codes, is_empty, ◌===◌}
use backupy_agent.Prelude.Strings.{to_lower, trim_space, has_prefix, contains_byte, cut_at}

-- `dbTypeByImagePrefix`
abbrev pub db_type_by_image_prefix : List (Bytes × Bytes)
db_type_by_image_prefix =
    (codes "postgres", codes "postgresql")
    ∷ (codes "postgis/postgis", codes "postgresql")
    ∷ (codes "timescale/timescaledb", codes "postgresql")
    ∷ (codes "bitnami/postgresql", codes "postgresql")
    ∷ (codes "mariadb", codes "mariadb")
    ∷ (codes "bitnami/mariadb", codes "mariadb")
    ∷ (codes "mysql", codes "mysql")
    ∷ (codes "percona", codes "mysql")
    ∷ (codes "bitnami/mysql", codes "mysql")
    ∷ (codes "mongo", codes "mongodb")
    ∷ (codes "bitnami/mongodb", codes "mongodb")
    ∷ (codes "redis", codes "redis")
    ∷ (codes "bitnami/redis", codes "redis")
    ∷ []

-- `s = s[:at]` with the index of the first "@".
unfoldable pub drop_digest : Bytes → Bytes
drop_digest s = elim (cut_at 64 s) [ none ↦ s | some (image, digest) ↦ image ]

-- The first segment goes if it is not empty and has a dot or a colon.
unfoldable pub strip_host : Bytes → Bytes
strip_host s = elim (cut_at 47 s) [
  | none ↦ s
  | some (first, rest) ↦
      if not (is_empty first) && (contains_byte 46 first || contains_byte 58 first) then rest else s
]

-- `normaliseImage`
unfoldable pub normalise_image : Bytes → Bytes
normalise_image image = strip_host (drop_digest (to_lower (trim_space image)))

abbrev pub is_digit : ℕ → Bool
is_digit c = leb 48 c && leb c 57

unfoldable pub all_digits : Bytes → Bool
all_digits [] = true
all_digits (c ∷ cs) = is_digit c && all_digits cs

-- `isAlnumExtension`
unfoldable pub is_alnum_extension : Bytes → Bytes → Bool
is_alnum_extension prefix rest =
    if prefix === codes "postgres"
    then rest === codes "ql"
    else (if prefix === codes "mysql" then all_digits rest && not (is_empty rest) else false)

-- `rest == "" || rest[0] == ':' || rest[0] == '/'`
unfoldable pub ends_name : Bytes → Bool
ends_name [] = true
ends_name (c ∷ cs) = c == 58 || c == 47

unfoldable pub rule_matches : Bytes → Bytes → Bool
rule_matches prefix norm =
    (norm === prefix
      || (has_prefix norm (prefix ++ codes ":") || has_prefix norm (prefix ++ codes "/")))
    || (not (contains_byte 47 prefix)
        && (has_prefix norm prefix
            && (ends_name (drop (length prefix) norm)
                || is_alnum_extension prefix (drop (length prefix) norm))))

unfoldable pub first_rule : List (Bytes × Bytes) → Bytes → Bytes
first_rule [] norm = []
first_rule ((prefix, db_type) ∷ rules) norm =
    if rule_matches prefix norm then db_type else first_rule rules norm

-- `detectDBType`
unfoldable pub detect_db_type : Bytes → Bytes
detect_db_type image = first_rule db_type_by_image_prefix (normalise_image image)
