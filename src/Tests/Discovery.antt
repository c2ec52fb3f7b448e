-- ===== src/Tests/Discovery.antt =====
-- Scans of small daemons.
use backupy_agent.Prelude.{
  ◌≡◌, refl, true, not, ◌&&◌, none, some, List, [], ◌∷◌, leb, if◌then◌else◌, ok,
}
use backupy_agent.Prelude.Bytes.{Bytes, codes, is_empty, ◌===◌}
use backupy_agent.Prelude.Strings.{
  to_lower, trim_space, trim_left_space, trim_right_space, has_prefix, contains_byte, cut_at,
}
use backupy_agent.Prelude.Maps.{find_key, assign}
use backupy_agent.Discovery.Images.{
  detect_db_type, first_rule, rule_matches, ends_name, is_alnum_extension, all_digits,
  normalise_image, strip_host, drop_digest,
}
use backupy_agent.Discovery.Images.{db_type_by_image_prefix}
use backupy_agent.Discovery.Images.Matching.{Decided, detect_db_type-Decided}
use backupy_agent.Discovery.Ports.{parse_port, parse_digits}
use backupy_agent.Discovery.Ports.Reading.{value_from, parse_port-value_from}
use backupy_agent.Discovery.Env.{
  env_hint_allow_set, member, env_key, add_hint, add_hints, filter_env,
}
use backupy_agent.Discovery.Env.Hiding.{mentions, find_key-filter_env}
use backupy_agent.Discovery.Scan.{
  ListEntry, Inspect, Daemon, scan, list_containers, inspect_container, request, check_status,
  check_found,
}
use backupy_agent.Discovery.Scan.Blinding.{blind, blind_answer, scan_blind}

host_and_tag : detect_db_type (codes " ghcr.io/Postgres:16@sha256:ab ") ≡ codes "postgresql"
unfolding detect_db_type first_rule rule_matches ends_name is_alnum_extension normalise_image
    strip_host drop_digest to_lower trim_space trim_left_space trim_right_space has_prefix
    contains_byte cut_at ◌===◌
host_and_tag = refl

exporter : detect_db_type (codes "prom/mysqld-exporter") ≡ []
unfolding detect_db_type first_rule rule_matches ends_name is_alnum_extension normalise_image
    strip_host drop_digest to_lower trim_space trim_left_space trim_right_space has_prefix
    contains_byte cut_at ◌===◌ all_digits
exporter = refl

-- An image of MongoDB that is taken for MySQL.
percona_mongo : detect_db_type (codes "percona/percona-server-mongodb:7.0") ≡ codes "mysql"
unfolding detect_db_type first_rule rule_matches ends_name is_alnum_extension normalise_image
    strip_host drop_digest to_lower trim_space trim_left_space trim_right_space has_prefix
    contains_byte cut_at ◌===◌ all_digits
percona_mongo = refl

parse_port-value_from_example : parse_port (codes "05432") ≡ (
    if not (is_empty (codes "05432"))
      && (all_digits (codes "05432") && leb (value_from 0 (codes "05432")) 65535)
    then value_from 0 (codes "05432")
    else 0)
parse_port-value_from_example = parse_port-value_from (codes "05432")

some_port : parse_port (codes "05432") ≡ 5432
unfolding parse_port parse_digits
some_port = refl

abbrev some_ports : List (Bytes × List Bytes)
some_ports = (codes "5432/tcp", codes "15432" ∷ []) ∷ (codes "99999", []) ∷ []

abbrev an_env : List Bytes
an_env = codes "PATH=/bin" ∷ codes "PGPASSWORD=secret" ∷ []

find_key-filter_env_example : find_key (codes "PGPASSWORD") (filter_env an_env) ≡ (
    if member (codes "PGPASSWORD") env_hint_allow_set && mentions (codes "PGPASSWORD") an_env
    then some (codes "set")
    else none)
find_key-filter_env_example = find_key-filter_env (codes "PGPASSWORD") an_env

an_env_hints : filter_env an_env ≡ (codes "PGPASSWORD", codes "set") ∷ []
unfolding filter_env add_hints add_hint env_key cut_at member env_hint_allow_set assign ◌===◌
an_env_hints = refl

abbrev an_entry : ListEntry
an_entry = record {
  id = codes "1";
  names = codes "/db" ∷ [];
  image = codes "postgres:16";
  ports = [];
  networks = [];
}

abbrev details : List Bytes → Inspect
details env = record {
  id = codes "1";
  name = codes "/db";
  running = true;
  image = codes "postgres:16";
  env = env;
  networks = codes "bridge" ∷ [];
  ports = some_ports;
}

abbrev a_daemon : List Bytes → Daemon
a_daemon env = record {
  build = λ u. none;
  get = λ u. ok (record { status_code = 200; body = u });
  decode_list = λ b. ok (an_entry ∷ []);
  decode_inspect = λ b. ok (details env);
  path_escape = λ b. b;
}

abbrev other_env : List Bytes
other_env = codes "PATH=/usr" ∷ codes "PGPASSWORD=hidden" ∷ []

listed :
    list_containers (a_daemon an_env) (codes "http://d")
    ≡ list_containers (a_daemon other_env) (codes "http://d")
unfolding list_containers request check_status
listed = refl

alike :
    (id : Bytes)
    → blind_answer (inspect_container (a_daemon an_env) (codes "http://d") id)
      ≡ blind_answer (inspect_container (a_daemon other_env) (codes "http://d") id)
unfolding inspect_container request check_status check_found blind_answer blind env_key cut_at
alike id = refl

scan_blind_example :
    scan (a_daemon an_env) (codes "http://d") ≡ scan (a_daemon other_env) (codes "http://d")
scan_blind_example =
    scan_blind (a_daemon an_env) (a_daemon other_env) (codes "http://d") listed alike

detect_db_type-Decided_example :
    Decided
      (normalise_image (codes "mysql8"))
      db_type_by_image_prefix
      (detect_db_type (codes "mysql8"))
detect_db_type-Decided_example = detect_db_type-Decided (codes "mysql8")
