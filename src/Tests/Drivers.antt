-- ===== src/Tests/Drivers.antt =====
-- The drivers against servers that always answer alike.
use backupy_agent.Prelude.{
  ℕ, ◌*◌, ◌==◌, if◌then◌else◌, ◌≡◌, ◌≢◌, refl, none, some, [], ◌∷◌, ◌++◌, ok, err, All, arith,
}
use backupy_agent.Prelude.Bytes.{Bytes, codes, ◌===◌}
use backupy_agent.Prelude.Int.{pos}
use backupy_agent.Prelude.Numbers.{parse_int}
use backupy_agent.Prelude.Strings.{
  trim_space, trim_left_space, trim_right_space, split, has_prefix, equal_fold, after, trim_prefix,
}
use backupy_agent.Drivers.Command.{Connection, CmdRunner, Dumped, out_of_fuel, output, stream_error}
use backupy_agent.Drivers.PgDump.{pg_validate, pg_run_dump, parse_pg_dump_version}
use backupy_agent.Drivers.PgDump.Hiding.{IsPublic, pg_commands-IsPublic}
use backupy_agent.Drivers.Redis.{
  Machine, redis_conn_args, redis_command, last_save_command, last_save, read_timestamp, bgsave,
  wait_loop, wait_for_save, config, last_value, stream_snapshot, stream_file, server_version,
  version_of, version_line, redis_run_dump,
}
use backupy_agent.Drivers.Redis.Waiting.{IsSteady, wait_for_save_ends}
use backupy_agent.Drivers.Redis.Snapshot.{Fresh, redis_run_dump-Fresh}

abbrev pub a_connection : Connection
a_connection = record {
  host = codes "db";
  port = 5432;
  username = codes "u";
  password_secret_ref = codes "secret";
  database = codes "d";
}

abbrev pub a_runner : CmdRunner
a_runner = record {
  output = λ k c. ok (codes "pg_dump (PostgreSQL) 16.2");
  run_stream = λ k c. record { bytes = codes "PGDMP"; ends = none };
}

pg_commands-IsPublic_example :
    All (IsPublic a_connection) (pg_validate a_runner (some a_connection) []).1
    × All (IsPublic a_connection) (pg_run_dump a_runner (some a_connection) []).1
pg_commands-IsPublic_example = pg_commands-IsPublic a_runner a_connection

version_16 : parse_pg_dump_version (codes "pg_dump (PostgreSQL) 16.2 ") ≡ codes "PostgreSQL 16.2"
unfolding parse_pg_dump_version trim_space trim_left_space trim_right_space after ◌===◌
version_16 = refl

v_filled : codes "10.19" ≢ []
v_filled h = absurd (ground arith)

-- LASTSAVE is answered by 5, then by 5 again, then by 6.
abbrev answers : ℕ → Bytes
answers k =
    if k == 0
    then codes "5"
    else (if k == 1
        then codes "Background saving started"
        else (if k == 2
            then codes "5"
            else (if k == 3
                then codes "6"
                else (if k == 4 then codes "/data" else codes "dump.rdb"))))

abbrev a_machine : Machine
a_machine = record {
  runner = record {
    output = λ k c. ok (answers k);
    run_stream = λ k c. record { bytes = []; ends = none };
  };
  now = λ k. k * 250;
  ctx = λ k. none;
  select = λ k. none;
  join_path = λ a b. a ++ (47 ∷ b);
  file_open = λ p. ok (record { bytes = codes "REDIS"; ends = none });
  tar_gz = λ n f. record f { bytes = 31 ∷ 139 ∷ f.bytes };
}

abbrev a_dump : Dumped
a_dump = record {
  stream = record { bytes = 31 ∷ 139 ∷ codes "REDIS"; ends = none };
  engine_version = codes "Redis";
}

redis_dumps : (redis_run_dump a_machine (some a_connection) []).0 ≡ ok a_dump
unfolding redis_run_dump redis_conn_args redis_command last_save_command last_save read_timestamp
    bgsave wait_loop wait_for_save config last_value stream_snapshot stream_file server_version
    version_of version_line output stream_error trim_space trim_left_space trim_right_space split
    has_prefix equal_fold ◌===◌ parse_int trim_prefix
redis_dumps = refl

redis_run_dump-Fresh_example : Fresh a_machine a_connection a_dump
redis_run_dump-Fresh_example = redis_run_dump-Fresh a_machine a_connection a_dump redis_dumps

steady : IsSteady a_machine.now
steady k = omega arith

wait_for_save_ends_example :
    (wait_for_save a_machine (redis_conn_args a_connection) (pos 5) []).0 ≢ err out_of_fuel
wait_for_save_ends_example =
    wait_for_save_ends a_machine (redis_conn_args a_connection) (pos 5) steady []
