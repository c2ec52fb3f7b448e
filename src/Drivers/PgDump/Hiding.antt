-- ===== src/Drivers/PgDump/Hiding.antt =====
-- The command lines of the driver of apps/agent/internal/pipeline/pg_dump.go.
use backupy_agent.Prelude.{
  ◌≡◌, ◌⊎◌, refl, Bool-cases, inl, inr, some, [], ◌∷◌, Result-cases, Option-cases, arith, All,
}
use backupy_agent.Prelude.Bytes.{codes}
use backupy_agent.Prelude.Strings.{to_lower, contains}
use backupy_agent.Drivers.Command.{
  Connection, Command, CmdRunner, version_command, output, run_stream, probe_version, stream_error,
  dump_with,
}
use backupy_agent.Drivers.PgDump.{
  pg_dump, pg_conn_args, pg_smoke_command, pg_dump_command, pg_validate, pg_run_dump,
}

-- The same connection without its password.
abbrev pub cleared : Connection → Connection
cleared c = record c { password_secret_ref = [] }

-- A command line of the driver, written down without the password.
abbrev pub IsPublic : Connection → Command → Type 0
IsPublic c cmd =
    (cmd.args ≡ codes "--version" ∷ [])
    ⊎ (cmd.args ≡ (pg_smoke_command (cleared c)).args)
    ⊎ (cmd.args ≡ (pg_dump_command (cleared c)).args)

module _ (r : CmdRunner) (c : Connection) where
  abbrev asked : Command
  asked = version_command pg_dump

  validate_trace :
      ((pg_validate r (some c) []).1 ≡ asked ∷ [])
      ⊎ ((pg_validate r (some c) []).1 ≡ asked ∷ pg_smoke_command c ∷ [])
  unfolding pg_validate probe_version output
  validate_trace = elim (Result-cases (r.output 0 asked)) [
    | inr (e, bad) ↦ inl (ground arith)
    | inl (out, good) ↦ elim (Bool-cases (contains (to_lower out) pg_dump)) [
      | inr other ↦ inl (ground arith)
      | inl named ↦ elim (Result-cases (r.output 1 (pg_smoke_command c))) [
        | inr (e, bad) ↦ inr (ground arith)
        | inl (o, fine) ↦ inr (ground arith)
      ]
    ]
  ]

  dump_trace :
      ((pg_run_dump r (some c) []).1 ≡ pg_dump_command c ∷ [])
      ⊎ ((pg_run_dump r (some c) []).1 ≡ pg_dump_command c ∷ asked ∷ [])
  unfolding pg_run_dump dump_with run_stream output stream_error pg_dump_command
  dump_trace = elim (Option-cases (r.run_stream 0 (pg_dump_command c)).ends) [
    | inr (e, bad) ↦ inl (ground arith)
    | inl whole ↦ inr (ground arith)
  ]

  smoke-IsPublic : IsPublic c (pg_smoke_command c)
  unfolding pg_smoke_command pg_conn_args
  smoke-IsPublic = inr (inl refl)

  dump-IsPublic : IsPublic c (pg_dump_command c)
  unfolding pg_dump_command pg_conn_args
  dump-IsPublic = inr (inr refl)

  -- The password of a PostgreSQL target is on no command line: whatever the commands answer, each
  -- that the driver's check and its dump run has arguments that are those of the connection without
  -- its password.
  pub pg_commands-IsPublic :
      All (IsPublic c) (pg_validate r (some c) []).1
      × All (IsPublic c) (pg_run_dump r (some c) []).1
  pg_commands-IsPublic = (
    elim validate_trace [
      | inl one ↦ rw one (inl refl, tt)
      | inr two ↦ rw two (inl refl, (smoke-IsPublic, tt))
    ],
    elim dump_trace [
      | inl one ↦ rw one (dump-IsPublic, tt)
      | inr two ↦ rw two (dump-IsPublic, (inl refl, tt))
    ],
  )
