-- ===== src/EndToEnd/Databases.antt =====
-- The agent with the drivers that it registers (apps/agent/cmd/agent/run.go), from the database tool to the
-- restored dump.
use backupy_agent.Prelude.{
  ℕ, ◌^◌, ◌<◌, ◌≡◌, refl, arith, Option-cases, inl, inr, sym, ◌∙◌, ap, ap₂, ok-injective, false,
  Option, none, some, List, [], ◌∷◌, length, ok,
}
use backupy_agent.Prelude.Bytes.{Bytes, ◌===◌}
use backupy_agent.Io.{Fault}
use backupy_agent.Cipher.{Aead, IsGcm, IsRandom}
use backupy_agent.Pipeline.Request.{
  postgresql, Target, JobSpec, UploadCreds, Driver, RunBackup, BackupCompleted, World,
}
use backupy_agent.Pipeline.Runner.Runs.{Delivered, run_delivers}
use backupy_agent.Pipeline.Runner.Uploads.{Complete}
use backupy_agent.Pipeline.Runner.{prepare, resolve, db_type_key, run}
use backupy_agent.Decrypt.Run.{Host, Options, run_tool, returned}
use backupy_agent.Drivers.Command.{Connection, Command, exec, CmdRunner, DriverError}
use backupy_agent.Drivers.PgDump.{pg_dump_command, pg_validate}
use backupy_agent.Drivers.PgDump.Asking.{Asks, pg_dump_command-Asks}
use backupy_agent.Drivers.Registry.{
  pg_tool, driver_of, dump_stream, checked, connection_of, registry,
}
use backupy_agent.EndToEnd.Backup.{prepare_found}
use backupy_agent.EndToEnd.Restore.{Serves, Issued, run_tool-run}

module _ (r : CmdRunner) (decode : Bytes → Connection) (fault_of : DriverError → Fault)
    (closed : Target → Option Fault) where
  registry-postgresql :
      (redis sqlite : Driver)
      → registry r decode fault_of closed redis sqlite (db_type_key postgresql)
        ≡ some (driver_of r decode fault_of closed pg_tool)
  unfolding registry db_type_key ◌===◌
  registry-postgresql redis sqlite = refl

  -- What the driver of PostgreSQL dumps is what pg_dump prints.
  pg_dumped :
      (t : Target) {raw : Bytes}
      → t.connection ≡ some raw
      → ((driver_of r decode fault_of closed pg_tool).dump t).bytes
        ≡ (r.run_stream
            (length (pg_validate r (some (decode raw)) []).1)
            (pg_dump_command (decode raw))).bytes
  unfolding driver_of dump_stream checked connection_of
  pg_dumped t {raw} connected = rw (connected) refl

  -- It ends without an error only if pg_dump does.
  pg_ended :
      (t : Target) {raw : Bytes}
      → t.connection ≡ some raw
      → ((driver_of r decode fault_of closed pg_tool).dump t).ends ≡ none
      → (r.run_stream
          (length (pg_validate r (some (decode raw)) []).1)
          (pg_dump_command (decode raw))).ends
        ≡ none
  unfolding driver_of dump_stream checked connection_of
  pg_ended t {raw} connected h =
      let s =
        r.run_stream (length (pg_validate r (some (decode raw)) []).1)
          (pg_dump_command (decode raw)) in
      elim (Option-cases s.ends) [
        | inl whole ↦ whole
        | inr (e, cut) ↦
            let failed : ((driver_of r decode fault_of closed pg_tool).dump t).ends
                ≡ some (fault_of (exec e)) =
              rw (connected, cut) refl in
            absurd (ground arith)
      ]

module _ (w : World) (h : Host) (opts : Options) (r : CmdRunner) (decode : Bytes → Connection)
    (fault_of : DriverError → Fault) (closed : Target → Option Fault) (redis sqlite : Driver) where
  -- A run of a job on a PostgreSQL target is prepared with that target and the registered driver.
  pg_prepared :
      (req : RunBackup) (job : Option JobSpec) (t : Target) {creds : UploadCreds}
      {job' : Option JobSpec} {t' : Target} {d : Driver} {aead : Option Aead}
      → w.drivers ≡ registry r decode fault_of closed redis sqlite
      → resolve w req ≡ ok (job, t)
      → t.db_type ≡ postgresql
      → prepare w req ≡ ok (creds, job', t', d, aead)
      → (t ≡ t') × (driver_of r decode fault_of closed pg_tool ≡ d)
  pg_prepared req job t {creds} {job'} {t'} {d} {aead} registered resolved is_pg prepared =
      let (made, found, known) = prepare_found w req prepared in
      let same_target : t ≡ t' =
        ap (λ (x : Option JobSpec × Target). x.1) (ok-injective refl refl (sym resolved ∙ found)) in
      let pg = driver_of r decode fault_of closed pg_tool in
      let key = db_type_key postgresql in
      let chosen : some pg ≡ some d =
        sym (registry-postgresql r decode fault_of closed redis sqlite)
        ∙ ap (λ (f : Bytes → Option Driver). f key) (sym registered)
        ∙ ap (λ x. w.drivers (db_type_key x)) (sym is_pg)
        ∙ ap (λ (x : Target). w.drivers (db_type_key x.db_type)) same_target
        ∙ known in
      (same_target, ap (λ (o : Option Driver). elim o [ none ↦ pg | some x ↦ x ]) chosen)

  -- With the drivers that the agent registers: when a run with a key of a job on a PostgreSQL target is
  -- reported as a success, the tool, given the uploaded body and a token with the unwrapped key and
  -- the reported hash, succeeds, and the output file holds just what one command has printed in the run
  -- behind those of the check: pg_dump, called for the host, the port, the user and the database of
  -- the target's connection, where they are set, with its password in the environment. That command has
  -- ended without an error. The port is a 32-bit number.
  pub run_tool-registry :
      (fresh : IsRandom w.rand) (gcms : (dek : Bytes) → IsGcm (w.gcm dek)) (schedule : List ℕ)
      (req : RunBackup) (done : BackupCompleted) (dek url body raw : Bytes) (job : Option JobSpec)
      (t : Target)
      → w.drivers ≡ registry r decode fault_of closed redis sqlite
      → resolve w req ≡ ok (job, t)
      → t.db_type ≡ postgresql
      → t.connection ≡ some raw
      → (decode raw).port < 2 ^ 32
      → 0 < length req.encrypted_dek
      → (run w schedule (some req)).0 ≡ ok done
      → w.unwrap req.encrypted_dek ≡ ok dek
      → (run w schedule (some req)).1.puts ≡ (url, body) ∷ []
      → Serves w body h
      → Issued h opts.token dek done
      → opts.skip_decompress ≡ false
      → (cmd : Command) × Asks (decode raw) cmd
        × ((r.run_stream (length (pg_validate r (some (decode raw)) []).1) cmd).ends ≡ none)
        × (run_tool h opts ≡ record {
          outcome = returned (ok tt);
          file = some (r.run_stream (length (pg_validate r (some (decode raw)) []).1) cmd).bytes;
        })
  unfolding Delivered Complete
  run_tool-registry fresh gcms schedule req done dek url body raw job t registered resolved is_pg
        connected narrow keyed success unwrapped one serves issued unzip =
      let (creds, job', t', d, aead, prepared, restored) =
        run_tool-run w h opts fresh gcms schedule req done dek url body keyed success unwrapped one
          serves issued unzip in
      let (same_target, same_driver) = pg_prepared req job t registered resolved is_pg prepared in
      let (
        creds2, job2, t2, d2, aead2, body2, prepared2, put2, complete2, answer2, job_id, run_id,
        s3_key, wrapped, compression, engine, sha, size,
      ) =
        run_delivers w schedule req done success in
      let (same_target2, same_driver2) =
        pg_prepared req job t registered resolved is_pg prepared2 in
      let printed = pg_dumped r decode fault_of closed t connected in
      let ended =
        ap₂ (λ (x : Driver) (y : Target). (x.dump y).ends) same_driver2 same_target2
        ∙ complete2.0 in
      (
        pg_dump_command (decode raw),
        pg_dump_command-Asks (decode raw) narrow,
        pg_ended r decode fault_of closed t connected ended,
        restored
            ∙ ap (λ b. record { outcome = returned (ok tt); file = some b })
                (ap₂ (λ (x : Driver) (y : Target). (x.dump y).bytes) (sym same_driver)
                    (sym same_target)
                  ∙ printed),
      )
