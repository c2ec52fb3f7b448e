-- ===== src/Pipeline/Runner/Runs.antt =====
-- What the outcome of `Run` says of the upload, and of the hooks.
use backupy_agent.Prelude.{
  ℕ, suc, ◌/◌, ◌≡◌, ◌⊎◌, refl, sym, ◌∙◌, ap, subst, Bool-cases, Option-cases, inl, inr, Option,
  none, some, List, [], ◌∷◌, ◌++◌, length, leb, Result, ok, err, ◌>>=◌, Result-cases, arith,
}
use backupy_agent.Prelude.Bytes.{Bytes, codes}
use backupy_agent.Prelude.Int.{pos}
use backupy_agent.Cipher.{Aead}
use backupy_agent.Pipeline.Hooks.{new_hook_set, run_in_set, hooks_max_count}
use backupy_agent.Pipeline.Request.{
  Target, JobSpec, UploadCreds, RunBackup, BackupCompleted, Driver, RunError, World, Trace,
}
use backupy_agent.Pipeline.Stages.{run_stages}
use backupy_agent.Pipeline.Runner.{
  run_pre_hooks, run_post_hooks, completed_of, run_hooked, prepare, run,
}
use backupy_agent.Pipeline.Runner.Uploads.{Complete, run_stages_puts, run_stages_ok}

ok-injective : {A : Type 0} {a b : A} (p : Result RunError A) → p ≡ ok a → p ≡ ok b → a ≡ b
ok-injective p h k = ground arith

module _ (w : World) where
  -- No PUT, or one, to the URL of the request, of a body made of all that the driver which the run was
  -- prepared with has dumped of its target.
  unfoldable pub CompleteUploads : Option RunBackup → List (Bytes × Bytes) → Type 0
  CompleteUploads none puts = puts ≡ []
  CompleteUploads (some req) puts =
      (puts ≡ [])
      ⊎ ((creds : UploadCreds) × (job : Option JobSpec) × (t : Target) × (d : Driver)
          × (aead : Option Aead) × (body : Bytes) × (prepare w req ≡ ok (creds, job, t, d, aead))
          × (puts ≡ (creds.presigned_put_url, body) ∷ [])
          × Complete w d t aead body)

  pub pre_hooks_puts :
      (i : ℕ) (cs : List Bytes) (tr : Trace) → (run_pre_hooks w i cs tr).1.puts ≡ tr.puts
  unfolding run_pre_hooks
  pre_hooks_puts i [] tr = refl
  pre_hooks_puts i (c ∷ cs) tr =
      let ((res, e), used) = run_in_set w.shell c [] (pos 0) tr.consumed in
      let tr' : Trace = record tr { hooks = tr.hooks ++ (c ∷ []); consumed = used } in
      let ih = pre_hooks_puts (suc i) cs tr' in
      elim (Bool-cases (leb hooks_max_count i)) [
        | inl over ↦ rw (run_pre_hooks, over) refl
        | inr room ↦ elim (Option-cases e) [
          | inl fine ↦ rw (run_pre_hooks, room, fine) ih
          | inr (x, bad) ↦ rw (run_pre_hooks, room, bad) refl
        ]
      ]

  post_hooks_puts :
      (i : ℕ) (cs : List Bytes) (tr : Trace) → (run_post_hooks w i cs tr).puts ≡ tr.puts
  unfolding run_post_hooks
  post_hooks_puts i [] tr = refl
  post_hooks_puts i (c ∷ cs) tr =
      let (res, used) = run_in_set w.shell c [] (pos 0) tr.consumed in
      let tr' : Trace = record tr { hooks = tr.hooks ++ (c ∷ []); consumed = used } in
      let ih = post_hooks_puts (suc i) cs tr' in
      elim (Bool-cases (leb hooks_max_count i)) [
        | inl over ↦ rw (run_post_hooks, over) refl
        | inr room ↦ rw (run_post_hooks, room) ih
      ]

  run_hooked_puts :
      (schedule : List ℕ) (req : RunBackup) (creds : UploadCreds) (job : Option JobSpec)
      (t : Target) (d : Driver) (aead : Option Aead)
      → prepare w req ≡ ok (creds, job, t, d, aead)
      → CompleteUploads (some req) (run_hooked w schedule req creds job t d aead).1.puts
  unfolding run_hooked CompleteUploads
  run_hooked_puts schedule req creds job t d aead found =
      let pre : List Bytes = elim job [ none ↦ [] | some j ↦ j.pre_hooks ] in
      let post : List Bytes = elim job [ none ↦ [] | some j ↦ j.post_hooks ] in
      let nothing : Trace = record { puts = []; hooks = []; consumed = new_hook_set } in
      let (failed, tr) = run_pre_hooks w 0 pre nothing in
      let (result, requests) = run_stages w schedule d t aead creds.presigned_put_url in
      elim (Option-cases failed) [
        | inr (e, bad) ↦ inl (rw (run_hooked, bad) (pre_hooks_puts 0 pre nothing))
        | inl fine ↦
            let kept = post_hooks_puts 0 post (record tr { puts = requests }) in
            elim (run_stages_puts w schedule d t aead creds.presigned_put_url) [
              | inl no_puts ↦ inl (rw (run_hooked, fine) (kept ∙ no_puts))
              | inr (body, one, whole) ↦
                  inr
                    (creds, job, t, d, aead, body, found, rw (run_hooked, fine) (kept ∙ one), whole)
            ]
      ]

  -- Whatever fails, and in whatever order the stages report, a run makes no PUT, or one to the URL of the
  -- request, of a body made of the whole of a dump that succeeded and passed the check of its header:
  -- the dump by the driver, and of the target, that the run was prepared with. A dump, a check or a
  -- stage that fails never leaves a cut upload.
  pub run_puts :
      (schedule : List ℕ) (req : Option RunBackup) → CompleteUploads req (run w schedule req).1.puts
  unfolding run CompleteUploads
  run_puts schedule none = refl
  run_puts schedule (some req) = elim (Result-cases (prepare w req)) [
    | inr (e, bad) ↦ inl (rw (run, bad) refl)
    | inl ((creds, job, t, d, aead), found) ↦
        let goes : run w schedule (some req) ≡ run_hooked w schedule req creds job t d aead =
          rw (run, found) refl in
        subst (λ (p : Result RunError BackupCompleted × Trace). CompleteUploads (some req) p.1.puts)
          (sym goes) (run_hooked_puts schedule req creds job t d aead found)
  ]

  -- What a successful run reports and has done.
  unfoldable pub Delivered : RunBackup → BackupCompleted → Trace → Type 0
  Delivered req done tr =
      (creds : UploadCreds) × (job : Option JobSpec) × (t : Target) × (d : Driver) × (aead : Option
        Aead)
      × (body : Bytes) × (prepare w req ≡ ok (creds, job, t, d, aead))
      × (tr.puts ≡ (creds.presigned_put_url, body) ∷ [])
      × Complete w d t aead body
      × ((status : ℕ) × (w.http creds.presigned_put_url body ≡ ok status) × (status / 100 ≡ 2))
      × (done.job_id ≡ req.job_id)
      × (done.run_id ≡ req.run_id)
      × (done.s3_key ≡ creds.final_s3_key)
      × (done.encrypted_dek ≡ req.encrypted_dek)
      × (done.compression ≡ codes "zstd")
      × (done.db_engine_version ≡ d.engine_version t)
      × (done.sha256 ≡ w.hex_sha256 body)
      × (done.size_bytes ≡ length body)

  run_hooked_delivers :
      (schedule : List ℕ) (req : RunBackup) (creds : UploadCreds) (job : Option JobSpec)
      (t : Target) (d : Driver) (aead : Option Aead) (done : BackupCompleted)
      → prepare w req ≡ ok (creds, job, t, d, aead)
      → (run_hooked w schedule req creds job t d aead).0 ≡ ok done
      → Delivered req done (run_hooked w schedule req creds job t d aead).1
  unfolding run_hooked Delivered completed_of
  run_hooked_delivers schedule req creds job t d aead done found h =
      let pre : List Bytes = elim job [ none ↦ [] | some j ↦ j.pre_hooks ] in
      let post : List Bytes = elim job [ none ↦ [] | some j ↦ j.post_hooks ] in
      let nothing : Trace = record { puts = []; hooks = []; consumed = new_hook_set } in
      let (failed, tr) = run_pre_hooks w 0 pre nothing in
      let (result, requests) = run_stages w schedule d t aead creds.presigned_put_url in
      elim (Option-cases failed) [
        | inr (e, bad) ↦
            let stops : (run_hooked w schedule req creds job t d aead).0 ≡ err e =
              rw (run_hooked, bad) refl in
            absurd (ground arith)
        | inl fine ↦
            let goes : (run_hooked w schedule req creds job t d aead).0
                ≡ (result >>= λ up. ok (completed_of req creds (d.engine_version t) up)) =
              rw (run_hooked, fine) refl in
            let kept = post_hooks_puts 0 post (record tr { puts = requests }) in
            elim (Result-cases result) [
              | inr (e, bad) ↦
                  let stops : (result >>= λ up. ok (completed_of req creds (d.engine_version t) up))
                      ≡ err e =
                    rw bad refl in
                  absurd (ground arith)
              | inl ((sha, size), good) ↦
                  let (body, one, whole, sha_of, size_of, answer, none_failed) =
                    run_stages_ok w schedule d t aead creds.presigned_put_url sha size good in
                  let ends : (result >>= λ up. ok (completed_of req creds (d.engine_version t) up))
                      ≡ ok (completed_of req creds (d.engine_version t) (sha, size)) =
                    rw good refl in
                  let is_done : done ≡ completed_of req creds (d.engine_version t) (sha, size) =
                    ok-injective _ h (goes ∙ ends) in
                  (
                    creds,
                    job,
                    t,
                    d,
                    aead,
                    body,
                    found,
                    rw (run_hooked, fine) (kept ∙ one),
                    whole,
                    answer,
                    ap (λ (r : BackupCompleted). r.job_id) is_done,
                    ap (λ (r : BackupCompleted). r.run_id) is_done,
                    ap (λ (r : BackupCompleted). r.s3_key) is_done,
                    ap (λ (r : BackupCompleted). r.encrypted_dek) is_done,
                    ap (λ (r : BackupCompleted). r.compression) is_done,
                    ap (λ (r : BackupCompleted). r.db_engine_version) is_done,
                    ap (λ (r : BackupCompleted). r.sha256) is_done ∙ sha_of,
                    ap (λ (r : BackupCompleted). r.size_bytes) is_done ∙ size_of,
                  )
            ]
      ]

  -- A run that reports success has made one PUT, to the URL of the request, of a body made of the whole
  -- dump by the driver and of the target that it was prepared with, and the server has answered 2xx; the
  -- report has the job id, the run id and the wrapped key of the request, the storage key of its
  -- credentials, "zstd", the engine version, and the hash and the size of that body.
  pub run_delivers :
      (schedule : List ℕ) (req : RunBackup) (done : BackupCompleted)
      → (run w schedule (some req)).0 ≡ ok done
      → Delivered req done (run w schedule (some req)).1
  unfolding run
  run_delivers schedule req done h = elim (Result-cases (prepare w req)) [
    | inr (e, bad) ↦
        let stops : (run w schedule (some req)).0 ≡ err e = rw (run, bad) refl in
        absurd (ground arith)
    | inl ((creds, job, t, d, aead), found) ↦
        let goes : run w schedule (some req) ≡ run_hooked w schedule req creds job t d aead =
          rw (run, found) refl in
        rw goes (
          run_hooked_delivers schedule req creds job t d aead done found
            (sym (ap (λ (p : Result RunError BackupCompleted × Trace). p.0) goes) ∙ h))
  ]
