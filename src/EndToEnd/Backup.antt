-- ===== src/EndToEnd/Backup.antt =====
-- A whole run of the agent against the decrypt tool.
use backupy_agent.Prelude.{
  ℕ, ◌<◌, ◌≡◌, ◌∙◌, subst, Option-cases, inl, inr, Option, none, some, List, [], ◌∷◌, length, ok,
  Result-cases, arith, append-nil,
}
use backupy_agent.Prelude.Bytes.{Bytes}
use backupy_agent.Cipher.{Aead, IsGcm, IsRandom}
use backupy_agent.Pipeline.Encrypt.{new_encryptor}
use backupy_agent.Pipeline.Request.{
  Target, JobSpec, UploadCreds, RunBackup, BackupCompleted, Driver, World,
}
use backupy_agent.Pipeline.Runner.{
  encryptor_of, completed_of, checked_driver, check_creds, check_uploader, resolve, db_type_key,
  prepare, run,
}
use backupy_agent.Pipeline.Runner.Uploads.{Encrypted, Complete}
use backupy_agent.Pipeline.Runner.Runs.{Delivered, run_delivers}
use backupy_agent.Decrypt.Stream.{decrypt_stream}
use backupy_agent.EndToEnd.{upload, whole, sink, decrypt_stream-stream}

module _ (w : World) where
  encryptor_of-some :
      (key : Bytes) {e : Option Aead}
      → 0 < length key
      → encryptor_of w key ≡ ok e
      → (dek : Bytes) × (w.unwrap key ≡ ok dek) × (e ≡ some (w.gcm dek))
  unfolding encryptor_of new_encryptor
  encryptor_of-some [] pos h = absurd (omega arith)
  encryptor_of-some (b ∷ bs) pos h = elim (Result-cases (w.unwrap (b ∷ bs))) [
    | inr (x, bad) ↦ absurd (ground arith)
    | inl (dek, good) ↦ (dek, good, ground arith)
  ]

  encryptor_of_full :
      (key : Bytes) {e : Option Aead} {dek : Bytes}
      → 0 < length key
      → encryptor_of w key ≡ ok e
      → w.unwrap key ≡ ok dek
      → length dek ≡ 32
  unfolding encryptor_of new_encryptor
  encryptor_of_full [] pos h u = absurd (omega arith)
  encryptor_of_full (b ∷ bs) pos h u = ground arith

  checked_driver_found :
      (req : RunBackup) {job : Option JobSpec} {t : Target} {d : Driver} {e : Option Aead}
      → checked_driver w req ≡ ok (job, t, d, e)
      → (encryptor_of w req.encrypted_dek ≡ ok e)
        × (resolve w req ≡ ok (job, t))
        × (w.drivers (db_type_key t.db_type) ≡ some d)
  unfolding checked_driver
  checked_driver_found req h = elim (Result-cases (resolve w req)) [
    | inr (x, bad) ↦ absurd (ground arith)
    | inl ((job, t), found) ↦ elim (Option-cases (w.drivers (db_type_key t.db_type))) [
      | inl bad ↦ absurd (ground arith)
      | inr (d, known) ↦ elim (Result-cases (encryptor_of w req.encrypted_dek)) [
        | inr (x, bad) ↦ absurd (ground arith)
        | inl (e, made) ↦ elim (Option-cases (d.validate t)) [
          | inr (x, bad) ↦ absurd (ground arith)
          | inl valid ↦ ground arith
        ]
      ]
    ]
  ]

  pub prepare_found :
      (req : RunBackup) {creds : UploadCreds} {job : Option JobSpec} {t : Target} {d : Driver}
      {e : Option Aead}
      → prepare w req ≡ ok (creds, job, t, d, e)
      → (encryptor_of w req.encrypted_dek ≡ ok e)
        × (resolve w req ≡ ok (job, t))
        × (w.drivers (db_type_key t.db_type) ≡ some d)
  unfolding prepare
  prepare_found req h = elim (Result-cases (check_creds req.upload_creds)) [
    | inr (x, bad) ↦ absurd (ground arith)
    | inl (creds, good) ↦ elim (Result-cases (check_uploader w)) [
      | inr (x, bad) ↦ absurd (ground arith)
      | inl (u, fine) ↦ elim (Result-cases (checked_driver w req)) [
        | inr (x, bad) ↦ absurd (ground arith)
        | inl ((job, t, d, e), found) ↦ let key = checked_driver_found req found in ground arith
      ]
    ]
  ]

  -- The one body that a successful run with a key has put: what is reported of it, and what the tool
  -- makes of it.
  pub record Sealed (req : RunBackup) (done : BackupCompleted) (puts : List (Bytes × Bytes))
      : Type 0 where
    pub dek : Bytes
    pub from : Target
    pub by : Driver
    pub url : Bytes
    pub body : Bytes
    pub prepared :
        (creds : UploadCreds) × (job : Option JobSpec) × (aead : Option Aead) × (prepare w req
          ≡ ok (creds, job, from, by, aead))
    pub unwrapped : w.unwrap req.encrypted_dek ≡ ok dek
    pub full : length dek ≡ 32
    pub one : puts ≡ (url, body) ∷ []
    pub reported : done.sha256 ≡ w.hex_sha256 body
    pub accepted : (decrypt_stream (w.gcm dek) (λ _. none) (whole body) sink).0 ≡ ok tt
    pub wrote :
        (decrypt_stream (w.gcm dek) (λ _. none) (whole body) sink).1.out.written
        ≡ w.zstd (by.dump from).bytes
    pub hashed : (decrypt_stream (w.gcm dek) (λ _. none) (whole body) sink).1.hashed ≡ body

  pub run-Sealed :
      (fresh : IsRandom w.rand) (gcms : (dek : Bytes) → IsGcm (w.gcm dek)) (schedule : List ℕ)
      (req : RunBackup) (done : BackupCompleted)
      → 0 < length req.encrypted_dek
      → (run w schedule (some req)).0 ≡ ok done
      → Sealed req done (run w schedule (some req)).1.puts
  unfolding Delivered Complete Encrypted completed_of
  run-Sealed fresh gcms schedule req done keyed h =
      let (
        creds, job, t, d, e, body, found, one, complete, answer, job_id, run_id, s3_key, wrapped,
        compression, engine, sha, size,
      ) =
        run_delivers w schedule req done h in
      let (dek, unwrapped, made) =
        encryptor_of-some req.encrypted_dek keyed (prepare_found req found).0 in
      let plain = w.zstd (d.dump t).bytes in
      let sealed : Encrypted w (some (w.gcm dek)) plain body =
        subst (λ x. Encrypted w x plain body) made complete.2 in
      let (accepted, written, hashed, left) =
        decrypt_stream-stream (w.gcm dek) (gcms dek) w.rand fresh plain [] in
      let same = append-nil _ ∙ sealed.0 in
      let all_hashed =
        subst
          (λ b.
            (decrypt_stream (w.gcm dek) (λ _. none) (whole b) sink).1.hashed
            ≡ upload (w.gcm dek) (gcms dek) w.rand fresh plain)
          same hashed in
      record {
        dek = dek;
        from = t;
        by = d;
        url = creds.presigned_put_url;
        body = body;
        prepared = (creds, job, e, found);
        unwrapped = unwrapped;
        full = encryptor_of_full req.encrypted_dek keyed (prepare_found req found).0 unwrapped;
        one = one;
        reported = sha;
        accepted =
            subst (λ b. (decrypt_stream (w.gcm dek) (λ _. none) (whole b) sink).0 ≡ ok tt) same
              accepted;
        wrote =
            subst
              (λ b. (decrypt_stream (w.gcm dek) (λ _. none) (whole b) sink).1.out.written ≡ plain)
              same written;
        hashed = all_hashed ∙ sealed.0;
      }

  -- What a successful run of a job with encryption has uploaded, the tool decrypts under the unwrapped
  -- key to the compressed dump: with AES-GCM for every key and a working source of randomness, the one
  -- PUT's body is accepted, and what the tool writes is all that the driver dumped, compressed.
  pub run_recoverable :
      (fresh : IsRandom w.rand) (gcms : (dek : Bytes) → IsGcm (w.gcm dek)) (schedule : List ℕ)
      (req : RunBackup) (done : BackupCompleted)
      → 0 < length req.encrypted_dek
      → (run w schedule (some req)).0 ≡ ok done
      → (dek : Bytes) × (t : Target) × (d : Driver) × (url : Bytes) × (body : Bytes) × (w.unwrap
            req.encrypted_dek
          ≡ ok dek)
        × ((run w schedule (some req)).1.puts ≡ (url, body) ∷ [])
        × ((decrypt_stream (w.gcm dek) (λ _. none) (whole body) sink).0 ≡ ok tt)
        × ((decrypt_stream (w.gcm dek) (λ _. none) (whole body) sink).1.out.written
            ≡ w.zstd (d.dump t).bytes)
  run_recoverable fresh gcms schedule req done keyed h =
      let s = run-Sealed fresh gcms schedule req done keyed h in
      (s.dek, s.from, s.by, s.url, s.body, s.unwrapped, s.one, s.accepted, s.wrote)
