-- ===== src/EndToEnd/Restore.antt =====
-- A whole run of the agent, and a whole run of the decrypt tool on what it has uploaded.
use backupy_agent.Prelude.{
  ℕ, ◌<◌, ◌≡◌, refl, sym, ◌∙◌, ap, ap₂, subst, true, false, Option, none, some, List, [], ◌∷◌,
  length, ok, arith, ok-injective,
}
use backupy_agent.Prelude.Bytes.{Bytes, codes, ===_refl}
use backupy_agent.Prelude.Int.{pos}
use backupy_agent.Prelude.Strings.{equal_fold}
use backupy_agent.Cipher.{Aead, IsGcm, IsRandom}
use backupy_agent.Pipeline.Request.{
  Target, JobSpec, UploadCreds, RunBackup, BackupCompleted, Driver, World,
}
use backupy_agent.Pipeline.Runner.{run, prepare}
use backupy_agent.Decrypt.Token.{DecryptionClaims, parse_decryption}
use backupy_agent.Decrypt.Stream.{decrypt_stream}
use backupy_agent.Decrypt.Run.{
  issuer_expected, audience_expected, Options, Host, returned, run_tool, run_opened, run_piped,
  finish_stream, close_and_check, check_sha, open_files,
}
use backupy_agent.Decrypt.Run.Keys.{HasKey, key_of_token-HasKey}
use backupy_agent.EndToEnd.{whole, sink}
use backupy_agent.EndToEnd.Backup.{run-Sealed}

-- A machine with the same ciphers and hash as the agent's, the upload as the input file, an output file
-- that takes all, no cancellation, and a decoder that inverts the agent's encoder.
pub record Serves (w : World) (body : Bytes) (h : Host) : Type 0 where
  pub same_gcm : (dek : Bytes) → h.gcm dek ≡ w.gcm dek
  pub same_hash : (b : Bytes) → h.hex_sha256 b ≡ w.hex_sha256 b
  pub has_input : h.input ≡ ok (whole body)
  pub has_output : h.output ≡ ok none
  pub never_cancelled : h.ctx ≡ (λ (n : ℕ). none)
  pub has_decoder : h.new_reader ≡ none
  pub closes : h.close_file ≡ none
  pub unzips :
      (b : Bytes) → h.copy (w.zstd b) none ≡ record { produced = b; error = none; stopped = false }

equal_fold_refl : (s : Bytes) → equal_fold s s ≡ true
unfolding equal_fold
equal_fold_refl s = ===_refl _

-- A token for the run that is reported: its key in base64, and the hash of its upload.
pub record Issued (h : Host) (token : Bytes) (dek : Bytes) (done : BackupCompleted) : Type 0 where
  pub claims : DecryptionClaims
  pub parsed : parse_decryption h.decoders h.now issuer_expected audience_expected token ≡ ok claims
  pub algorithm : claims.algorithm ≡ codes "AES-256-GCM"
  pub version : claims.format_version ≡ pos 1
  pub key : h.std_base64 claims.dek_base64 ≡ ok dek
  pub hash : claims.sha256 ≡ done.sha256

module _ (h : Host) (opts : Options) (c : DecryptionClaims) (aead : Aead) where
  close_and_check-hash :
      (hashed : Bytes)
      → h.close_file ≡ none
      → c.sha256 ≡ h.hex_sha256 hashed
      → close_and_check h opts c hashed ≡ ok tt
  unfolding close_and_check check_sha
  close_and_check-hash hashed closes claimed =
      let same : equal_fold (h.hex_sha256 hashed) c.sha256 ≡ true =
        subst (λ (t : Bytes). equal_fold (h.hex_sha256 hashed) t ≡ true) (sym claimed)
          (equal_fold_refl (h.hex_sha256 hashed)) in
      ground arith

  run_piped-copy :
      (body b z : Bytes)
      → let (r, s) = decrypt_stream aead h.ctx (whole body) sink in
        r ≡ ok tt
        → s.out.written ≡ z
        → h.copy z none ≡ record { produced = b; error = none; stopped = false }
        → s.hashed ≡ body
        → close_and_check h opts c body ≡ ok tt
        → run_piped h opts c aead (whole body) none
          ≡ record { outcome = returned (ok tt); file = some b }
  unfolding run_piped finish_stream
  run_piped-copy body b z accepted wrote copied hashed finished =
      rw (run_piped, accepted, wrote, copied, hashed, finished) refl

module _ (w : World) (h : Host) (opts : Options) where
  restored_with :
      (body b dek : Bytes) (c : DecryptionClaims)
      → Serves w body h
      → HasKey h opts.token c dek
      → opts.skip_decompress ≡ false
      → c.sha256 ≡ w.hex_sha256 body
      → (decrypt_stream (w.gcm dek) (λ _. none) (whole body) sink).0 ≡ ok tt
      → (decrypt_stream (w.gcm dek) (λ _. none) (whole body) sink).1.out.written ≡ w.zstd b
      → (decrypt_stream (w.gcm dek) (λ _. none) (whole body) sink).1.hashed ≡ body
      → run_tool h opts ≡ record { outcome = returned (ok tt); file = some b }
  unfolding run_tool run_opened open_files
  restored_with body b dek c s key unzip hash accepted wrote hashed =
      let aead = h.gcm dek in
      let same : decrypt_stream (h.gcm dek) h.ctx (whole body) sink
          ≡ decrypt_stream (w.gcm dek) (λ _. none) (whole body) sink =
        ap₂ (λ a x. decrypt_stream a x (whole body) sink) (s.same_gcm dek) s.never_cancelled in
      let finished : close_and_check h opts c body ≡ ok tt =
        close_and_check-hash h opts c (h.gcm dek) body s.closes (hash ∙ sym (s.same_hash body)) in
      let piped =
        run_piped-copy h opts c (h.gcm dek) body b (w.zstd b) (ap (λ r. r.0) same ∙ accepted)
          (ap (λ r. r.1.out.written) same ∙ wrote) (s.unzips b) (ap (λ r. r.1.hashed) same ∙ hashed)
          finished in
      let keyed = key_of_token-HasKey h opts.token key in
      let input = s.has_input in
      let output = s.has_output in let decoder = s.has_decoder in ground arith

  -- From a dump to the restored dump: a run with a key, which the agent reports as a success, has
  -- made one PUT; on a machine that has its body as the input file, the tool, with a token that
  -- carries the unwrapped key and the reported hash, succeeds, the hash checked or not, and the output
  -- file holds just what the driver that the run was prepared with has dumped of its target.
  pub run_tool-run :
      (fresh : IsRandom w.rand) (gcms : (dek : Bytes) → IsGcm (w.gcm dek)) (schedule : List ℕ)
      (req : RunBackup) (done : BackupCompleted) (dek url body : Bytes)
      → 0 < length req.encrypted_dek
      → (run w schedule (some req)).0 ≡ ok done
      → w.unwrap req.encrypted_dek ≡ ok dek
      → (run w schedule (some req)).1.puts ≡ (url, body) ∷ []
      → Serves w body h
      → Issued h opts.token dek done
      → opts.skip_decompress ≡ false
      → (creds : UploadCreds) × (job : Option JobSpec) × (t : Target) × (d : Driver)
        × (aead : Option Aead) × (prepare w req ≡ ok (creds, job, t, d, aead))
        × (run_tool h opts ≡ record { outcome = returned (ok tt); file = some (d.dump t).bytes })
  run_tool-run fresh gcms schedule req done dek url body keyed success unwrapped one serves issued
        unzip =
      let s = run-Sealed w fresh gcms schedule req done keyed success in
      let (creds, job, aead, prepared) = s.prepared in
      let same_dek : s.dek ≡ dek = ok-injective refl refl (sym s.unwrapped ∙ unwrapped) in
      let same_body : s.body ≡ body = cc (s.one, one) in
      let has_key : HasKey h opts.token issued.claims dek = record {
        parsed = issued.parsed;
        algorithm =
            subst (λ (a : Bytes). equal_fold a (codes "AES-256-GCM") ≡ true) (sym issued.algorithm)
              (equal_fold_refl (codes "AES-256-GCM"));
        version = issued.version;
        key = issued.key;
        full = ap (λ (b : Bytes). length b) (sym same_dek) ∙ s.full;
      } in
      let tool_on =
        λ (k : Bytes) (b : Bytes). decrypt_stream (w.gcm k) (λ _. none) (whole b) sink in
      let same : tool_on s.dek s.body ≡ tool_on dek body = ap₂ tool_on same_dek same_body in
      let claimed : issued.claims.sha256 ≡ w.hex_sha256 body =
        issued.hash ∙ s.reported ∙ ap w.hex_sha256 same_body in
      (
        creds,
        job,
        s.from,
        s.by,
        aead,
        prepared,
        restored_with body (s.by.dump s.from).bytes dek issued.claims serves has_key unzip claimed
            (sym (ap (λ r. r.0) same) ∙ s.accepted) (sym (ap (λ r. r.1.out.written) same) ∙ s.wrote)
            (sym (ap (λ r. r.1.hashed) same) ∙ s.hashed ∙ same_body),
      )
