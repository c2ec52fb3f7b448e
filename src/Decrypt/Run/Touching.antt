-- ===== src/Decrypt/Run/Touching.antt =====
-- When `Run` of the decrypt tool touches its output file.
use backupy_agent.Prelude.{
  ℕ, ◌≡◌, ◌≢◌, ◌↔◌, refl, sym, ◌∙◌, ap, Bool, true, false, not, inl, inr, Option, none, some, [],
  Result, ok, err, Result-cases, arith,
}
use backupy_agent.Prelude.Bytes.{Bytes}
use backupy_agent.Io.{Fault, Reader}
use backupy_agent.Decrypt.Token.{
  TokenError, expired, segments, payload_base64, payload_json, missing_claim, not_a_string,
  wrong_issuer, wrong_audience, DecryptionClaims, parse_decryption,
}
use backupy_agent.Decrypt.Stream.{StreamError, decrypt_stream}
use backupy_agent.Decrypt.Run.{
  Options, ToolError, zstd, close_sink, close_output, stream, sha256_mismatch, Host, Outcome,
  returned, Ran, token_error, check_algorithm, check_dek_length, key_of_token, check_sha,
  close_and_check, finish_stream, run_direct, run_piped, run_opened, failed_before, open_files,
  run_tool, issuer_expected, audience_expected,
}

-- The errors of the token, the key, and the opening of the two files.
abbrev pub is_early : ToolError → Bool
is_early (zstd e) = false
is_early (close_sink e) = false
is_early (close_output e) = false
is_early (stream e) = false
is_early (sha256_mismatch got want) = false
is_early e = true

abbrev is_late : Outcome → Bool
is_late (returned (err e)) = not (is_early e)
is_late o = true

module _ (w : Host) (opts : Options) where
  token_error-early : (e : TokenError) → is_early (token_error e) ≡ true
  unfolding token_error
  token_error-early expired = refl
  token_error-early (segments n) = refl
  token_error-early (payload_base64 e) = refl
  token_error-early (payload_json e) = refl
  token_error-early (missing_claim k) = refl
  token_error-early (not_a_string k) = refl
  token_error-early (wrong_issuer got want) = refl
  token_error-early (wrong_audience got want) = refl

  key_of_token_early : {e : ToolError} → key_of_token w opts.token ≡ err e → is_early e ≡ true
  unfolding key_of_token check_algorithm check_dek_length
  key_of_token_early {e} h =
      elim (Result-cases
        (parse_decryption w.decoders w.now issuer_expected audience_expected opts.token)) [
          | inr (x, bad) ↦ ground (arith, token_error-early x)
          | inl (c, good) ↦ ground arith
        ]

  open_files_early : {e : ToolError} → open_files w ≡ err e → is_early e ≡ true
  unfolding open_files
  open_files_early h = ground arith

  finish_stream_late :
      (c : DecryptionClaims) (e : Option Fault) (r : Result StreamError (Unit {0})) (hashed : Bytes)
      → is_late (returned (finish_stream w opts c e r hashed)) ≡ true
  unfolding finish_stream close_and_check check_sha
  finish_stream_late c e (err x) hashed = refl
  finish_stream_late c (some x) (ok u) hashed = refl
  finish_stream_late c none (ok u) hashed = ground arith

  run_opened_late :
      (c : DecryptionClaims) (dek : Bytes) (source : Reader) (room : Option ℕ)
      → let r = run_opened w opts c dek source room in (is_late r.outcome ≡ true) × (r.file ≢ none)
  unfolding run_opened run_direct run_piped
  run_opened_late c dek source room =
      let (r, s) = decrypt_stream (w.gcm dek) w.ctx source (record { written = []; room = room }) in
      let (r', s') =
        decrypt_stream (w.gcm dek) w.ctx source (record { written = []; room = none }) in
      let copied = w.copy s'.out.written room in
      (
        ground (
          arith,
          finish_stream_late c none r s.hashed,
          finish_stream_late c copied.error r' s'.hashed,
        ),
        λ h. ground arith,
      )

  -- An output file that is there stays untouched exactly when `Run` returns an error of the token,
  -- of the key, or of opening the input or the output; after every other outcome, errors of the
  -- decryption and a wrong hash included, it has been truncated.
  pub run_tool_untouched :
      ((run_tool w opts).file ≡ none)
      ↔ ((e : ToolError) × ((run_tool w opts).outcome ≡ returned (err e)) × (is_early e ≡ true))
  unfolding run_tool failed_before
  run_tool_untouched = elim (Result-cases (key_of_token w opts.token)) [
    | inr (e, bad) ↦ (λ h. (e, ground arith, key_of_token_early bad), λ h. ground arith)
    | inl ((c, dek), good) ↦ elim (Result-cases (open_files w)) [
      | inr (e, bad) ↦ (λ h. (e, ground arith, open_files_early bad), λ h. ground arith)
      | inl ((source, room), files) ↦
          let (late, written) = run_opened_late c dek source room in
          let goes : run_tool w opts ≡ run_opened w opts c dek source room =
            rw (run_tool, good, files) refl in
          (
            λ h. absurd (written (ap (λ (r : Ran). r.file) (sym goes) ∙ h)),
            λ h. let (e, failed, early) = h in ground arith,
          )
    ]
  ]
