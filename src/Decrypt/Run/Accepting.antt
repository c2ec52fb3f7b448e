-- ===== src/Decrypt/Run/Accepting.antt =====
-- What a successful `Run` of the decrypt tool has read, checked and written.
use backupy_agent.Prelude.{
  ℕ, ◌≡◌, ◌⊎◌, refl, sym, ◌∙◌, ap, true, false, Bool-cases, Option-cases, inl, inr, Option, none,
  some, List, [], ◌∷◌, ◌++◌, Result, ok, err, Result-cases, arith, All, subst,
}
use backupy_agent.Prelude.Bytes.{Bytes, IsByte, is_empty}
use backupy_agent.Prelude.Strings.{equal_fold}
use backupy_agent.Io.{Fault, Reader}
use backupy_agent.Cipher.{Aead, IsGcm}
use backupy_agent.Wire.{Frame, IsFrame, wire, plaintext}
use backupy_agent.Decrypt.Token.{DecryptionClaims}
use backupy_agent.Decrypt.Stream.{StreamError, decrypt_stream}
use backupy_agent.Decrypt.Stream.Hashing.{decrypt_stream_hashes}
use backupy_agent.Decrypt.Run.Keys.{HasKey, key_of_token-ok}
use backupy_agent.Decrypt.Run.{
  Options, ToolError, Host, returned, Ran, key_of_token, check_sha, close_and_check, finish_stream,
  run_direct, run_piped, run_opened, failed_before, open_files, run_tool,
}

is_empty_lem : (s : Bytes) → is_empty s ≡ true → s ≡ []
is_empty_lem [] h = refl
is_empty_lem (b ∷ bs) h = absurd (ground arith)

returned-injective : {r s : Result ToolError (Unit {0})} → returned r ≡ returned s → r ≡ s
returned-injective h = cc

module _ (w : Host) (opts : Options) where
  -- The claimed hash is that of the bytes that were hashed, unless it is not claimed or not looked at.
  abbrev pub HashHolds : DecryptionClaims → Bytes → Type 0
  HashHolds c hashed =
      (equal_fold (w.hex_sha256 hashed) c.sha256 ≡ true)
      ⊎ (opts.verify_sha256 ≡ false)
      ⊎ (c.sha256 ≡ [])

  -- What the file holds of a plaintext, and that the copying of it was complete.
  abbrev pub FileHolds : Bytes → Option ℕ → Option Bytes → Type 0
  FileHolds plain room file =
      ((opts.skip_decompress ≡ true) × (file ≡ some plain))
      ⊎ ((opts.skip_decompress ≡ false)
          × (file ≡ some (w.copy plain room).produced)
          × ((w.copy plain room).error ≡ none)
          × ((w.copy plain room).stopped ≡ false))

  check_sha-ok :
      (c : DecryptionClaims) (hashed : Bytes)
      → check_sha w opts c hashed ≡ ok tt
      → HashHolds c hashed
  unfolding check_sha
  check_sha-ok c hashed h = elim (Bool-cases opts.verify_sha256) [
    | inr off ↦ inr (inl off)
    | inl on ↦ elim (Bool-cases (is_empty c.sha256)) [
      | inl empty ↦ inr (inr (is_empty_lem c.sha256 empty))
      | inr filled ↦ inl (ground arith)
    ]
  ]

  finish_stream-ok :
      (c : DecryptionClaims) (sink_error : Option Fault) (r : Result StreamError (Unit {0}))
      (hashed : Bytes)
      → finish_stream w opts c sink_error r hashed ≡ ok tt
      → (r ≡ ok tt) × (sink_error ≡ none) × HashHolds c hashed
  unfolding finish_stream close_and_check
  finish_stream-ok c e (err x) hashed h = absurd (ground arith)
  finish_stream-ok c (some e) (ok tt) hashed h = absurd (ground arith)
  finish_stream-ok c none (ok tt) hashed h = elim (Option-cases w.close_file) [
    | inr (e, bad) ↦ absurd (ground arith)
    | inl fine ↦ (refl, refl, check_sha-ok c hashed (ground arith))
  ]

  -- What a successful run leaves of an opened input.
  pub record Decrypted (c : DecryptionClaims) (aead : Aead) (source : Reader) (room : Option ℕ)
      (file : Option Bytes) : Type 0 where
    pub frames : List Frame
    pub framed : All IsFrame frames
    pub unread : Bytes
    pub read : source.bytes ≡ wire aead frames ++ unread
    pub hash : HashHolds c (wire aead frames)
    pub holds : FileHolds (plaintext frames) room file

  module _ (c : DecryptionClaims) (aead : Aead) (gcm : IsGcm aead) (source : Reader)
      (room : Option ℕ) (byte : All IsByte source.bytes) where
    run_direct-Decrypted :
        opts.skip_decompress ≡ true
        → (run_direct w opts c aead source room).outcome ≡ returned (ok tt)
        → Decrypted c aead source room (run_direct w opts c aead source room).file
    unfolding run_direct
    run_direct-Decrypted skip h =
        let (r, s) = decrypt_stream aead w.ctx source (record { written = []; room = room }) in
        let (done, e, hash) = finish_stream-ok c none r s.hashed (returned-injective h) in
        let (fs, framed, read, wrote, hashed) =
          decrypt_stream_hashes aead w.ctx gcm source room byte done in
        record {
          frames = fs;
          framed = framed;
          unread = s.source.bytes;
          read = read;
          hash = subst (HashHolds c) hashed hash;
          holds = inl (skip, ap some wrote);
        }

    run_piped-Decrypted :
        opts.skip_decompress ≡ false
        → (run_piped w opts c aead source room).outcome ≡ returned (ok tt)
        → Decrypted c aead source room (run_piped w opts c aead source room).file
    unfolding run_piped
    run_piped-Decrypted unzip h =
        let (r, s) = decrypt_stream aead w.ctx source (record { written = []; room = none }) in
        let copied = w.copy s.out.written room in
        elim (Bool-cases copied.stopped) [
          | inl stuck ↦ absurd (ground arith)
          | inr free ↦
              let ends : finish_stream w opts c copied.error r s.hashed ≡ ok tt =
                returned-injective (ground arith) in
              let (done, no_error, hash) = finish_stream-ok c copied.error r s.hashed ends in
              let (fs, framed, read, wrote, hashed) =
                decrypt_stream_hashes aead w.ctx gcm source none byte done in
              let holds : FileHolds s.out.written room (some copied.produced) =
                inr (unzip, refl, no_error, free) in
              record {
                frames = fs;
                framed = framed;
                unread = s.source.bytes;
                read = read;
                hash = subst (HashHolds c) hashed hash;
                holds = subst (λ (p : Bytes). FileHolds p room (some copied.produced)) wrote holds;
              }
        ]

    as_ran :
        (r s : Ran)
        → r ≡ s
        → r.outcome ≡ returned (ok tt)
        → (s.outcome ≡ returned (ok tt) → Decrypted c aead source room s.file)
        → Decrypted c aead source room r.file
    as_ran r s e h k =
        subst (λ (t : Ran). Decrypted c aead source room t.file) (sym e)
          (k (ap (λ (t : Ran). t.outcome) (sym e) ∙ h))

    run_opened-Decrypted :
        (dek : Bytes)
        → w.gcm dek ≡ aead
        → (run_opened w opts c dek source room).outcome ≡ returned (ok tt)
        → Decrypted c aead source room (run_opened w opts c dek source room).file
    run_opened-Decrypted dek same h = elim (Bool-cases opts.skip_decompress) [
      | inl skip ↦
          as_ran (run_opened w opts c dek source room) (run_direct w opts c aead source room)
            (unfold run_opened in ground arith) h (run_direct-Decrypted skip)
      | inr unzip ↦ elim (Option-cases w.new_reader) [
        | inr (e, bad) ↦ absurd (unfold run_opened in ground arith)
        | inl fine ↦
            as_ran (run_opened w opts c dek source room) (run_piped w opts c aead source room)
              (unfold run_opened in ground arith) h (run_piped-Decrypted unzip)
      ]
    ]

  open_files_lem :
      (source : Reader) (room : Option ℕ)
      → w.input ≡ ok source
      → w.output ≡ ok room
      → open_files w ≡ ok (source, room)
  unfolding open_files
  open_files_lem source room opened created = ground arith

  -- When `Run` succeeds on an input of bytes: the token was taken, names AES-256-GCM and version 1,
  -- and gave a key of 32 bytes; the input begins with a wire stream of genuine frames under that key;
  -- the output file holds what they carry, or what the decoder made of all of it without an error;
  -- and the claimed hash, if there is one and it is looked at, is that of this stream.
  pub run_tool_sound :
      (gcms : (dek : Bytes) → IsGcm (w.gcm dek)) (source : Reader) (room : Option ℕ)
      → All IsByte source.bytes
      → w.input ≡ ok source
      → w.output ≡ ok room
      → (run_tool w opts).outcome ≡ returned (ok tt)
      → (c : DecryptionClaims) × (dek : Bytes) × HasKey w opts.token c dek
        × Decrypted c (w.gcm dek) source room (run_tool w opts).file
  unfolding run_tool failed_before
  run_tool_sound gcms source room byte opened created h =
      elim (Result-cases (key_of_token w opts.token)) [
        | inr (e, bad) ↦ absurd (ground arith)
        | inl ((c, dek), good) ↦
            let files = open_files_lem source room opened created in
            (
              c,
              dek,
              key_of_token-ok w opts.token good,
              as_ran c (w.gcm dek) (gcms dek) source room byte (run_tool w opts)
                  (run_opened w opts c dek source room) (rw (run_tool, good, files) refl) h
                  (run_opened-Decrypted c (w.gcm dek) (gcms dek) source room byte dek refl),
            )
      ]
