-- ===== src/EndToEnd.antt =====
-- The agent's `Stream` (apps/agent/internal/pipeline/encrypt.go) against the tool's
-- `decryptStream` (apps/backupy-decrypt/internal/decrypt/decrypt.go).
pub mod Backup
pub mod Restore
pub mod Databases
use backupy_agent.Prelude.{
  ℕ, ◌≡◌, ◌≢◌, refl, ◌∙◌, Option, none, some, [], ◌++◌, ok, err, All, length,
}
use backupy_agent.Prelude.Bytes.{Bytes, IsByte}
use backupy_agent.Io.{Fault, Reader, Writer}
use backupy_agent.Cipher.{Aead, IsGcm, Random, IsRandom}
use backupy_agent.Pipeline.Encrypt.{stream, CryptError}
use backupy_agent.Pipeline.Encrypt.Failing.{stream-cut}
use backupy_agent.Pipeline.Encrypt.Sealing.{stream-wire}
use backupy_agent.Decrypt.Stream.{decrypt_stream}
use backupy_agent.Decrypt.Stream.Reading.{decrypt_stream-wire}
use backupy_agent.Decrypt.Stream.Accepting.{decrypt_stream-truncated}

abbrev pub whole : Bytes → Reader
whole b = record { bytes = b; ends = none }

abbrev pub sink : Writer
sink = record { written = []; room = none }

module _ (aead : Aead) (gcm : IsGcm aead) (rand : Random) (fresh : IsRandom rand)
    (input : Bytes) where
  -- What the agent writes of an input.
  abbrev pub upload : Bytes
  upload = (stream (some aead) rand (whole input) sink).1.out.written

  -- The tool inverts the agent: under the same key, with a working source of randomness, no
  -- cancellation and writers that take all, the tool accepts what `Stream` wrote of any input, also
  -- with other bytes behind it, writes that input, and hashes just what `Stream` wrote.
  pub decrypt_stream-stream :
      (junk : Bytes)
      → let (r, s) = decrypt_stream aead (λ _. none) (whole (upload ++ junk)) sink in
        (r ≡ ok tt) × (s.out.written ≡ input) × (s.hashed ≡ upload) × (s.source.bytes ≡ junk)
  decrypt_stream-stream junk =
      let (fs, frames, carried, success, written) = stream-wire aead gcm rand fresh input in
      let (r, plain, mirrored, left) =
        decrypt_stream-wire aead gcm (λ _. none) (λ _. refl) fs junk none frames in
      rw written (r, plain ∙ carried, mirrored, left)

  -- Every proper prefix of what `Stream` wrote of an input is refused by the tool, however the
  -- reading of it ends.
  pub decrypt_stream-prefix :
      (kept lost : Bytes) (ends : Option Fault) (ctx : ℕ → Option Fault)
      → All IsByte kept
      → upload ≡ kept ++ lost
      → lost ≢ []
      → (decrypt_stream aead ctx (record { bytes = kept; ends = ends }) sink).0 ≢ ok tt
  decrypt_stream-prefix kept lost ends ctx byte cut some_lost =
      let (fs, frames, carried, success, written) = stream-wire aead gcm rand fresh input in
      decrypt_stream-truncated aead gcm ctx fs kept lost ends frames byte (rw written at cut)
        some_lost

-- A failed `Stream` leaves nothing that the tool would take: if reading, drawing a nonce or writing
-- fails at any point, what had been written until then is refused.
pub decrypt_stream-failed_stream :
    (aead : Aead) (gcm : IsGcm aead) (rand : Random)
    (full : (k : ℕ) (n : Bytes) → rand k ≡ some n → length n ≡ 12) (source : Reader)
    (room : Option ℕ) (e : CryptError) (ends : Option Fault) (ctx : ℕ → Option Fault)
    → let (r, s) = stream (some aead) rand source (record { written = []; room = room }) in
      r ≡ err e
      → All IsByte s.out.written
      → (decrypt_stream aead ctx (record { bytes = s.out.written; ends = ends }) sink).0 ≢ ok tt
decrypt_stream-failed_stream aead gcm rand full source room e ends ctx h byte =
    let (fs, lost, frames, cut, some_lost) = stream-cut aead gcm rand full source room e h in
    decrypt_stream-truncated aead gcm ctx fs _ lost ends frames byte cut some_lost
