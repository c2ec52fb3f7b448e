-- ===== src/Decrypt/Run.antt =====
-- `Run` of apps/backupy-decrypt/internal/decrypt/decrypt.go: the token, the files, the decoder behind
-- a pipe, the check of the hash.
pub mod Keys
pub mod Accepting
pub mod Touching
use backupy_agent.Prelude.{
  ℕ, Bool, true, false, not, ◌&&◌, Option, none, some, [], length, ◌==◌, if◌then◌else◌, Result, ok,
  err, ◌>>=◌, map_err,
}
use backupy_agent.Prelude.Bytes.{Bytes, codes, is_empty}
use backupy_agent.Prelude.Int.{ℤ, pos, negsuc}
use backupy_agent.Prelude.Strings.{equal_fold}
use backupy_agent.Io.{Fault, Reader, Writer}
use backupy_agent.Cipher.{Aead}
use backupy_agent.Decrypt.Token.{Decoders, TokenError, expired, DecryptionClaims, parse_decryption}
use backupy_agent.Decrypt.Stream.{StreamError, StreamState, decrypt_stream}

abbrev pub issuer_expected : Bytes
issuer_expected = codes "backupy-server"

abbrev pub audience_expected : Bytes
audience_expected = codes "backupy-decrypt"

pub record Options : Type 0 where
  pub token : Bytes
  pub verify_sha256 : Bool
  pub skip_decompress : Bool

pub data ToolError : Type 0 where
  token_expired : ToolError
  invalid_token : TokenError → ToolError
  unsupported_alg : Bytes → ToolError
  unsupported_format : ℤ → ToolError
  dek_base64 : Fault → ToolError
  dek_length : ℕ → ToolError
  open_input open_output zstd close_sink close_output : Fault → ToolError
  stream : StreamError → ToolError
  sha256_mismatch : Bytes → Bytes → ToolError

-- What `io.Copy(out, dec)` does with what comes through the pipe: the bytes that it writes, its error,
-- and whether it has stopped with a part of that unread.
pub record Copied : Type 0 where
  pub produced : Bytes
  pub error : Option Fault
  pub stopped : Bool

-- What `Run` calls and meets. Of the output file it is known how much it takes, once it is truncated.
pub record Host : Type 0 where
  pub decoders : Decoders
  pub now : ℕ
  pub std_base64 : Bytes → Result Fault Bytes
  pub input : Result Fault Reader
  pub output : Result Fault (Option ℕ)
  pub gcm : Bytes → Aead
  pub new_reader : Option Fault
  pub copy : Bytes → Option ℕ → Copied
  pub ctx : ℕ → Option Fault
  pub close_file : Option Fault
  pub hex_sha256 : Bytes → Bytes

-- A call that returns, or one that waits for ever.
pub data Outcome : Type 0 where
  returned : Result ToolError (Unit {0}) → Outcome
  blocked : Outcome

-- The output file is `none` as long as it has not been opened.
pub record Ran : Type 0 where
  pub outcome : Outcome
  pub file : Option Bytes

unfoldable pub token_error : TokenError → ToolError
token_error expired = token_expired
token_error e = invalid_token e

unfoldable pub is_version_one : ℤ → Bool
is_version_one (pos n) = n == 1
is_version_one (negsuc n) = false

unfoldable pub check_algorithm : DecryptionClaims → Result ToolError (Unit {0})
check_algorithm c =
    if equal_fold c.algorithm (codes "AES-256-GCM")
    then (if is_version_one c.format_version
        then ok tt
        else err (unsupported_format c.format_version))
    else err (unsupported_alg c.algorithm)

unfoldable pub check_dek_length : Bytes → Result ToolError Bytes
check_dek_length dek = if length dek == 32 then ok dek else err (dek_length (length dek))

-- The claims and the key.
unfoldable pub key_of_token : Host → Bytes → Result ToolError (DecryptionClaims × Bytes)
key_of_token w token =
    map_err token_error (parse_decryption w.decoders w.now issuer_expected audience_expected token)
    >>= λ c. check_algorithm c >>= λ u.
        map_err dek_base64 (w.std_base64 c.dek_base64) >>= check_dek_length >>= λ dek. ok (c, dek)

unfoldable pub check_sha : Host → Options → DecryptionClaims → Bytes → Result ToolError (Unit {0})
check_sha w opts c hashed =
    if opts.verify_sha256 && not (is_empty c.sha256)
    then (if equal_fold (w.hex_sha256 hashed) c.sha256
        then ok tt
        else err (sha256_mismatch (w.hex_sha256 hashed) c.sha256))
    else ok tt

-- From the closing of the output file on.
unfoldable pub close_and_check :
    Host → Options → DecryptionClaims → Bytes → Result ToolError (Unit {0})
close_and_check w opts c hashed = elim w.close_file [
  | some e ↦ err (close_output e)
  | none ↦ check_sha w opts c hashed
]

unfoldable pub finish_stream :
    Host
    → Options
    → DecryptionClaims
    → Option Fault
    → Result StreamError (Unit {0})
    → Bytes
    → Result ToolError (Unit {0})
finish_stream w opts c sink_error (err e) hashed = err (stream e)
finish_stream w opts c (some e) (ok u) hashed = err (close_sink e)
finish_stream w opts c none (ok u) hashed = close_and_check w opts c hashed

-- With `SkipDecompress` the file takes the plaintext itself.
unfoldable pub run_direct : Host → Options → DecryptionClaims → Aead → Reader → Option ℕ → Ran
run_direct w opts c aead source room =
    let (r, s) = decrypt_stream aead w.ctx source (record { written = []; room = room }) in
    record {
      outcome = returned (finish_stream w opts c none r s.hashed);
      file = some s.out.written;
    }

-- The plaintext goes through a pipe, which takes all that its reader takes: when the copying has
-- stopped, nobody reads, the pipe is not closed, and the write waits for ever.
unfoldable pub run_piped : Host → Options → DecryptionClaims → Aead → Reader → Option ℕ → Ran
run_piped w opts c aead source room =
    let (r, s) = decrypt_stream aead w.ctx source (record { written = []; room = none }) in
    let copied = w.copy s.out.written room in
    record {
      outcome =
          if copied.stopped
          then blocked
          else returned (finish_stream w opts c copied.error r s.hashed);
      file = some copied.produced;
    }

-- From the opened files on.
unfoldable pub run_opened : Host → Options → DecryptionClaims → Bytes → Reader → Option ℕ → Ran
run_opened w opts c dek source room =
    if opts.skip_decompress
    then run_direct w opts c (w.gcm dek) source room
    else elim w.new_reader [
      | some e ↦ record { outcome = returned (err (zstd e)); file = some [] }
      | none ↦ run_piped w opts c (w.gcm dek) source room
    ]

unfoldable pub failed_before : ToolError → Ran
failed_before e = record { outcome = returned (err e); file = none }

unfoldable pub open_files : Host → Result ToolError (Reader × Option ℕ)
open_files w = map_err open_input w.input >>= λ source.
    map_err open_output w.output >>= λ room. ok (source, room)

-- `Run`
unfoldable pub run_tool : Host → Options → Ran
run_tool w opts = elim (key_of_token w opts.token) [
  | err e ↦ failed_before e
  | ok (c, dek) ↦ elim (open_files w) [
    | err e ↦ failed_before e
    | ok (source, room) ↦ run_opened w opts c dek source room
  ]
]
