-- ===== src/Decrypt/Stream.antt =====
-- `decryptStream` of apps/backupy-decrypt/internal/decrypt/decrypt.go.
pub mod Reading
pub mod Rounds
pub mod Accepting
pub mod Ending
pub mod Hashing
pub mod Reordering
use backupy_agent.Prelude.{
  ℕ, zero, suc, ◌+◌, ◌^◌, Option, none, some, List, [], ◌∷◌, ◌++◌, length, take, drop, ltb, ◌==◌,
  if◌then◌else◌, Result, ok, err,
}
use backupy_agent.Prelude.Bytes.{Bytes}
use backupy_agent.Prelude.Words.{uint32}
use backupy_agent.Io.{
  Fault, Reader, ReadError, eof, unexpected_eof, failed, ReadFull, read_full, Writer, write,
}
use backupy_agent.Cipher.{Aead}

abbrev pub chunk_plaintext_size : ℕ
chunk_plaintext_size = 2 ^ 20

abbrev pub nonce_size : ℕ
nonce_size = 12

abbrev pub tag_size : ℕ
tag_size = 16

abbrev pub chunk_header_size : ℕ
chunk_header_size = 4

abbrev pub max_frame_size : ℕ
max_frame_size = nonce_size + chunk_plaintext_size + tag_size

pub data StreamError : Type 0 where
  truncated_no_eof_marker truncated_header truncated_body : StreamError
  frame_too_small frame_too_large : ℕ → StreamError
  decrypt_failed write_plaintext : StreamError
  cancelled read_header read_body : Fault → StreamError
  -- the model's own: the loop ran out of fuel
  out_of_fuel : StreamError

-- The loop's variables. `hashed` is what the tee has mirrored to the hasher, `reports` are the
-- calls of `progress`, `rounds` counts the polls of the context.
pub record StreamState : Type 0 where
  pub source : Reader
  pub out : Writer
  pub hashed : Bytes
  pub processed : ℕ
  pub reports : List ℕ
  pub rounds : ℕ

pub data Round : Type 0 where
  next : StreamState → Round
  clean_eof : StreamState → Round
  refuse : StreamError → StreamState → Round

pub header_error : ReadError → StreamError
header_error eof = truncated_no_eof_marker
header_error unexpected_eof = truncated_header
header_error (failed e) = read_header e

pub body_error : ReadError → StreamError
body_error (failed e) = read_body e
body_error e = truncated_body

-- `io.ReadFull` through the tee.
pub tee_read : ℕ → StreamState → ReadFull × StreamState
tee_read n s =
    let r = read_full n s.source in (r, record s { source = r.rest; hashed = s.hashed ++ r.got })

pub report : StreamState → StreamState
report s = record s { reports = s.reports ++ (s.processed ∷ []) }

module _ (aead : Aead) (ctx : ℕ → Option Fault) where
  pub open_frame : ℕ → Bytes → StreamState → Round
  unfolding report
  open_frame size frame s =
      elim (aead.open_sealed (take nonce_size frame) (drop nonce_size frame)) [
        | none ↦ refuse decrypt_failed s
        | some pt ↦
            let (done, w) = write pt s.out in
            if done
            then next (report (record s { out = w; processed = s.processed + size }))
            else refuse write_plaintext (record s { out = w })
      ]

  pub read_frame : ℕ → StreamState → Round
  unfolding open_frame tee_read body_error
  read_frame size s =
      let (r, s') = tee_read size s in
      elim r.error [ some e ↦ refuse (body_error e) s' | none ↦ open_frame size r.got s' ]

  -- The tests on the length prefix.
  pub check_size : ℕ → StreamState → Round
  unfolding read_frame report
  check_size size s =
      if size == 0
      then clean_eof (report s)
      else if ltb size (nonce_size + tag_size)
      then refuse (frame_too_small size) s
      else if ltb max_frame_size size
      then refuse (frame_too_large size) s
      else read_frame size s

  pub read_header_of : StreamState → Round
  unfolding check_size tee_read header_error
  read_header_of s =
      let (r, s') = tee_read chunk_header_size s in
      elim r.error [
        | some e ↦ refuse (header_error e) s'
        | none ↦
            check_size (uint32 r.got) (record s' { processed = s'.processed + chunk_header_size })
      ]

  pub decrypt_round : StreamState → Round
  unfolding read_header_of
  decrypt_round s = elim (ctx s.rounds) [
    | some e ↦ refuse (cancelled e) s
    | none ↦ read_header_of (record s { rounds = s.rounds + 1 })
  ]

  unfoldable pub decrypt_loop : ℕ → StreamState → Result StreamError (Unit {0}) × StreamState
  unfolding decrypt_round
  decrypt_loop zero s = (err out_of_fuel, s)
  decrypt_loop (suc fuel) s = elim (decrypt_round s) [
    | next s' ↦ decrypt_loop fuel s'
    | clean_eof s' ↦ (ok tt, s')
    | refuse e s' ↦ (err e, s')
  ]

  -- Each round takes the four bytes of a header at least.
  unfoldable pub decrypt_stream : Reader → Writer → Result StreamError (Unit {0}) × StreamState
  decrypt_stream source out =
      decrypt_loop (suc (length source.bytes)) (record {
        source = source;
        out = out;
        hashed = [];
        processed = 0;
        reports = [];
        rounds = 0;
      })
