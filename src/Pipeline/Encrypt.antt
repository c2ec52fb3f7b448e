-- ===== src/Pipeline/Encrypt.antt =====
-- apps/agent/internal/pipeline/encrypt.go: the framed AES-256-GCM stream.
pub mod Sealing
pub mod Opening
pub mod Failing
pub mod Ending
pub mod Broken
use backupy_agent.Prelude.{
  ℕ, zero, suc, ◌+◌, ◌-◌, ◌*◌, ◌%◌, ◌^◌, ◌<◌, Bool, true, false, Option, none, some, List, [], ◌∷◌,
  ◌++◌, length, take, drop, ltb, ◌==◌, if◌then◌else◌, Result, ok, err,
}
use backupy_agent.Prelude.Bytes.{Bytes}
use backupy_agent.Prelude.Words.{put_uint32, uint32}
use backupy_agent.Io.{
  Fault, Reader, ReadError, eof, unexpected_eof, failed, ReadFull, read_full, Writer, write,
}
use backupy_agent.Cipher.{Aead, Random}

-- `ChunkPlainSize`, 1 << 20
abbrev pub chunk_plain_size : ℕ
chunk_plain_size = 2 ^ 20

abbrev pub dek_size : ℕ
dek_size = 32

abbrev pub nonce_size : ℕ
nonce_size = 12

abbrev pub gcm_tag_size : ℕ
gcm_tag_size = 16

abbrev pub chunk_header_size : ℕ
chunk_header_size = 4

pub data CryptError : Type 0 where
  nil_encryptor dek_length read_nonce write_header write_nonce write_ciphertext write_eof_marker :
      CryptError
  read_plaintext : ReadError → CryptError
  -- the model's own: the loop ran out of fuel
  out_of_fuel : CryptError

-- `NewEncryptor`: the AEAD of a key of the one accepted length. `gcm` is `aes.NewCipher` and
-- `cipher.NewGCM`, which do not fail at that length, and whose `NonceSize()` is 12.
unfoldable pub new_encryptor : (Bytes → Aead) → Bytes → Result CryptError Aead
new_encryptor gcm dek = if length dek == dek_size then ok (gcm dek) else err dek_length

-- The variables of the loop of `Stream`, with the number of `rand.Read` calls made.
pub record StreamState : Type 0 where
  pub source : Reader
  pub out : Writer
  pub total : ℕ
  pub draws : ℕ

pub data Round : Type 0 where
  again : StreamState → Round
  stop : StreamState → Round
  fail : CryptError → StreamState → Round

-- The three writes of one frame: u32(len) || nonce || ciphertext+tag.
unfoldable pub write_frame : Bytes → Bytes → Writer → Option CryptError × Writer
write_frame nonce ct w =
    let (ok1, w1) = write (put_uint32 ((length nonce + length ct) % 2 ^ 32)) w in
    let (ok2, w2) = write nonce w1 in
    let (ok3, w3) = write ct w2 in
    if ok1
    then if ok2
      then if ok3 then (none, w3) else (some write_ciphertext, w3)
      else (some write_nonce, w2)
    else (some write_header, w1)

-- How a round ends: `io.EOF` and `io.ErrUnexpectedEOF` leave the loop, other errors are returned.
after_read : Option ReadError → StreamState → Round
after_read none s = again s
after_read (some eof) s = stop s
after_read (some unexpected_eof) s = stop s
after_read (some (failed e)) s = fail (read_plaintext (failed e)) s

module _ (aead : Aead) (rand : Random) (size : ℕ) where
  -- `if n > 0 { ... }`: seal `buf[:n]` under a fresh nonce and write its frame.
  seal_chunk : Bytes → StreamState → Option CryptError × StreamState
  seal_chunk [] s = (none, s)
  seal_chunk (b ∷ bs) s = elim (rand s.draws) [
    | none ↦ (some read_nonce, record s { draws = s.draws + 1 })
    | some nonce ↦
        let (e, w) = write_frame nonce (aead.seal nonce (b ∷ bs)) s.out in
        elim e [
          | none ↦
              (none, record s { out = w; total = s.total + length (b ∷ bs); draws = s.draws + 1 })
          | some e ↦ (some e, record s { out = w; draws = s.draws + 1 })
        ]
  ]

  unfoldable pub stream_round : StreamState → Round
  unfolding seal_chunk after_read write_frame
  stream_round s =
      let r = read_full size s.source in
      let (e, s') = seal_chunk r.got (record s { source = r.rest }) in
      elim e [ some e ↦ fail e s' | none ↦ after_read r.error s' ]

  -- After the loop: the zero-length chunk.
  finish : StreamState → Result CryptError ℕ × StreamState
  finish s =
      let (done, w) = write (put_uint32 0) s.out in
      (if done then ok s.total else err write_eof_marker, record s { out = w })

  unfoldable pub stream_loop : ℕ → StreamState → Result CryptError ℕ × StreamState
  unfolding finish
  stream_loop zero s = (err out_of_fuel, s)
  stream_loop (suc fuel) s = elim (stream_round s) [
    | again s' ↦ stream_loop fuel s'
    | stop s' ↦ finish s'
    | fail e s' ↦ (err e, s')
  ]

-- `Stream` of an encryptor that may be nil. Each full round takes `chunk_plain_size` bytes, so the
-- length of the input is fuel enough.
unfoldable pub stream : Option Aead → Random → Reader → Writer → Result CryptError ℕ × StreamState
stream none rand source out =
    (err nil_encryptor, record { source = source; out = out; total = 0; draws = 0 })
stream (some aead) rand source out =
    stream_loop aead rand chunk_plain_size (suc (length source.bytes))
      (record { source = source; out = out; total = 0; draws = 0 })

-- The variables of the loop of `Decrypt`.
pub record DecryptState : Type 0 where
  pub source : Reader
  pub out : Writer
  pub total : ℕ

pub data DecryptError : Type 0 where
  nil_encryptor truncated below_minimum gcm_open write_plaintext out_of_fuel : DecryptError
  read_header read_body : ReadError → DecryptError

pub data DecryptRound : Type 0 where
  next : DecryptState → DecryptRound
  clean_eof : DecryptState → DecryptRound
  refuse : DecryptError → DecryptState → DecryptRound

header_error : ReadError → DecryptError
header_error eof = truncated
header_error e = read_header e

module _ (aead : Aead) where
  -- The frame is `nonce = frame[:12]`, `ct = frame[12:]`.
  open_frame : Bytes → DecryptState → DecryptRound
  open_frame frame s = elim (aead.open_sealed (take nonce_size frame) (drop nonce_size frame)) [
    | none ↦ refuse gcm_open s
    | some pt ↦
        let (done, w) = write pt s.out in
        if done
        then next (record s { out = w; total = s.total + length pt })
        else refuse write_plaintext (record s { out = w })
  ]

  read_frame : ℕ → DecryptState → DecryptRound
  read_frame size s =
      let r = read_full size s.source in
      let s' : DecryptState = record s { source = r.rest } in
      elim r.error [ some e ↦ refuse (read_body e) s' | none ↦ open_frame r.got s' ]

  unfoldable pub decrypt_round : DecryptState → DecryptRound
  unfolding open_frame read_frame header_error
  decrypt_round s =
      let r = read_full chunk_header_size s.source in
      let s' : DecryptState = record s { source = r.rest } in
      let size = uint32 r.got in
      elim r.error [
        | some e ↦ refuse (header_error e) s'
        | none ↦
            if size == 0
            then clean_eof s'
            else if ltb size (nonce_size + gcm_tag_size)
            then refuse below_minimum s'
            else read_frame size s'
      ]

  unfoldable pub decrypt_loop : ℕ → DecryptState → Result DecryptError ℕ × DecryptState
  decrypt_loop zero s = (err out_of_fuel, s)
  decrypt_loop (suc fuel) s = elim (decrypt_round s) [
    | next s' ↦ decrypt_loop fuel s'
    | clean_eof s' ↦ (ok s'.total, s')
    | refuse e s' ↦ (err e, s')
  ]

-- `Decrypt`. Each round takes the four bytes of a header at least.
unfoldable pub decrypt : Option Aead → Reader → Writer → Result DecryptError ℕ × DecryptState
decrypt none source out = (err nil_encryptor, record { source = source; out = out; total = 0 })
decrypt (some aead) source out =
    decrypt_loop aead (suc (length source.bytes)) (record { source = source; out = out; total = 0 })
