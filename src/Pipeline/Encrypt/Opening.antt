-- ===== src/Pipeline/Encrypt/Opening.antt =====
-- What `Decrypt` of encrypt.go makes of a wire stream, and `Stream` followed by `Decrypt`.
use backupy_agent.Prelude.{
  ℕ, zero, suc, ◌+◌, ◌<◌, ◌≡◌, refl, sym, ◌∙◌, Option, none, some, List, [], ◌∷◌, ◌++◌, length, ap,
  Result, ok, arith, append_assoc, append-nil, All, take-append, drop-append, length-append,
}
use backupy_agent.Prelude.Bytes.{Bytes}
use backupy_agent.Prelude.Words.{put_uint32, length-put_uint32, uint32-put_uint32}
use backupy_agent.Io.{Fault, read_full-append, write}
use backupy_agent.Cipher.{Aead, IsGcm, Random, IsRandom}
use backupy_agent.Wire.{Frame, IsFrame, ciphertext, frame_bytes, wire, plaintext, length-wire}
use backupy_agent.Pipeline.Encrypt.{
  DecryptState, DecryptError, next, clean_eof, read_frame, open_frame, decrypt_round, decrypt_loop,
  decrypt, stream,
}
use backupy_agent.Pipeline.Encrypt.Sealing.{stream-wire}

module _ (aead : Aead) (gcm : IsGcm aead) where
  abbrev after : Frame → Bytes → DecryptState → DecryptState
  after f rest s = record {
    source = record s.source { bytes = rest };
    out = record { written = s.out.written ++ f.plain; room = none };
    total = s.total + length f.plain;
  }

  open_frame-ok :
      (f : Frame) (s : DecryptState)
      → IsFrame f
      → s.out.room ≡ none
      → open_frame aead (f.nonce ++ ciphertext aead f) s ≡ next (after f s.source.bytes s)
  unfolding open_frame write
  open_frame-ok f s h room = ground (
    arith,
    take-append f.nonce (ciphertext aead f) 12 (omega (arith, h.nonce_full)),
    drop-append f.nonce (ciphertext aead f) 12 (omega (arith, h.nonce_full)),
    gcm.opens f.nonce f.plain h.nonce_full,
  )

  read_frame-ok :
      (f : Frame) (rest : Bytes) (s : DecryptState)
      → IsFrame f
      → s.out.room ≡ none
      → s.source.bytes ≡ (f.nonce ++ ciphertext aead f) ++ rest
      → read_frame aead (12 + length (ciphertext aead f)) s ≡ next (after f rest s)
  unfolding read_frame
  read_frame-ok f rest s h room e = ground (
    arith,
    read_full-append (12 + length (ciphertext aead f)) (f.nonce ++ ciphertext aead f) rest
        s.source.ends (omega (arith, length-append f.nonce (ciphertext aead f), h.nonce_full)),
    open_frame-ok f (record s { source = record s.source { bytes = rest } }) h room,
  )

  decrypt_round-frame :
      (f : Frame) (rest : Bytes) (s : DecryptState)
      → IsFrame f
      → s.out.room ≡ none
      → s.source.bytes ≡ frame_bytes aead f ++ rest
      → decrypt_round aead s ≡ next (after f rest s)
  unfolding decrypt_round frame_bytes
  decrypt_round-frame f rest s h room e =
      let n = 12 + length (ciphertext aead f) in
      let body = f.nonce ++ ciphertext aead f in
      ground (
        arith,
        append_assoc (put_uint32 n) body rest,
        read_full-append 4 (put_uint32 n) (body ++ rest) s.source.ends (sym (length-put_uint32 n)),
        uint32-put_uint32 n (omega (arith, gcm.sealed_length f.nonce f.plain, h.plain_fits)),
        gcm.sealed_length f.nonce f.plain,
        read_frame-ok f rest (record s { source = record s.source { bytes = body ++ rest } }) h room
            refl,
      )

  decrypt_round-eof :
      (junk : Bytes) (s : DecryptState)
      → s.source.bytes ≡ put_uint32 0 ++ junk
      → decrypt_round aead s ≡ clean_eof (record s { source = record s.source { bytes = junk } })
  unfolding decrypt_round
  decrypt_round-eof junk s e = ground (
    arith,
    read_full-append 4 (put_uint32 0) junk s.source.ends (sym (length-put_uint32 0)),
    uint32-put_uint32 0 (omega arith),
  )

  record Opened (fs : List Frame) (junk : Bytes) (s : DecryptState)
      (out : Result DecryptError ℕ × DecryptState) : Type 0 where
    success : out.0 ≡ ok (s.total + length (plaintext fs))
    plain : out.1.out.written ≡ s.out.written ++ plaintext fs
    left : out.1.source.bytes ≡ junk

  decrypt_loop-Opened :
      (fs : List Frame) (junk : Bytes) (s : DecryptState) (fuel : ℕ)
      → All IsFrame fs
      → s.out.room ≡ none
      → s.source.bytes ≡ wire aead fs ++ junk
      → length fs < fuel
      → Opened fs junk s (decrypt_loop aead fuel s)
  unfolding decrypt_loop wire plaintext
  decrypt_loop-Opened fs junk s zero h room e lt = absurd (omega arith)
  decrypt_loop-Opened [] junk s (suc fuel) h room e lt =
      ground (arith, decrypt_round-eof junk s e, append-nil s.out.written)
  decrypt_loop-Opened (f ∷ fs) junk s (suc fuel) h room e lt =
      let rest = wire aead fs ++ junk in
      ground (
        arith,
        decrypt_round-frame f rest s h.0 room
            (e ∙ append_assoc (frame_bytes aead f) (wire aead fs) junk),
        decrypt_loop-Opened fs junk (after f rest s) fuel h.1 refl refl (omega arith),
        append_assoc s.out.written f.plain (plaintext fs),
        length-append f.plain (plaintext fs),
      )

  decrypt-wire :
      (fs : List Frame) (junk : Bytes) (ends : Option Fault)
      → All IsFrame fs
      → Opened fs junk
          (record {
            source = record { bytes = wire aead fs ++ junk; ends = ends };
            out = record { written = []; room = none };
            total = 0;
          })
          (decrypt
            (some aead)
            (record { bytes = wire aead fs ++ junk; ends = ends })
            (record { written = []; room = none }))
  unfolding decrypt
  decrypt-wire fs junk ends h =
      decrypt_loop-Opened fs junk _ (suc (length (wire aead fs ++ junk))) h refl refl
        (omega (arith, length-append (wire aead fs) junk, length-wire aead fs))

-- `Decrypt` inverts `Stream`: on any input that ends cleanly, with a source of randomness that
-- works and writers that take all, it returns the input's length and writes the input.
pub decrypt-stream :
    (aead : Aead) (gcm : IsGcm aead) (rand : Random) (fresh : IsRandom rand) (input : Bytes)
    → let (n, sealing) =
        stream
          (some aead)
          rand
          (record { bytes = input; ends = none })
          (record { written = []; room = none }) in
      let (m, opening) =
        decrypt
          (some aead)
          (record { bytes = sealing.out.written; ends = none })
          (record { written = []; room = none }) in
      (n ≡ ok (length input)) × (m ≡ ok (length input)) × (opening.out.written ≡ input)
decrypt-stream aead gcm rand fresh input =
    let (fs, frames, carried, success, written) = stream-wire aead gcm rand fresh input in
    let o = decrypt-wire aead gcm fs [] none frames in
    rw (written, ← append-nil (wire aead fs))
      (
        success,
        o.success ∙ ap ok (omega (arith, ap (λ (l : Bytes). length l) carried)),
        o.plain ∙ carried,
      )
