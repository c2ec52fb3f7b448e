-- ===== src/Decrypt/Stream/Reading.antt =====
-- What `decryptStream` makes of a wire stream.
use backupy_agent.Prelude.{
  ℕ, zero, suc, ◌+◌, ◌<◌, ◌≤◌, ◌≡◌, refl, sym, ◌∙◌, Option, none, List, [], ◌∷◌, ◌++◌, length,
  Result, ok, arith, append_assoc, append-nil, All, take-append, drop-append, length-append,
}
use backupy_agent.Prelude.Bytes.{Bytes}
use backupy_agent.Prelude.Words.{put_uint32, length-put_uint32, uint32-put_uint32}
use backupy_agent.Io.{Fault, read_full-append, write}
use backupy_agent.Cipher.{Aead, IsGcm}
use backupy_agent.Wire.{
  Frame, IsFrame, ciphertext, frame_bytes, wire, plaintext, length-wire, length-frame_bytes,
}
use backupy_agent.Decrypt.Stream.{
  StreamState, StreamError, next, clean_eof, check_size, read_frame, open_frame, report,
  read_header_of, decrypt_round, decrypt_loop, decrypt_stream, max_frame_size,
}

module _ (aead : Aead) (gcm : IsGcm aead) (ctx : ℕ → Option Fault) where
  -- The state after the frame `f`.
  abbrev after : Frame → Bytes → StreamState → StreamState
  after f rest s =
      let size = 12 + length (ciphertext aead f) in
      record {
        source = record s.source { bytes = rest };
        out = record { written = s.out.written ++ f.plain; room = none };
        hashed = s.hashed ++ frame_bytes aead f;
        processed = s.processed + 4 + size;
        reports = s.reports ++ ((s.processed + 4 + size) ∷ []);
        rounds = s.rounds + 1;
      }

  open_frame-ok :
      (f : Frame) (s : StreamState) (size : ℕ)
      → IsFrame f
      → s.out.room ≡ none
      → open_frame aead ctx size (f.nonce ++ ciphertext aead f) s
        ≡ next (
            report (record s {
              out = record { written = s.out.written ++ f.plain; room = none };
              processed = s.processed + size;
            }))
  unfolding open_frame write
  open_frame-ok f s size h room = ground (
    arith,
    take-append f.nonce (ciphertext aead f) 12 (omega (arith, h.nonce_full)),
    drop-append f.nonce (ciphertext aead f) 12 (omega (arith, h.nonce_full)),
    gcm.opens f.nonce f.plain h.nonce_full,
  )

  read_frame-ok :
      (f : Frame) (rest : Bytes) (s : StreamState)
      → IsFrame f
      → s.out.room ≡ none
      → s.source.bytes ≡ (f.nonce ++ ciphertext aead f) ++ rest
      → read_frame aead ctx (12 + length (ciphertext aead f)) s
        ≡ next (
            report (record s {
              source = record s.source { bytes = rest };
              hashed = s.hashed ++ (f.nonce ++ ciphertext aead f);
              out = record { written = s.out.written ++ f.plain; room = none };
              processed = s.processed + (12 + length (ciphertext aead f));
            }))
  unfolding read_frame
  read_frame-ok f rest s h room e = ground (
    arith,
    read_full-append (12 + length (ciphertext aead f)) (f.nonce ++ ciphertext aead f) rest
        s.source.ends (omega (arith, length-append f.nonce (ciphertext aead f), h.nonce_full)),
    open_frame-ok f
        (record s {
          source = record s.source { bytes = rest };
          hashed = s.hashed ++ (f.nonce ++ ciphertext aead f);
        })
        (12 + length (ciphertext aead f)) h room,
  )

  -- A frame's length fits its prefix, and passes both tests on it.
  frame_size :
      (f : Frame)
      → IsFrame f
      → (28 ≤ 12 + length (ciphertext aead f)) × (12 + length (ciphertext aead f) ≤ max_frame_size)
  frame_size f h = omega (arith, gcm.sealed_length f.nonce f.plain, h.plain_fits)

  check_size-ok :
      (f : Frame) (s : StreamState)
      → IsFrame f
      → check_size aead ctx (12 + length (ciphertext aead f)) s
        ≡ read_frame aead ctx (12 + length (ciphertext aead f)) s
  unfolding check_size
  check_size-ok f s h = ground (arith, frame_size f h)

  read_header_of-frame :
      (f : Frame) (rest : Bytes) (s : StreamState)
      → IsFrame f
      → s.out.room ≡ none
      → s.source.bytes ≡ frame_bytes aead f ++ rest
      → read_header_of aead ctx s ≡ next (record (after f rest s) { rounds = s.rounds })
  unfolding read_header_of frame_bytes
  read_header_of-frame f rest s h room e =
      let n = 12 + length (ciphertext aead f) in
      let body = f.nonce ++ ciphertext aead f in
      let s' : StreamState = record s {
        source = record s.source { bytes = body ++ rest };
        hashed = s.hashed ++ put_uint32 n;
        processed = s.processed + 4;
      } in
      ground (
        arith,
        append_assoc (put_uint32 n) body rest,
        append_assoc s.hashed (put_uint32 n) body,
        read_full-append 4 (put_uint32 n) (body ++ rest) s.source.ends (sym (length-put_uint32 n)),
        uint32-put_uint32 n (omega (arith, frame_size f h)),
        check_size-ok f s' h,
        read_frame-ok f rest s' h room refl,
      )

  decrypt_round-frame :
      (f : Frame) (rest : Bytes) (s : StreamState)
      → IsFrame f
      → ctx s.rounds ≡ none
      → s.out.room ≡ none
      → s.source.bytes ≡ frame_bytes aead f ++ rest
      → decrypt_round aead ctx s ≡ next (after f rest s)
  unfolding decrypt_round
  decrypt_round-frame f rest s h live room e =
      ground (arith, read_header_of-frame f rest (record s { rounds = s.rounds + 1 }) h room e)

  read_header_of-eof :
      (junk : Bytes) (s : StreamState)
      → s.source.bytes ≡ put_uint32 0 ++ junk
      → read_header_of aead ctx s
        ≡ clean_eof (
            report (record s {
              source = record s.source { bytes = junk };
              hashed = s.hashed ++ put_uint32 0;
              processed = s.processed + 4;
            }))
  unfolding read_header_of
  read_header_of-eof junk s e = ground (
    arith,
    read_full-append 4 (put_uint32 0) junk s.source.ends (sym (length-put_uint32 0)),
    uint32-put_uint32 0 (omega arith),
  )

-- What a run has done that met the frames `fs` and their end, with `junk` behind them.
pub record Reads (aead : Aead) (fs : List Frame) (junk : Bytes) (s : StreamState)
    (out : Result StreamError (Unit {0}) × StreamState) : Type 0 where
  pub success : out.0 ≡ ok tt
  pub plain : out.1.out.written ≡ s.out.written ++ plaintext fs
  pub mirrored : out.1.hashed ≡ s.hashed ++ wire aead fs
  pub counted : out.1.processed ≡ s.processed + length (wire aead fs)
  pub left : out.1.source.bytes ≡ junk

module _ (aead : Aead) (gcm : IsGcm aead) (ctx : ℕ → Option Fault)
    (live : (k : ℕ) → ctx k ≡ none) where
  decrypt_loop-Reads :
      (fs : List Frame) (junk : Bytes) (s : StreamState) (fuel : ℕ)
      → All IsFrame fs
      → s.out.room ≡ none
      → s.source.bytes ≡ wire aead fs ++ junk
      → length fs < fuel
      → Reads aead fs junk s (decrypt_loop aead ctx fuel s)
  unfolding decrypt_loop wire plaintext
  decrypt_loop-Reads fs junk s zero h room e lt = absurd (omega arith)
  decrypt_loop-Reads [] junk s (suc fuel) h room e lt = ground (
    arith,
    live s.rounds,
    read_header_of-eof aead gcm ctx junk (record s { rounds = s.rounds + 1 }) e,
    append-nil s.out.written,
    length-put_uint32 0,
  )
  decrypt_loop-Reads (f ∷ fs) junk s (suc fuel) h room e lt =
      let rest = wire aead fs ++ junk in
      ground (
        arith,
        decrypt_round-frame aead gcm ctx f rest s h.0 (live s.rounds) room
            (e ∙ append_assoc (frame_bytes aead f) (wire aead fs) junk),
        decrypt_loop-Reads fs junk (after aead gcm ctx f rest s) fuel h.1 refl refl (omega arith),
        append_assoc s.out.written f.plain (plaintext fs),
        append_assoc s.hashed (frame_bytes aead f) (wire aead fs),
        length-append (frame_bytes aead f) (wire aead fs),
        length-frame_bytes aead f,
        h.0.nonce_full,
      )

  -- On a wire stream, whatever follows it, the tool succeeds, writes the frames' plaintext, hashes
  -- the stream and no byte more, and leaves what follows unread.
  pub decrypt_stream-wire :
      (fs : List Frame) (junk : Bytes) (ends : Option Fault)
      → All IsFrame fs
      → let (r, s) =
          decrypt_stream aead ctx
            (record { bytes = wire aead fs ++ junk; ends = ends })
            (record { written = []; room = none }) in
        (r ≡ ok tt)
        × (s.out.written ≡ plaintext fs)
        × (s.hashed ≡ wire aead fs)
        × (s.source.bytes ≡ junk)
  unfolding decrypt_stream
  decrypt_stream-wire fs junk ends h =
      let s : StreamState = record {
        source = record { bytes = wire aead fs ++ junk; ends = ends };
        out = record { written = []; room = none };
        hashed = [];
        processed = 0;
        reports = [];
        rounds = 0;
      } in
      let r =
        decrypt_loop-Reads fs junk s (suc (length (wire aead fs ++ junk))) h refl refl
          (omega (arith, length-append (wire aead fs) junk, length-wire aead fs)) in
      (r.success, r.plain, r.mirrored, r.left)
