-- ===== src/Decrypt/Stream/Accepting.antt =====
-- Which inputs `decryptStream` accepts.
use backupy_agent.Prelude.{
  ℕ, zero, suc, ◌+◌, ◌≤◌, ◌≡◌, ◌≢◌, refl, sym, ◌∙◌, ap, Option, none, some, List, [], ◌∷◌, ◌++◌,
  length, take, drop, leb, Result, ok, arith, append_assoc, append-nil, All, length-append,
  length-zero, All-append_right, take-append-drop, length-take, length-drop, Bool-cases,
  Option-cases, leb→le, inl, inr,
}
use backupy_agent.Prelude.Bytes.{Bytes, IsByte}
use backupy_agent.Prelude.Words.{put_uint32, uint32, put_uint32-uint32}
use backupy_agent.Io.{Fault, Reader, read_full, Writer}
use backupy_agent.Cipher.{Aead, IsGcm}
use backupy_agent.Wire.{Frame, IsFrame, frame_bytes, wire, plaintext}
use backupy_agent.Decrypt.Stream.{
  StreamState, StreamError, Round, next, clean_eof, refuse, read_header_of, decrypt_round,
  decrypt_loop, decrypt_stream, max_frame_size,
}
use backupy_agent.Decrypt.Stream.Reading.{decrypt_stream-wire}
use backupy_agent.Decrypt.Stream.Rounds.{
  taken, read_frame-next, check_size-next, read_header_of-full, read_header_of-short,
  check_size-eof, loop-next, loop-clean, loop-refuse,
}

module _ (aead : Aead) (gcm : IsGcm aead) (ctx : ℕ → Option Fault) where
  -- What a round that goes on has read.
  record Took (s s' : StreamState) (f : Frame) : Type 0 where
    frame : IsFrame f
    read : s.source.bytes ≡ frame_bytes aead f ++ s'.source.bytes
    wrote : s'.out.written ≡ s.out.written ++ f.plain

  -- The bytes of a frame, put together again from what the reads took.
  frame_again :
      (bytes : Bytes) (size : ℕ) (pt : Bytes)
      → All IsByte bytes
      → 4 ≤ length bytes
      → size ≡ uint32 (take 4 bytes)
      → 28 ≤ size
      → size ≤ length (drop 4 bytes)
      → aead.open_sealed (take 12 (take size (drop 4 bytes))) (drop 12 (take size (drop 4 bytes)))
        ≡ some pt
      → size ≤ max_frame_size
      → let f : Frame = record { nonce = take 12 (take size (drop 4 bytes)); plain = pt } in
        IsFrame f × (bytes ≡ frame_bytes aead f ++ drop size (drop 4 bytes))
  unfolding frame_bytes
  frame_again bytes size pt byte len e lo fits opened hi =
      let rest = drop 4 bytes in
      let body = take size rest in
      let ct : drop 12 body ≡ aead.seal (take 12 body) pt =
        gcm.genuine (take 12 body) (drop 12 body)
          (omega (arith, length-take 12 body, length-take size rest)) opened in
      let n : 12 + length (aead.seal (take 12 body) pt) ≡ size =
        omega
          (arith, ap (λ (l : Bytes). length l) ct, length-drop 12 body, length-take size rest) in
      (
        record {
          nonce_full = omega (arith, length-take 12 body, length-take size rest);
          plain_fits = omega (arith, gcm.sealed_length (take 12 body) pt);
        },
        rw (
          n,
          ← ct,
          take-append-drop 12 body,
          e,
          put_uint32-uint32 bytes byte len,
          append_assoc,
          take-append-drop (uint32 (take 4 bytes)) rest,
          take-append-drop 4 bytes,
        ),
      )

  read_header_of-next :
      (s : StreamState) {s' : StreamState}
      → All IsByte s.source.bytes
      → read_header_of aead ctx s ≡ next s'
      → (f : Frame) × Took s s' f
  read_header_of-next s {s'} byte h = elim (Bool-cases (leb 4 (length s.source.bytes))) [
    | inr short ↦ absurd (read_header_of-short aead ctx s short h)
    | inl full ↦
        let bytes = s.source.bytes in
        let size = uint32 (take 4 bytes) in
        let t : StreamState = record (taken aead ctx 4 s) { processed = s.processed + 4 } in
        let (lo, hi, reading) =
          check_size-next aead ctx size t {s' = s'}
            (sym (read_header_of-full aead ctx s full) ∙ h) in
        let (pt, fits, opened, rest, wrote) = read_frame-next aead ctx size t {s' = s'} reading in
        let (frame, read) =
          frame_again bytes size pt byte (leb→le _ _ full) refl lo fits opened hi in
        (
          record { nonce = take 12 (take size (drop 4 bytes)); plain = pt },
          record {
            frame = frame;
            read =
                read
                ∙ ap
                    (λ l.
                      frame_bytes aead
                        (record { nonce = take 12 (take size (drop 4 bytes)); plain = pt })
                      ++ l)
                    (sym rest);
            wrote = wrote;
          },
        )
  ]

  decrypt_round-next :
      (s : StreamState) {s' : StreamState}
      → All IsByte s.source.bytes
      → decrypt_round aead ctx s ≡ next s'
      → (f : Frame) × Took s s' f
  unfolding decrypt_round
  decrypt_round-next s {s'} byte h = elim (Option-cases (ctx s.rounds)) [
    | inl live ↦
        let (f, t) =
          read_header_of-next (record s { rounds = s.rounds + 1 }) {s' = s'} byte (ground arith) in
        (f, record { frame = t.frame; read = t.read; wrote = t.wrote })
    | inr (e, dead) ↦ absurd (ground arith)
  ]

  read_header_of-clean :
      (s : StreamState) {s' : StreamState}
      → All IsByte s.source.bytes
      → read_header_of aead ctx s ≡ clean_eof s'
      → (s.source.bytes ≡ put_uint32 0 ++ s'.source.bytes) × (s'.out.written ≡ s.out.written)
  unfolding read_header_of read_full
  read_header_of-clean s {s'} byte h = elim (Bool-cases (leb 4 (length s.source.bytes))) [
    | inr short ↦ absurd (ground arith)
    | inl full ↦
        let bytes = s.source.bytes in
        let (none_left, source, out) =
          check_size-eof aead ctx (uint32 (take 4 bytes))
            (record (taken aead ctx 4 s) { processed = s.processed + 4 }) {s' = s'}
            (sym (read_header_of-full aead ctx s full) ∙ h) in
        let e : put_uint32 0 ≡ take 4 bytes =
          rw (← none_left) (put_uint32-uint32 bytes byte (leb→le _ _ full)) in
        (rw (e, source, take-append-drop 4 bytes), ap (λ (w : Writer). w.written) out)
  ]

  decrypt_round-clean :
      (s : StreamState) {s' : StreamState}
      → All IsByte s.source.bytes
      → decrypt_round aead ctx s ≡ clean_eof s'
      → (s.source.bytes ≡ put_uint32 0 ++ s'.source.bytes) × (s'.out.written ≡ s.out.written)
  unfolding decrypt_round
  decrypt_round-clean s {s'} byte h = elim (Option-cases (ctx s.rounds)) [
    | inl live ↦
        read_header_of-clean (record s { rounds = s.rounds + 1 }) {s' = s'} byte (ground arith)
    | inr (e, dead) ↦ absurd (ground arith)
  ]

  -- The frames that a successful run has read.
  pub record Accepted (s : StreamState) (out : Result StreamError (Unit {0}) × StreamState)
      (fs : List Frame) : Type 0 where
    pub frames : All IsFrame fs
    pub read : s.source.bytes ≡ wire aead fs ++ out.1.source.bytes
    pub wrote : out.1.out.written ≡ s.out.written ++ plaintext fs

  Accepted-next :
      (s s' : StreamState) (out : Result StreamError (Unit {0}) × StreamState) (f : Frame)
      (fs : List Frame)
      → Took s s' f
      → Accepted s' out fs
      → Accepted s out (f ∷ fs)
  unfolding wire plaintext
  Accepted-next s s' out f fs t a = record {
    frames = (t.frame, a.frames);
    read =
        t.read
        ∙ ap (λ l. frame_bytes aead f ++ l) a.read
        ∙ sym (append_assoc (frame_bytes aead f) (wire aead fs) out.1.source.bytes);
    wrote =
        a.wrote
        ∙ ap (λ l. l ++ plaintext fs) t.wrote
        ∙ append_assoc s.out.written f.plain (plaintext fs);
  }

  Accepted-clean :
      (s s' : StreamState) (r : Result StreamError (Unit {0}))
      → s.source.bytes ≡ put_uint32 0 ++ s'.source.bytes
      → s'.out.written ≡ s.out.written
      → Accepted s (r, s') []
  unfolding wire plaintext
  Accepted-clean s s' r read wrote = record {
    frames = tt;
    read = read;
    wrote = wrote ∙ sym (append-nil s.out.written);
  }

  pub decrypt_loop-Accepted :
      (fuel : ℕ) (s : StreamState)
      → All IsByte s.source.bytes
      → (decrypt_loop aead ctx fuel s).0 ≡ ok tt
      → (fs : List Frame) × Accepted s (decrypt_loop aead ctx fuel s) fs
  decrypt_loop-Accepted zero s byte h = absurd (unfold decrypt_loop in cc)
  decrypt_loop-Accepted (suc fuel) s byte h =
      from (decrypt_round aead ctx s) refl (decrypt_loop-Accepted fuel)
    where
      from :
          (r : Round)
          → decrypt_round aead ctx s ≡ r
          → ((s' : StreamState)
              → All IsByte s'.source.bytes
              → (decrypt_loop aead ctx fuel s').0 ≡ ok tt
              → (fs : List Frame) × Accepted s' (decrypt_loop aead ctx fuel s') fs)
          → (fs : List Frame) × Accepted s (decrypt_loop aead ctx (suc fuel) s) fs
      from (next s') e ih =
          let (f, t) = decrypt_round-next s {s' = s'} byte e in
          let (fs, a) =
            ih s' (All-append_right IsByte (frame_bytes aead f) s'.source.bytes (rw t.read at byte))
              (cc (loop-next aead ctx fuel s e, h)) in
          (f ∷ fs, rw (loop-next aead ctx fuel s e) (Accepted-next s s' _ f fs t a))
      from (clean_eof s') e ih =
          let (read, wrote) = decrypt_round-clean s {s' = s'} byte e in
          ([], rw (loop-clean aead ctx fuel s e) (Accepted-clean s s' (ok tt) read wrote))
      from (refuse e s') q ih = absurd (cc (loop-refuse aead ctx fuel s q, h))

-- An input that the tool accepts begins with a wire stream of genuine frames; what it has written
-- is what they carry, and it has read that stream and no byte more.
pub decrypt_stream_sound :
    (aead : Aead) (gcm : IsGcm aead) (ctx : ℕ → Option Fault) (source : Reader)
    → All IsByte source.bytes
    → let (r, s) = decrypt_stream aead ctx source (record { written = []; room = none }) in
      r ≡ ok tt
      → (fs : List Frame) × All IsFrame fs
        × (source.bytes ≡ wire aead fs ++ s.source.bytes)
        × (s.out.written ≡ plaintext fs)
unfolding decrypt_stream
decrypt_stream_sound aead gcm ctx source byte h =
    let (fs, a) = decrypt_loop-Accepted aead gcm ctx (suc (length source.bytes)) _ byte h in
    (fs, a.frames, a.read, a.wrote)

-- A wire stream that is cut anywhere is refused.
pub decrypt_stream-truncated :
    (aead : Aead) (gcm : IsGcm aead) (ctx : ℕ → Option Fault) (fs : List Frame) (kept lost : Bytes)
    (ends : Option Fault)
    → All IsFrame fs
    → All IsByte kept
    → wire aead fs ≡ kept ++ lost
    → lost ≢ []
    → (decrypt_stream aead ctx
        (record { bytes = kept; ends = ends })
        (record { written = []; room = none })).0
      ≢ ok tt
decrypt_stream-truncated aead gcm ctx fs kept lost ends frames byte cut some_lost accepted =
    let source : Reader = record { bytes = kept; ends = ends } in
    let sink : Writer = record { written = []; room = none } in
    let left = (decrypt_stream aead ctx source sink).1.source.bytes in
    let (gs, gframes, read, _) = decrypt_stream_sound aead gcm ctx source byte accepted in
    let whole = decrypt_stream-wire aead gcm (λ _. none) (λ _. refl) fs [] none frames in
    let cut_off =
      decrypt_stream-wire aead gcm (λ _. none) (λ _. refl) gs (left ++ lost) none gframes in
    let same : wire aead fs ++ [] ≡ wire aead gs ++ (left ++ lost) =
      append-nil (wire aead fs)
      ∙ cut
      ∙ ap (λ l. l ++ lost) read
      ∙ append_assoc (wire aead gs) left lost in
    let nothing : [] ≡ left ++ lost =
      sym whole.3
      ∙ ap
          (λ (b : Bytes).
            (decrypt_stream aead (λ _. none) (record { bytes = b; ends = none })
              sink).1.source.bytes)
          same
      ∙ cut_off.3 in
    some_lost (
      length-zero lost
        (omega (arith, ap (λ (l : Bytes). length l) nothing, length-append left lost)))
