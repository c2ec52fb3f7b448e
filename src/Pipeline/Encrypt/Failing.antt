-- ===== src/Pipeline/Encrypt/Failing.antt =====
-- What `Stream` of encrypt.go has written when it returns an error.
mod Cuts
use backupy_agent.Prelude.{
  ℕ, zero, suc, ◌+◌, ◌%◌, ◌<◌, ◌≤◌, ◌^◌, ◌≡◌, ◌≢◌, refl, sym, ◌∙◌, Option, none, some, List, [],
  ◌∷◌, ◌++◌, length, take, drop, Result, err, arith, append_assoc, append-nil, All, length-append,
  take-append-drop, length-take, length-drop, inl, inr, true, false, Bool-cases, Option-cases, ap,
}
use backupy_agent.Prelude.Bytes.{Bytes}
use backupy_agent.Prelude.Words.{put_uint32, length-put_uint32}
use backupy_agent.Io.{Reader, read_full, ReadError, eof, unexpected_eof, failed, Writer, write}
use backupy_agent.Cipher.{Aead, IsGcm, Random}
use backupy_agent.Wire.{Frame, IsFrame, ciphertext, frame_bytes, wire}
use backupy_agent.Pipeline.Encrypt.{
  StreamState, read_nonce, Round, again, stop, fail, write_frame, after_read, seal_chunk,
  stream_round, finish, stream_loop, stream, CryptError, chunk_plain_size,
}
use backupy_agent.Pipeline.Encrypt.Failing.Cuts.{
  Cut, Cut-behind, Cut-before, Cut-nothing, write-true, write-false, write_frame-none, framed,
  write_frame-some,
}

module _ (aead : Aead) (gcm : IsGcm aead) (rand : Random)
    (full : (k : ℕ) (n : Bytes) → rand k ≡ some n → length n ≡ 12) (size : ℕ)
    (fits : size ≤ 2 ^ 20) where
  -- A round wrote no frame, or one.
  data Grew (w w' : Writer) : Type 0 where
    same : w'.written ≡ w.written → Grew w w'
    one : (f : Frame) → IsFrame f → w'.written ≡ w.written ++ frame_bytes aead f → Grew w w'

  record CutWire (w w' : Writer) : Type 0 where
    frames : List Frame
    proper : All IsFrame frames
    short : Cut (wire aead frames) w w'

  CutWire-Grew : (w w' w'' : Writer) → Grew w w' → CutWire w' w'' → CutWire w w''
  unfolding wire
  CutWire-Grew w w' w'' (same e) c = record {
    frames = c.frames;
    proper = c.proper;
    short = record {
      kept = c.short.kept;
      lost = c.short.lost;
      whole = c.short.whole;
      cut = c.short.cut;
      wrote = c.short.wrote ∙ ap (λ l. l ++ c.short.kept) e;
    };
  }
  CutWire-Grew w w' w'' (one f h e) c = record {
    frames = f ∷ c.frames;
    proper = (h, c.proper);
    short = Cut-behind (frame_bytes aead f) (wire aead c.frames) w w' w'' e c.short;
  }

  CutWire-nothing : (w w' : Writer) → w'.written ≡ w.written → CutWire w w'
  unfolding wire
  CutWire-nothing w w' e = record {
    frames = [];
    proper = tt;
    short = Cut-nothing (put_uint32 0) w w' (omega (arith, length-put_uint32 0)) e;
  }

  framed-eq-frame_bytes :
      (f : Frame) → IsFrame f → framed f.nonce (ciphertext aead f) ≡ frame_bytes aead f
  unfolding frame_bytes
  framed-eq-frame_bytes f h =
      let e : (length f.nonce + length (ciphertext aead f)) % 2 ^ 32
          ≡ 12 + length (ciphertext aead f) =
        omega (arith, gcm.sealed_length f.nonce f.plain, h.plain_fits, h.nonce_full) in
      ap (λ n. put_uint32 n ++ (f.nonce ++ ciphertext aead f)) e

  seal_chunk-write_frame :
      (b : ℕ) (bs nonce : Bytes) (s : StreamState)
      → rand s.draws ≡ some nonce
      → let r = seal_chunk aead rand size (b ∷ bs) s in
        let w = write_frame nonce (aead.seal nonce (b ∷ bs)) s.out in (r.0 ≡ w.0) × (r.1.out ≡ w.1)
  unfolding seal_chunk
  seal_chunk-write_frame b bs nonce s h = (ground arith, ground arith)

  seal_chunk-no_nonce :
      (b : ℕ) (bs : Bytes) (s : StreamState)
      → rand s.draws ≡ none
      → let r = seal_chunk aead rand size (b ∷ bs) s in (r.0 ≡ some read_nonce) × (r.1.out ≡ s.out)
  unfolding seal_chunk
  seal_chunk-no_nonce b bs s h = ground arith

  abbrev frame_of : Bytes → Bytes → Frame
  frame_of nonce p = record { nonce = nonce; plain = p }

  frame_of-IsFrame :
      (p nonce : Bytes) (k : ℕ) → length p ≤ size → rand k ≡ some nonce → IsFrame (frame_of nonce p)
  frame_of-IsFrame p nonce k small h = record {
    nonce_full = full k nonce h;
    plain_fits = omega arith;
  }

  seal_chunk-none :
      (p : Bytes) (s : StreamState)
      → length p ≤ size
      → (seal_chunk aead rand size p s).0 ≡ none
      → Grew s.out (seal_chunk aead rand size p s).1.out
  seal_chunk-none [] s small h = unfold seal_chunk in same refl
  seal_chunk-none (b ∷ bs) s small h = elim (Option-cases (rand s.draws)) [
    | inl e ↦ absurd (cc ((seal_chunk-no_nonce b bs s e).0, h))
    | inr (nonce, e) ↦
        let f = frame_of nonce (b ∷ bs) in
        let h' = frame_of-IsFrame (b ∷ bs) nonce s.draws small e in
        let (r, w) = seal_chunk-write_frame b bs nonce s e in
        one f h' (
          ap (λ (x : Writer). x.written) w
          ∙ write_frame-none nonce (ciphertext aead f) s.out (sym r ∙ h)
          ∙ ap (λ l. s.out.written ++ l) (framed-eq-frame_bytes f h'))
  ]

  seal_chunk-some :
      (p : Bytes) (s : StreamState) {e : CryptError}
      → length p ≤ size
      → (seal_chunk aead rand size p s).0 ≡ some e
      → CutWire s.out (seal_chunk aead rand size p s).1.out
  seal_chunk-some [] s small h = absurd (unfold seal_chunk in cc)
  seal_chunk-some (b ∷ bs) s {e} small h = elim (Option-cases (rand s.draws)) [
    | inl q ↦
        CutWire-nothing s.out _ (ap (λ (x : Writer). x.written) (seal_chunk-no_nonce b bs s q).1)
    | inr (nonce, q) ↦
        let f = frame_of nonce (b ∷ bs) in
        let h' = frame_of-IsFrame (b ∷ bs) nonce s.draws small q in
        let (r, w) = seal_chunk-write_frame b bs nonce s q in
        let c : Cut (frame_bytes aead f) s.out (seal_chunk aead rand size (b ∷ bs) s).1.out =
          rw (w, ← framed-eq-frame_bytes f h')
            (write_frame-some nonce (ciphertext aead f) s.out {e = e} (sym r ∙ h)) in
        record {
          frames = f ∷ [];
          proper = (h', tt);
          short = unfold wire in Cut-before (frame_bytes aead f) (put_uint32 0) s.out _ c;
        }
  ]

  -- The state that a round hands to `seal_chunk`.
  abbrev fetched : StreamState → StreamState
  fetched s = record s { source = (read_full size s.source).rest }

  abbrev got : StreamState → Bytes
  got s = (read_full size s.source).got

  got-small : (s : StreamState) → length (got s) ≤ size
  unfolding read_full
  got-small s = omega (arith, length-take size s.source.bytes)

  abbrev chunked : StreamState → Option CryptError × StreamState
  chunked s = seal_chunk aead rand size (got s) (fetched s)

  round-seal_failed :
      (s : StreamState) {e : CryptError}
      → (chunked s).0 ≡ some e
      → stream_round aead rand size s ≡ fail e (chunked s).1
  unfolding stream_round
  round-seal_failed s h = ground arith

  round-sealed :
      (s : StreamState)
      → (chunked s).0 ≡ none
      → stream_round aead rand size s ≡ after_read (read_full size s.source).error (chunked s).1
  unfolding stream_round
  round-sealed s h = ground arith

  -- What a round leaves in the writer, by the way that it goes.
  Left : Writer → Round → Type 0
  Left w (again s') = Grew w s'.out
  Left w (stop s') = Grew w s'.out
  Left w (fail e s') = CutWire w s'.out

  after_read-Left :
      (o : Option ReadError) (w : Writer) (s' : StreamState)
      → Grew w s'.out
      → Left w (after_read o s')
  unfolding Left after_read
  after_read-Left none w s' g = g
  after_read-Left (some eof) w s' g = g
  after_read-Left (some unexpected_eof) w s' g = g
  after_read-Left (some (failed e)) w s' g =
      CutWire-Grew w s'.out s'.out g (CutWire-nothing s'.out s'.out refl)

  stream_round-Left : (s : StreamState) → Left s.out (stream_round aead rand size s)
  stream_round-Left s = elim (Option-cases (chunked s).0) [
    | inl e ↦ rw (round-sealed s e) (
        after_read-Left _ s.out (chunked s).1 (seal_chunk-none (got s) (fetched s) (got-small s) e))
    | inr (x, e) ↦
        rw (round-seal_failed s e)
          (unfold Left in seal_chunk-some (got s) (fetched s) {e = x} (got-small s) e)
  ]

  finish-CutWire :
      (s : StreamState) {e : CryptError}
      → (finish aead rand size s).0 ≡ err e
      → CutWire s.out (finish aead rand size s).1.out
  unfolding finish wire
  finish-CutWire s h = record {
    frames = [];
    proper = tt;
    short = write-false (put_uint32 0) s.out (ground arith);
  }

  loop-again :
      (fuel : ℕ) (s : StreamState) {s' : StreamState}
      → stream_round aead rand size s ≡ again s'
      → stream_loop aead rand size (suc fuel) s ≡ stream_loop aead rand size fuel s'
  unfolding stream_loop
  loop-again fuel s h = ground arith

  loop-stop :
      (fuel : ℕ) (s : StreamState) {s' : StreamState}
      → stream_round aead rand size s ≡ stop s'
      → stream_loop aead rand size (suc fuel) s ≡ finish aead rand size s'
  unfolding stream_loop
  loop-stop fuel s h = ground arith

  loop-fail :
      (fuel : ℕ) (s : StreamState) {e : CryptError} {s' : StreamState}
      → stream_round aead rand size s ≡ fail e s'
      → stream_loop aead rand size (suc fuel) s ≡ (err e, s')
  unfolding stream_loop
  loop-fail fuel s h = ground arith

  abbrev Fails : ℕ → StreamState → Type 0
  Fails fuel s =
      (e : CryptError)
      → (stream_loop aead rand size fuel s).0 ≡ err e
      → CutWire s.out (stream_loop aead rand size fuel s).1.out

  stream_loop-CutWire : (fuel : ℕ) (s : StreamState) → Fails fuel s
  stream_loop-CutWire zero s = λ e h. unfold stream_loop in CutWire-nothing s.out s.out refl
  stream_loop-CutWire (suc fuel) s =
      from (stream_round aead rand size s) refl (stream_round-Left s) (stream_loop-CutWire fuel)
    where
      from :
          (r : Round)
          → stream_round aead rand size s ≡ r
          → Left s.out r
          → ((s' : StreamState) → Fails fuel s')
          → Fails (suc fuel) s
      from (again s') q g ih e h = rw (loop-again fuel s q) (
          CutWire-Grew s.out s'.out _ (unfold Left in g) (
            ih s' e (
              sym (ap (λ (r : Result CryptError ℕ × StreamState). r.0) (loop-again fuel s q)) ∙ h)))
      from (stop s') q g ih e h = rw (loop-stop fuel s q) (
          CutWire-Grew s.out s'.out _ (unfold Left in g) (
            finish-CutWire s' {e = e}
              (sym (ap (λ (r : Result CryptError ℕ × StreamState). r.0) (loop-stop fuel s q)) ∙ h)))
      from (fail x s') q g ih e h = rw (loop-fail fuel s q) (unfold Left in g)

-- Whenever `Stream` returns an error, of whatever source, nonce or write it comes, it has written
-- a proper prefix of a wire stream.
pub stream-cut :
    (aead : Aead) (gcm : IsGcm aead) (rand : Random)
    (full : (k : ℕ) (n : Bytes) → rand k ≡ some n → length n ≡ 12) (source : Reader)
    (room : Option ℕ) (e : CryptError)
    → let (r, s) = stream (some aead) rand source (record { written = []; room = room }) in
      r ≡ err e
      → (fs : List Frame) × (lost : Bytes) × All IsFrame fs
        × (wire aead fs ≡ s.out.written ++ lost)
        × (lost ≢ [])
unfolding stream
stream-cut aead gcm rand full source room e h =
    let c =
      stream_loop-CutWire aead gcm rand full chunk_plain_size (omega arith)
        (suc (length source.bytes)) _ e h in
    (
      c.frames,
      c.short.lost,
      c.proper,
      sym c.short.whole ∙ ap (λ l. l ++ c.short.lost) (sym c.short.wrote),
      λ q. omega (arith, c.short.cut, ap (λ (l : Bytes). length l) q),
    )
