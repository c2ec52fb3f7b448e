-- ===== src/Decrypt/Stream/Rounds.antt =====
-- Inversion of the parts of a round of `decryptStream`: what a round that goes on, or that ends
-- cleanly, says of the bytes before it.
use backupy_agent.Prelude.{
  ℕ, suc, ◌+◌, ◌≤◌, ◌≡◌, ◌≢◌, sym, ◌∙◌, ap, true, false, Option, some, ◌++◌, length, take, drop,
  leb, ok, err, arith, Bool-cases, Option-cases, leb→le, inl, inr,
}
use backupy_agent.Prelude.Bytes.{Bytes}
use backupy_agent.Prelude.Words.{uint32}
use backupy_agent.Io.{Fault, Reader, read_full, write}
use backupy_agent.Cipher.{Aead}
use backupy_agent.Decrypt.Stream.{
  StreamState, StreamError, next, clean_eof, refuse, check_size, read_frame, open_frame,
  read_header_of, decrypt_round, decrypt_loop, max_frame_size,
}

module _ (aead : Aead) (ctx : ℕ → Option Fault) where
  pub open_frame-next :
      (size : ℕ) (frame : Bytes) (s : StreamState) {s' : StreamState}
      → open_frame aead ctx size frame s ≡ next s'
      → (pt : Bytes) × (aead.open_sealed (take 12 frame) (drop 12 frame) ≡ some pt)
        × (s'.source ≡ s.source)
        × (s'.out.written ≡ s.out.written ++ pt)
  unfolding open_frame write
  open_frame-next size frame s h =
      elim (Option-cases (aead.open_sealed (take 12 frame) (drop 12 frame))) [
        | inl e ↦ absurd (ground arith)
        | inr (pt, e) ↦ (pt, e, ground arith, ground arith)
      ]

  abbrev pub taken : ℕ → StreamState → StreamState
  taken n s = record s {
    source = record s.source { bytes = drop n s.source.bytes };
    hashed = s.hashed ++ take n s.source.bytes;
  }

  pub read_frame-full :
      (size : ℕ) (s : StreamState)
      → leb size (length s.source.bytes) ≡ true
      → read_frame aead ctx size s
        ≡ open_frame aead ctx size (take size s.source.bytes) (taken size s)
  unfolding read_frame read_full
  read_frame-full size s h = ground arith

  pub read_frame-short :
      (size : ℕ) (s : StreamState) {s' : StreamState}
      → leb size (length s.source.bytes) ≡ false
      → read_frame aead ctx size s ≢ next s'
  unfolding read_frame read_full
  read_frame-short size s h e = ground arith

  pub read_frame-next :
      (size : ℕ) (s : StreamState) {s' : StreamState}
      → read_frame aead ctx size s ≡ next s'
      → (pt : Bytes) × (size ≤ length s.source.bytes)
        × (aead.open_sealed
              (take 12 (take size s.source.bytes))
              (drop 12 (take size s.source.bytes))
            ≡ some pt)
        × (s'.source.bytes ≡ drop size s.source.bytes)
        × (s'.out.written ≡ s.out.written ++ pt)
  read_frame-next size s {s'} h = elim (Bool-cases (leb size (length s.source.bytes))) [
    | inl full ↦
        let (pt, opened, source, wrote) =
          open_frame-next size (take size s.source.bytes) (taken size s) {s' = s'}
            (sym (read_frame-full size s full) ∙ h) in
        (pt, leb→le _ _ full, opened, ap (λ (r : Reader). r.bytes) source, wrote)
    | inr short ↦ absurd (read_frame-short size s short h)
  ]

  pub check_size-next :
      (size : ℕ) (s : StreamState) {s' : StreamState}
      → check_size aead ctx size s ≡ next s'
      → (28 ≤ size) × (size ≤ max_frame_size) × (read_frame aead ctx size s ≡ next s')
  unfolding check_size
  check_size-next size s h = (ground arith, ground arith, ground arith)

  pub read_header_of-full :
      (s : StreamState)
      → leb 4 (length s.source.bytes) ≡ true
      → read_header_of aead ctx s
        ≡ check_size aead ctx
            (uint32 (take 4 s.source.bytes))
            (record (taken 4 s) { processed = s.processed + 4 })
  unfolding read_header_of read_full
  read_header_of-full s h = ground arith

  pub read_header_of-short :
      (s : StreamState) {s' : StreamState}
      → leb 4 (length s.source.bytes) ≡ false
      → read_header_of aead ctx s ≢ next s'
  unfolding read_header_of read_full
  read_header_of-short s h e = ground arith

  pub check_size-eof :
      (size : ℕ) (s : StreamState) {s' : StreamState}
      → check_size aead ctx size s ≡ clean_eof s'
      → (size ≡ 0) × (s'.source ≡ s.source) × (s'.out ≡ s.out)
  unfolding check_size read_frame open_frame
  check_size-eof size s h = ground arith

  pub loop-next :
      (fuel : ℕ) (s : StreamState) {s' : StreamState}
      → decrypt_round aead ctx s ≡ next s'
      → decrypt_loop aead ctx (suc fuel) s ≡ decrypt_loop aead ctx fuel s'
  unfolding decrypt_loop
  loop-next fuel s h = ground arith

  pub loop-clean :
      (fuel : ℕ) (s : StreamState) {s' : StreamState}
      → decrypt_round aead ctx s ≡ clean_eof s'
      → decrypt_loop aead ctx (suc fuel) s ≡ (ok tt, s')
  unfolding decrypt_loop
  loop-clean fuel s h = ground arith

  pub loop-refuse :
      (fuel : ℕ) (s : StreamState) {e : StreamError} {s' : StreamState}
      → decrypt_round aead ctx s ≡ refuse e s'
      → decrypt_loop aead ctx (suc fuel) s ≡ (err e, s')
  unfolding decrypt_loop
  loop-refuse fuel s h = ground arith
