-- ===== src/Decrypt/Stream/Hashing.antt =====
-- What the reader of `Run` that mirrors its bytes to the hasher has hashed, at the end of
-- `decryptStream`.
use backupy_agent.Prelude.{
  ℕ, zero, suc, ◌+◌, ◌≡◌, refl, sym, ◌∙◌, ap, Option, List, [], ◌++◌, length, take, drop, ok, arith,
  append_assoc, All, take-append-drop, Option-cases, inl, inr, append_cancel_right,
}
use backupy_agent.Prelude.Bytes.{Bytes, IsByte}
use backupy_agent.Prelude.Words.{uint32}
use backupy_agent.Io.{Fault, Reader, read_full}
use backupy_agent.Cipher.{Aead, IsGcm}
use backupy_agent.Wire.{Frame, IsFrame, wire, plaintext}
use backupy_agent.Decrypt.Stream.{
  StreamState, Round, next, clean_eof, refuse, open_frame, read_frame, check_size, tee_read,
  read_header_of, decrypt_round, decrypt_loop, decrypt_stream,
}
use backupy_agent.Decrypt.Stream.Rounds.{loop-next, loop-clean, loop-refuse}
use backupy_agent.Decrypt.Stream.Accepting.{decrypt_loop-Accepted}

-- What is hashed and what is still to be read, together.
abbrev all_of : StreamState → Bytes
all_of s = s.hashed ++ s.source.bytes

abbrev state_of : Round → StreamState
state_of (next s) = s
state_of (clean_eof s) = s
state_of (refuse e s) = s

abbrev all_after : Round → Bytes
all_after r = all_of (state_of r)

all_of-tee_read : (n : ℕ) (s : StreamState) → all_of (tee_read n s).1 ≡ all_of s
unfolding tee_read read_full
all_of-tee_read n s =
    append_assoc s.hashed (take n s.source.bytes) (drop n s.source.bytes)
    ∙ ap (λ l. s.hashed ++ l) (take-append-drop n s.source.bytes)

module _ (aead : Aead) (ctx : ℕ → Option Fault) where
  all_of-open_frame :
      (size : ℕ) (frame : Bytes) (s : StreamState)
      → all_of (state_of (open_frame aead ctx size frame s)) ≡ all_of s
  unfolding open_frame
  all_of-open_frame size frame s = ground arith

  all_of-read_frame :
      (size : ℕ) (s : StreamState) → all_of (state_of (read_frame aead ctx size s)) ≡ all_of s
  unfolding read_frame
  all_of-read_frame size s =
      let (r, t) = tee_read size s in
      elim (Option-cases r.error) [
        | inl full ↦ rw (read_frame, full) (all_of-open_frame size r.got t ∙ all_of-tee_read size s)
        | inr (e, short) ↦ rw (read_frame, short) (all_of-tee_read size s)
      ]

  all_of-check_size :
      (size : ℕ) (s : StreamState) → all_of (state_of (check_size aead ctx size s)) ≡ all_of s
  unfolding check_size
  all_of-check_size size s = ground (arith, all_of-read_frame size s)

  all_of-read_header_of :
      (s : StreamState) → all_of (state_of (read_header_of aead ctx s)) ≡ all_of s
  unfolding read_header_of
  all_of-read_header_of s =
      let (r, t) = tee_read 4 s in
      elim (Option-cases r.error) [
        | inl full ↦
            rw (read_header_of, full)
              (all_of-check_size (uint32 r.got) (record t { processed = t.processed + 4 })
                ∙ all_of-tee_read 4 s)
        | inr (e, short) ↦ rw (read_header_of, short) (all_of-tee_read 4 s)
      ]

  all_of-decrypt_round : (s : StreamState) → all_of (state_of (decrypt_round aead ctx s)) ≡ all_of s
  unfolding decrypt_round
  all_of-decrypt_round s =
      ground (arith, all_of-read_header_of (record s { rounds = s.rounds + 1 }))

  all_of-decrypt_loop :
      (fuel : ℕ) (s : StreamState) → all_of (decrypt_loop aead ctx fuel s).1 ≡ all_of s
  all_of-decrypt_loop zero s = unfold decrypt_loop in refl
  all_of-decrypt_loop (suc fuel) s = from (decrypt_round aead ctx s) refl (all_of-decrypt_loop fuel)
    where
      from :
          (r : Round)
          → decrypt_round aead ctx s ≡ r
          → ((t : StreamState) → all_of (decrypt_loop aead ctx fuel t).1 ≡ all_of t)
          → all_of (decrypt_loop aead ctx (suc fuel) s).1 ≡ all_of s
      from (next t) e ih =
          rw (loop-next aead ctx fuel s e) (ih t ∙ ap all_after (sym e) ∙ all_of-decrypt_round s)
      from (clean_eof t) e ih =
          rw (loop-clean aead ctx fuel s e) (ap all_after (sym e) ∙ all_of-decrypt_round s)
      from (refuse x t) e ih =
          rw (loop-refuse aead ctx fuel s e) (ap all_after (sym e) ∙ all_of-decrypt_round s)

  -- A successful run has hashed just the frames that it has decrypted.
  pub decrypt_stream_hashes :
      (gcm : IsGcm aead) (source : Reader) (room : Option ℕ)
      → All IsByte source.bytes
      → let (r, s) = decrypt_stream aead ctx source (record { written = []; room = room }) in
        r ≡ ok tt
        → (fs : List Frame) × All IsFrame fs
          × (source.bytes ≡ wire aead fs ++ s.source.bytes)
          × (s.out.written ≡ plaintext fs)
          × (s.hashed ≡ wire aead fs)
  unfolding decrypt_stream
  decrypt_stream_hashes gcm source room byte h =
      let s : StreamState = record {
        source = source;
        out = record { written = []; room = room };
        hashed = [];
        processed = 0;
        reports = [];
        rounds = 0;
      } in
      let fuel = suc (length source.bytes) in
      let (fs, a) = decrypt_loop-Accepted aead gcm ctx fuel s byte h in
      let t = (decrypt_loop aead ctx fuel s).1 in
      (
        fs,
        a.frames,
        a.read,
        a.wrote,
        append_cancel_right t.hashed (wire aead fs) t.source.bytes
            (all_of-decrypt_loop fuel s ∙ a.read),
      )
