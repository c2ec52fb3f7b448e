-- ===== src/Decrypt/Stream/Ending.antt =====
-- The end of the loop of `decryptStream`, with the length of the input as its fuel.
use backupy_agent.Prelude.{
  ℕ, zero, suc, ◌+◌, ◌<◌, ◌≡◌, ◌≢◌, refl, sym, ◌∙◌, ap, Option, length, leb, err, arith,
  length-drop, Bool-cases, Option-cases, inl, inr, take,
}
use backupy_agent.Prelude.Words.{uint32}
use backupy_agent.Prelude.Bytes.{Bytes}
use backupy_agent.Io.{Fault, Reader, Writer}
use backupy_agent.Cipher.{Aead}
use backupy_agent.Decrypt.Stream.{
  StreamState, StreamError, out_of_fuel, Round, next, clean_eof, refuse, read_header_of,
  decrypt_round, decrypt_loop, decrypt_stream, open_frame,
}
use backupy_agent.Decrypt.Stream.Rounds.{
  taken, read_header_of-full, read_header_of-short, check_size-next, read_frame-next, loop-next,
  loop-clean, loop-refuse,
}

module _ (aead : Aead) (ctx : ℕ → Option Fault) where
  header_takes :
      (s : StreamState) {s' : StreamState}
      → read_header_of aead ctx s ≡ next s'
      → length s'.source.bytes < length s.source.bytes
  header_takes s {s'} h = elim (Bool-cases (leb 4 (length s.source.bytes))) [
    | inr short ↦ absurd (read_header_of-short aead ctx s short h)
    | inl full ↦
        let size = uint32 (take 4 s.source.bytes) in
        let t : StreamState = record (taken aead ctx 4 s) { processed = s.processed + 4 } in
        let (lo, hi, reading) =
          check_size-next aead ctx size t {s' = s'}
            (sym (read_header_of-full aead ctx s full) ∙ h) in
        let (pt, fits, opened, rest, wrote) = read_frame-next aead ctx size t {s' = s'} reading in
        omega (
          arith,
          ap (λ (l : Bytes). length l) rest,
          length-drop size t.source.bytes,
          length-drop 4 s.source.bytes,
        )
  ]

  round_takes :
      (s : StreamState) {s' : StreamState}
      → decrypt_round aead ctx s ≡ next s'
      → length s'.source.bytes < length s.source.bytes
  unfolding decrypt_round
  round_takes s {s'} h = elim (Option-cases (ctx s.rounds)) [
    | inl live ↦ header_takes (record s { rounds = s.rounds + 1 }) {s' = s'} (ground arith)
    | inr (e, dead) ↦ absurd (ground arith)
  ]

  open_has_fuel :
      (size : ℕ) (frame : Bytes) (s s' : StreamState)
      → open_frame aead ctx size frame s ≢ refuse out_of_fuel s'
  unfolding open_frame
  open_has_fuel size frame s s' h = ground arith

  round_has_fuel :
      (s : StreamState) (e : StreamError) {s' : StreamState}
      → decrypt_round aead ctx s ≡ refuse e s'
      → e ≢ out_of_fuel
  unfolding decrypt_round
  round_has_fuel s e h q = ground arith

  decrypt_loop_ends :
      (fuel : ℕ) (s : StreamState)
      → length s.source.bytes < fuel
      → (decrypt_loop aead ctx fuel s).0 ≢ err out_of_fuel
  decrypt_loop_ends zero s lt = absurd (omega arith)
  decrypt_loop_ends (suc fuel) s lt = from (decrypt_round aead ctx s) refl (decrypt_loop_ends fuel)
    where
      from :
          (r : Round)
          → decrypt_round aead ctx s ≡ r
          → ((s' : StreamState)
              → length s'.source.bytes < fuel
              → (decrypt_loop aead ctx fuel s').0 ≢ err out_of_fuel)
          → (decrypt_loop aead ctx (suc fuel) s).0 ≢ err out_of_fuel
      from (next s') e ih =
          rw (loop-next aead ctx fuel s e) (ih s' (omega (arith, round_takes s e)))
      from (clean_eof s') e ih = rw (loop-clean aead ctx fuel s e) (λ q. cc)
      from (refuse x s') e ih =
          rw (loop-refuse aead ctx fuel s e)
            (λ q. let x_fuel : x ≡ out_of_fuel = cc in round_has_fuel s x e x_fuel)

  -- The loop ends on every input, under every key, context and writer.
  pub decrypt_stream_ends :
      (source : Reader) (out : Writer) → (decrypt_stream aead ctx source out).0 ≢ err out_of_fuel
  unfolding decrypt_stream
  decrypt_stream_ends source out = decrypt_loop_ends (suc (length source.bytes)) _ (omega arith)
