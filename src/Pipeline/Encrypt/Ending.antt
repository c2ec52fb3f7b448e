-- ===== src/Pipeline/Encrypt/Ending.antt =====
-- The end of the loops of encrypt.go, with the length of the input as their fuel.
use backupy_agent.Prelude.{
  [], ◌∷◌, ℕ, zero, suc, ◌<◌, ◌≡◌, ◌≢◌, refl, Option, none, some, length, err, arith, length-drop,
  Option-cases, inl, inr, take,
}
use backupy_agent.Prelude.Bytes.{Bytes}
use backupy_agent.Io.{Reader, Writer, read_full}
use backupy_agent.Cipher.{Aead, Random}
use backupy_agent.Pipeline.Encrypt.{
  StreamState, CryptError, out_of_fuel, Round, again, stop, fail, stream_round, stream_loop, stream,
  finish, write_frame, seal_chunk, chunk_plain_size,
}

module _ (aead : Aead) (rand : Random) (size : ℕ) (pos : 0 < size) where
  seal_chunk_keeps :
      (p : Bytes) (s : StreamState) → (seal_chunk aead rand size p s).1.source ≡ s.source
  unfolding seal_chunk
  seal_chunk_keeps [] s = refl
  seal_chunk_keeps (b ∷ bs) s = ground arith

  write_frame_has_fuel : (n ct : Bytes) (w : Writer) → (write_frame n ct w).0 ≢ some out_of_fuel
  unfolding write_frame
  write_frame_has_fuel n ct w h = ground arith

  seal_chunk_has_fuel :
      (p : Bytes) (s : StreamState) → (seal_chunk aead rand size p s).0 ≢ some out_of_fuel
  unfolding seal_chunk
  seal_chunk_has_fuel [] s h = cc
  seal_chunk_has_fuel (b ∷ bs) s h = elim (Option-cases (rand s.draws)) [
    | inl e ↦ ground arith
    | inr (n, e) ↦ ground (arith, write_frame_has_fuel n (aead.seal n (b ∷ bs)) s.out)
  ]

  round_takes :
      (s : StreamState) {s' : StreamState}
      → stream_round aead rand size s ≡ again s'
      → length s'.source.bytes < length s.source.bytes
  unfolding stream_round read_full
  round_takes s h = ground (
    arith,
    seal_chunk_keeps (take size s.source.bytes)
        (record s { source = (read_full size s.source).rest }),
    length-drop size s.source.bytes,
  )

  round_has_fuel :
      (s : StreamState) (e : CryptError) {s' : StreamState}
      → stream_round aead rand size s ≡ fail e s'
      → e ≢ out_of_fuel
  unfolding stream_round
  round_has_fuel s e h q = ground (
    arith,
    seal_chunk_has_fuel (read_full size s.source).got
        (record s { source = (read_full size s.source).rest }),
  )

  loop-again :
      (fuel : ℕ) (s : StreamState) {s' : StreamState}
      → stream_round aead rand size s ≡ again s'
      → stream_loop aead rand size (suc fuel) s ≡ stream_loop aead rand size fuel s'
  unfolding stream_loop
  loop-again fuel s h = ground arith

  loop-stop :
      (fuel : ℕ) (s : StreamState) {s' : StreamState}
      → stream_round aead rand size s ≡ stop s'
      → (stream_loop aead rand size (suc fuel) s).0 ≢ err out_of_fuel
  unfolding stream_loop finish
  loop-stop fuel s h q = ground arith

  loop-fail :
      (fuel : ℕ) (s : StreamState) {e : CryptError} {s' : StreamState}
      → stream_round aead rand size s ≡ fail e s'
      → stream_loop aead rand size (suc fuel) s ≡ (err e, s')
  unfolding stream_loop
  loop-fail fuel s h = ground arith

  stream_loop_ends :
      (fuel : ℕ) (s : StreamState)
      → length s.source.bytes < fuel
      → (stream_loop aead rand size fuel s).0 ≢ err out_of_fuel
  stream_loop_ends zero s lt = absurd (omega arith)
  stream_loop_ends (suc fuel) s lt =
      from (stream_round aead rand size s) refl (stream_loop_ends fuel)
    where
      from :
          (r : Round)
          → stream_round aead rand size s ≡ r
          → ((s' : StreamState)
              → length s'.source.bytes < fuel
              → (stream_loop aead rand size fuel s').0 ≢ err out_of_fuel)
          → (stream_loop aead rand size (suc fuel) s).0 ≢ err out_of_fuel
      from (again s') e ih = rw (loop-again fuel s e) (ih s' (omega (arith, round_takes s e)))
      from (stop s') e ih = loop-stop fuel s e
      from (fail x s') e ih =
          rw (loop-fail fuel s e)
            (λ q. let x_fuel : x ≡ out_of_fuel = cc in round_has_fuel s x e x_fuel)

-- `Stream` ends on every input, with every encryptor, source of randomness and writer.
pub stream_ends :
    (aead : Option Aead) (rand : Random) (source : Reader) (out : Writer)
    → (stream aead rand source out).0 ≢ err out_of_fuel
unfolding stream
stream_ends none rand source out = λ q. cc
stream_ends (some aead) rand source out =
    stream_loop_ends aead rand chunk_plain_size (omega arith) (suc (length source.bytes)) _
      (omega arith)
