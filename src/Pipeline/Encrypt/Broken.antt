-- ===== src/Pipeline/Encrypt/Broken.antt =====
-- `Stream` of a source that ends with an error.
use backupy_agent.Prelude.{
  ℕ, zero, suc, ◌≡◌, refl, sym, ◌∙◌, ap, Option-cases, ◌⊎◌, inl, inr, Option, none, some, [], ◌∷◌,
  length, Result, ok, err, arith,
}
use backupy_agent.Prelude.Bytes.{Bytes}
use backupy_agent.Io.{Reader, ReadError, eof, unexpected_eof, failed, read_full, Writer}
use backupy_agent.Cipher.{Aead, Random}
use backupy_agent.Pipeline.Encrypt.{
  CryptError, StreamState, Round, again, stop, fail, after_read, seal_chunk, stream_round,
  stream_loop, stream,
}

module _ (aead : Aead) (rand : Random) (size : ℕ) where
  seal_chunk_source :
      (b : Bytes) (s : StreamState) → (seal_chunk aead rand size b s).1.source ≡ s.source
  unfolding seal_chunk
  seal_chunk_source [] s = refl
  seal_chunk_source (b ∷ bs) s = ground arith

  read_full_ends : (r : Reader) → (read_full size r).rest.ends ≡ r.ends
  unfolding read_full
  read_full_ends r = refl

  read_full_whole :
      (r : Reader)
      → ((read_full size r).error ≡ some eof) ⊎ ((read_full size r).error ≡ some unexpected_eof)
      → r.ends ≡ none
  unfolding read_full
  read_full_whole r h = ground arith

  after_read_again :
      (e : Option ReadError) (s : StreamState) {s' : StreamState}
      → after_read e s ≡ again s'
      → s' ≡ s
  unfolding after_read
  after_read_again none s h = ground arith
  after_read_again (some eof) s h = absurd (ground arith)
  after_read_again (some unexpected_eof) s h = absurd (ground arith)
  after_read_again (some (failed e)) s h = absurd (ground arith)

  after_read_stop :
      (e : Option ReadError) (s : StreamState) {s' : StreamState}
      → after_read e s ≡ stop s'
      → (e ≡ some eof) ⊎ (e ≡ some unexpected_eof)
  unfolding after_read
  after_read_stop none s h = absurd (ground arith)
  after_read_stop (some eof) s h = inl refl
  after_read_stop (some unexpected_eof) s h = inr refl
  after_read_stop (some (failed e)) s h = absurd (ground arith)

  round_reads :
      (s : StreamState)
      → let r = read_full size s.source in
        let (e, s1) = seal_chunk aead rand size r.got (record s { source = r.rest }) in
        (s1.source ≡ r.rest)
        × ((stream_round aead rand size s ≡ after_read r.error s1)
            ⊎ ((x : CryptError) × (stream_round aead rand size s ≡ fail x s1)))
  unfolding stream_round
  round_reads s =
      let r = read_full size s.source in
      let s0 : StreamState = record s { source = r.rest } in
      let (e, s1) = seal_chunk aead rand size r.got s0 in
      (
        seal_chunk_source r.got s0,
        elim (Option-cases e) [
          | inl fine ↦ inl (rw (stream_round, fine) refl)
          | inr (x, bad) ↦ inr (x, rw (stream_round, bad) refl)
        ],
      )

  round_again :
      (s : StreamState) {s' : StreamState}
      → stream_round aead rand size s ≡ again s'
      → s'.source.ends ≡ s.source.ends
  round_again s {s'} h =
      let r = read_full size s.source in
      let (same, cases) = round_reads s in
      elim cases [
        | inr (x, bad) ↦ absurd (ground arith)
        | inl good ↦
            let back = after_read_again r.error _ (sym good ∙ h) in
            ap (λ (t : StreamState). t.source.ends) back
            ∙ ap (λ (q : Reader). q.ends) same
            ∙ read_full_ends s.source
      ]

  round_stop :
      (s : StreamState) {s' : StreamState}
      → stream_round aead rand size s ≡ stop s'
      → s.source.ends ≡ none
  round_stop s h =
      let r = read_full size s.source in
      let (same, cases) = round_reads s in
      elim cases [
        | inr (x, bad) ↦ absurd (ground arith)
        | inl good ↦ read_full_whole s.source (after_read_stop r.error _ (sym good ∙ h))
      ]

  stream_loop_whole :
      (fuel : ℕ) (s : StreamState) (n : ℕ)
      → (stream_loop aead rand size fuel s).0 ≡ ok n
      → s.source.ends ≡ none
  unfolding stream_loop
  stream_loop_whole zero s n h = absurd (ground arith)
  stream_loop_whole (suc fuel) s n h =
      from (stream_round aead rand size s) refl (stream_loop_whole fuel)
    where
      from :
          (r : Round)
          → stream_round aead rand size s ≡ r
          → ((s' : StreamState) (n : ℕ)
              → (stream_loop aead rand size fuel s').0 ≡ ok n
              → s'.source.ends ≡ none)
          → s.source.ends ≡ none
      from (again s') e ih =
          let step : stream_loop aead rand size (suc fuel) s ≡ stream_loop aead rand size fuel s' =
            rw (stream_loop, e) refl in
          sym (round_again s e)
          ∙ ih s' n (sym (ap (λ (p : Result CryptError ℕ × StreamState). p.0) step) ∙ h)
      from (stop s') e ih = round_stop s e
      from (fail x s') e ih =
          let step : stream_loop aead rand size (suc fuel) s ≡ (err x, s') =
            rw (stream_loop, e) refl in
          absurd (ground arith)

-- `Stream` succeeds only on a source that ends with `io.EOF`.
pub stream_whole :
    (aead : Option Aead) (rand : Random) (source : Reader) (out : Writer) {n : ℕ}
    → (stream aead rand source out).0 ≡ ok n
    → source.ends ≡ none
unfolding stream
stream_whole none rand source out h = absurd (ground arith)
stream_whole (some aead) rand source out {n} h =
    stream_loop_whole aead rand _ (suc (length source.bytes)) _ n h
