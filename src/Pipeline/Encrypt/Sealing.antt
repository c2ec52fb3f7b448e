-- ===== src/Pipeline/Encrypt/Sealing.antt =====
-- What `Stream` of encrypt.go writes.
use backupy_agent.Prelude.{
  ℕ, zero, suc, ◌+◌, ◌%◌, ◌<◌, ◌≤◌, ◌^◌, ◌≡◌, refl, sym, ◌∙◌, none, some, List, [], ◌∷◌, ◌++◌,
  length, take, drop, Result, ok, arith, append_assoc, append-nil, All, take-append-drop,
  length-zero, length-take, length-drop, ap,
}
use native.Mathlib.Decide.{dec_lt}
use backupy_agent.Prelude.Bytes.{Bytes}
use backupy_agent.Prelude.Words.{put_uint32}
use backupy_agent.Io.{read_full-append, read_full_short, Writer, write}
use backupy_agent.Cipher.{Aead, IsGcm, Random, IsRandom}
use backupy_agent.Wire.{Frame, IsFrame, ciphertext, frame_bytes, wire, plaintext}
use backupy_agent.Pipeline.Encrypt.{
  StreamState, again, stop, write_frame, seal_chunk, stream_round, finish, stream_loop, stream,
  CryptError, chunk_plain_size,
}

module _ (aead : Aead) (gcm : IsGcm aead) where
  write_frame-ok :
      (f : Frame) (w : Writer)
      → IsFrame f
      → w.room ≡ none
      → write_frame f.nonce (ciphertext aead f) w
        ≡ (none, record { written = w.written ++ frame_bytes aead f; room = none })
  unfolding write_frame write frame_bytes
  write_frame-ok f w h room =
      let n = put_uint32 (12 + length (ciphertext aead f)) in
      let e : (length f.nonce + length (ciphertext aead f)) % 2 ^ 32
          ≡ 12 + length (ciphertext aead f) =
        omega (arith, gcm.sealed_length f.nonce f.plain, h.plain_fits, h.nonce_full) in
      ground (
        arith,
        ap put_uint32 e,
        append_assoc w.written n f.nonce,
        append_assoc (w.written ++ n) f.nonce (ciphertext aead f),
        append_assoc w.written n (f.nonce ++ ciphertext aead f),
      )

module _ (aead : Aead) (gcm : IsGcm aead) (rand : Random) (fresh : IsRandom rand) (size : ℕ) where
  abbrev frame_at : ℕ → Bytes → Frame
  frame_at k p = record { nonce = fresh.draw k; plain = p }

  frame_at-IsFrame : (k : ℕ) (p : Bytes) → length p ≤ 2 ^ 20 → IsFrame (frame_at k p)
  frame_at-IsFrame k p h = record { nonce_full = fresh.draw_length k; plain_fits = h }

  abbrev sealed : Bytes → StreamState → StreamState
  sealed p s = record s {
    out = record { written = s.out.written ++ frame_bytes aead (frame_at s.draws p); room = none };
    total = s.total + length p;
    draws = s.draws + 1;
  }

  seal_chunk-ok :
      (p : Bytes) (s : StreamState)
      → 0 < length p
      → length p ≤ 2 ^ 20
      → s.out.room ≡ none
      → seal_chunk aead rand size p s ≡ (none, sealed p s)
  unfolding seal_chunk
  seal_chunk-ok [] s pos h room = absurd (omega arith)
  seal_chunk-ok (b ∷ bs) s pos h room = ground (
    arith,
    fresh.draws s.draws,
    write_frame-ok aead gcm (frame_at s.draws (b ∷ bs)) s.out (frame_at-IsFrame s.draws (b ∷ bs) h)
        room,
  )

  -- A round that meets the end of the input at once.
  round-empty :
      (s : StreamState)
      → 0 < size
      → s.source.bytes ≡ []
      → s.source.ends ≡ none
      → stream_round aead rand size s
        ≡ stop (record s { source = record { bytes = []; ends = none } })
  unfolding stream_round
  round-empty s pos e eof = ground (arith, read_full_short size [] none pos)

  -- A round that takes the last bytes, fewer than a chunk.
  round-last :
      (s : StreamState)
      → 0 < length s.source.bytes
      → length s.source.bytes < size
      → size ≤ 2 ^ 20
      → s.source.ends ≡ none
      → s.out.room ≡ none
      → stream_round aead rand size s
        ≡ stop (sealed s.source.bytes (record s { source = record { bytes = []; ends = none } }))
  unfolding stream_round
  round-last s pos short fits eof room = ground (
    arith,
    read_full_short size s.source.bytes none short,
    seal_chunk-ok s.source.bytes (record s { source = record { bytes = []; ends = none } }) pos
        (omega arith) room,
  )

  -- A round that fills its buffer.
  round-full :
      (s : StreamState)
      → 0 < size
      → size ≤ length s.source.bytes
      → size ≤ 2 ^ 20
      → s.out.room ≡ none
      → stream_round aead rand size s
        ≡ again (
            sealed
              (take size s.source.bytes)
              (record s { source = record s.source { bytes = drop size s.source.bytes } }))
  unfolding stream_round
  round-full s pos full fits room =
      let l : length (take size s.source.bytes) ≡ size =
        omega (arith, length-take size s.source.bytes) in
      ground (
        arith,
        take-append-drop size s.source.bytes,
        read_full-append size (take size s.source.bytes) (drop size s.source.bytes) s.source.ends
            (sym l),
        seal_chunk-ok (take size s.source.bytes)
            (record s { source = record s.source { bytes = drop size s.source.bytes } })
            (omega arith) (omega arith) room,
      )

  -- The loop has written the frames `fs`, which carry all the input, and the end marker.
  record Sealed (s : StreamState) (out : Result CryptError ℕ × StreamState) (fs : List Frame)
      : Type 0 where
    frames : All IsFrame fs
    carried : plaintext fs ≡ s.source.bytes
    success : out.0 ≡ ok (s.total + length s.source.bytes)
    written : out.1.out.written ≡ s.out.written ++ wire aead fs
    open_end : out.1.out.room ≡ none

  -- The three ways that a round goes, as steps of the loop.
  Sealed-empty :
      (fuel : ℕ) (s : StreamState)
      → 0 < size
      → s.source.bytes ≡ []
      → s.source.ends ≡ none
      → s.out.room ≡ none
      → Sealed s (stream_loop aead rand size (suc fuel) s) []
  unfolding stream_loop finish write wire plaintext
  Sealed-empty fuel s pos e eof room = ground (arith, round-empty s pos e eof)

  Sealed-last :
      (fuel : ℕ) (s : StreamState)
      → 0 < length s.source.bytes
      → length s.source.bytes < size
      → size ≤ 2 ^ 20
      → s.source.ends ≡ none
      → s.out.room ≡ none
      → Sealed s (stream_loop aead rand size (suc fuel) s) (frame_at s.draws s.source.bytes ∷ [])
  unfolding stream_loop finish write wire plaintext
  Sealed-last fuel s pos short fits eof room = ground (
    arith,
    round-last s pos short fits eof room,
    frame_at-IsFrame s.draws s.source.bytes (omega arith),
    append-nil s.source.bytes,
    append_assoc s.out.written (frame_bytes aead (frame_at s.draws s.source.bytes)) (put_uint32 0),
  )

  abbrev rest_of : StreamState → StreamState
  rest_of s =
      sealed (take size s.source.bytes)
        (record s { source = record s.source { bytes = drop size s.source.bytes } })

  Sealed-full :
      (fuel : ℕ) (s : StreamState) (fs : List Frame)
      → 0 < size
      → size ≤ length s.source.bytes
      → size ≤ 2 ^ 20
      → s.out.room ≡ none
      → Sealed (rest_of s) (stream_loop aead rand size fuel (rest_of s)) fs
      → Sealed s
          (stream_loop aead rand size (suc fuel) s)
          (frame_at s.draws (take size s.source.bytes) ∷ fs)
  unfolding stream_loop wire plaintext
  Sealed-full fuel s fs pos full fits room ih =
      let f = frame_at s.draws (take size s.source.bytes) in
      ground (
        arith,
        round-full s pos full fits room,
        length-take size s.source.bytes,
        length-drop size s.source.bytes,
        frame_at-IsFrame s.draws (take size s.source.bytes)
            (omega (arith, length-take size s.source.bytes)),
        take-append-drop size s.source.bytes,
        append_assoc s.out.written (frame_bytes aead f) (wire aead fs),
      )

  stream_loop-Sealed :
      (fuel : ℕ) (s : StreamState)
      → 0 < size
      → size ≤ 2 ^ 20
      → s.source.ends ≡ none
      → s.out.room ≡ none
      → length s.source.bytes < fuel
      → (fs : List Frame) × Sealed s (stream_loop aead rand size fuel s) fs
  stream_loop-Sealed zero s pos fits eof room lt = absurd (omega arith)
  stream_loop-Sealed (suc fuel) s pos fits eof room lt =
      elim (dec_lt (length s.source.bytes) size) [
        | yes short ↦ elim (dec_lt 0 (length s.source.bytes)) [
          | yes more ↦ (_, Sealed-last fuel s more short fits eof room)
          | no none_left ↦
              (_, Sealed-empty fuel s pos (length-zero s.source.bytes (omega arith)) eof room)
        ]
        | no full ↦
            let (fs, ih) =
              stream_loop-Sealed fuel (rest_of s) pos fits eof refl
                (omega (arith, length-drop size s.source.bytes)) in
            (_, Sealed-full fuel s fs pos (omega arith) fits room ih)
      ]

-- On an input that ends cleanly, with a working source of randomness and a writer that takes all,
-- `Stream` succeeds with the number of plaintext bytes and has written the wire stream of frames
-- that carry the input.
pub stream-wire :
    (aead : Aead) (gcm : IsGcm aead) (rand : Random) (fresh : IsRandom rand) (input : Bytes)
    → let (r, s) =
        stream
          (some aead)
          rand
          (record { bytes = input; ends = none })
          (record { written = []; room = none }) in
      (fs : List Frame) × All IsFrame fs
      × (plaintext fs ≡ input)
      × (r ≡ ok (length input))
      × (s.out.written ≡ wire aead fs)
unfolding stream
stream-wire aead gcm rand fresh input =
    let s : StreamState = record {
      source = record { bytes = input; ends = none };
      out = record { written = []; room = none };
      total = 0;
      draws = 0;
    } in
    let (fs, r) =
      stream_loop-Sealed aead gcm rand fresh chunk_plain_size (suc (length input)) s (omega arith)
        (omega arith) refl refl (omega arith) in
    (fs, r.frames, r.carried, r.success ∙ ap ok (omega arith), r.written)
