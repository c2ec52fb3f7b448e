-- ===== src/Tests/Streams.antt =====
-- The encrypted stream on small inputs.
use backupy_agent.Prelude.{
  ℕ, ◌≡◌, ◌≢◌, refl, subst, Option, none, some, [], ◌∷◌, ◌++◌, length, All, ok, err, arith,
}
use backupy_agent.Prelude.Bytes.{Bytes, IsByte}
use backupy_agent.Prelude.Words.{put_uint32}
use backupy_agent.Io.{read_full, write}
use backupy_agent.Wire.{Frame, IsFrame}
use backupy_agent.Pipeline.Encrypt.{
  write_header, out_of_fuel, stream, stream_loop, stream_round, decrypt,
}
use backupy_agent.Pipeline.Encrypt.Opening.{decrypt-stream}
use backupy_agent.Pipeline.Encrypt.Ending.{stream_ends}
use backupy_agent.Decrypt.Stream.{decrypt_stream}
use backupy_agent.Decrypt.Stream.{out_of_fuel as tool_out_of_fuel}
use backupy_agent.Decrypt.Stream.Ending.{decrypt_stream_ends}
use backupy_agent.EndToEnd.{
  upload, whole, sink, decrypt_stream-stream, decrypt_stream-prefix, decrypt_stream-failed_stream,
}
use backupy_agent.Tests.Toy.{toy, tag, toy-IsGcm, toy_nonce, toy_random, toy_random-IsRandom}

abbrev an_input : Bytes
an_input = 1 ∷ 2 ∷ 3 ∷ []

-- What is uploaded of it: one frame of 31 bytes and the end marker.
abbrev a_frame : Bytes
a_frame = 0 ∷ 0 ∷ 0 ∷ 31 ∷ (toy_nonce 0 ++ (tag ++ an_input))

abbrev an_upload : Bytes
an_upload = a_frame ++ (0 ∷ 0 ∷ 0 ∷ 0 ∷ [])

upload_lem : upload toy toy-IsGcm toy_random toy_random-IsRandom an_input ≡ an_upload
unfolding stream stream_loop stream_round read_full write put_uint32
upload_lem = refl

bytes : All IsByte a_frame
bytes = ground arith

decrypt_stream-stream_example :
    let up = upload toy toy-IsGcm toy_random toy_random-IsRandom an_input in
    let (r, s) = decrypt_stream toy (λ _. none) (whole (up ++ (7 ∷ []))) sink in
    (r ≡ ok tt) × (s.out.written ≡ an_input) × (s.hashed ≡ up) × (s.source.bytes ≡ 7 ∷ [])
decrypt_stream-stream_example =
    decrypt_stream-stream toy toy-IsGcm toy_random toy_random-IsRandom an_input (7 ∷ [])

abbrev end_marker : Bytes
end_marker = 0 ∷ 0 ∷ 0 ∷ 0 ∷ []

some_lost : end_marker ≢ []
some_lost h = absurd (ground arith)

decrypt_stream-prefix_example :
    (decrypt_stream toy (λ _. none) (record { bytes = a_frame; ends = none }) sink).0 ≢ ok tt
decrypt_stream-prefix_example =
    decrypt_stream-prefix toy toy-IsGcm toy_random toy_random-IsRandom an_input a_frame end_marker
      none (λ _. none) bytes upload_lem some_lost

toy_full : (k : ℕ) (n : Bytes) → toy_random k ≡ some n → length n ≡ 12
toy_full k n h = subst (λ (o : Option Bytes). length (elim o [ none ↦ n | some m ↦ m ]) ≡ 12) h refl

-- A writer with room for two bytes.
stream_fails :
    (stream (some toy) toy_random (whole an_input) (record { written = []; room = some 2 })).0
    ≡ err write_header
unfolding stream stream_loop stream_round read_full write put_uint32
stream_fails = refl

written_bytes :
    All IsByte
      (stream
        (some toy)
        toy_random
        (whole an_input)
        (record { written = []; room = some 2 })).1.out.written
unfolding stream stream_loop stream_round read_full write put_uint32
written_bytes = ground arith

decrypt_stream-failed_stream_example :
    let s =
      (stream (some toy) toy_random (whole an_input) (record { written = []; room = some 2 })).1 in
    (decrypt_stream toy (λ _. none) (record { bytes = s.out.written; ends = none }) sink).0 ≢ ok tt
decrypt_stream-failed_stream_example =
    decrypt_stream-failed_stream toy toy-IsGcm toy_random toy_full (whole an_input) (some 2)
      write_header none (λ _. none) stream_fails written_bytes

upload_bytes : All IsByte an_upload
upload_bytes = ground arith

accepted : (decrypt_stream toy (λ _. none) (whole an_upload) sink).0 ≡ ok tt
accepted =
    subst (λ (u : Bytes). (decrypt_stream toy (λ _. none) (whole (u ++ [])) sink).0 ≡ ok tt)
      upload_lem (decrypt_stream-stream toy toy-IsGcm toy_random toy_random-IsRandom an_input []).0

decrypt-stream_example :
    let (n, sealing) = stream (some toy) toy_random (whole an_input) sink in
    let (m, opening) = decrypt (some toy) (whole sealing.out.written) sink in
    (n ≡ ok 3) × (m ≡ ok 3) × (opening.out.written ≡ an_input)
decrypt-stream_example = decrypt-stream toy toy-IsGcm toy_random toy_random-IsRandom an_input

abbrev frame_a : Frame
frame_a = record { nonce = toy_nonce 1; plain = 5 ∷ [] }

abbrev frame_b : Frame
frame_b = record { nonce = toy_nonce 2; plain = 6 ∷ [] }

frame_a-IsFrame : IsFrame frame_a
frame_a-IsFrame = record { nonce_full = refl; plain_fits = omega arith }

frame_b-IsFrame : IsFrame frame_b
frame_b-IsFrame = record { nonce_full = refl; plain_fits = omega arith }

stream_ends_example : (stream (some toy) toy_random (whole an_input) sink).0 ≢ err out_of_fuel
stream_ends_example = stream_ends (some toy) toy_random (whole an_input) sink

decrypt_stream_ends_example :
    (decrypt_stream toy (λ _. none) (whole an_upload) sink).0 ≢ err tool_out_of_fuel
decrypt_stream_ends_example = decrypt_stream_ends toy (λ _. none) (whole an_upload) sink
