-- ===== src/Wire.antt =====
-- The wire format of a backup, as the header comment of apps/agent/internal/pipeline/encrypt.go
-- states it: frames of length, nonce and ciphertext, and a frame of length 0 at the end.
use backupy_agent.Prelude.{
  ◌+◌, ◌*◌, ◌^◌, ◌≤◌, ◌≡◌, List, [], ◌∷◌, ◌++◌, length, length-append, arith,
}
use backupy_agent.Prelude.Bytes.{Bytes}
use backupy_agent.Prelude.Words.{put_uint32, length-put_uint32}
use backupy_agent.Cipher.{Aead}

-- One frame before encryption: its nonce and its plaintext.
pub record Frame : Type 0 where
  pub nonce : Bytes
  pub plain : Bytes

-- The frames that the agent makes: a full nonce, at most 1 MiB of plaintext.
pub record IsFrame (f : Frame) : Type 0 where
  pub nonce_full : length f.nonce ≡ 12
  pub plain_fits : length f.plain ≤ 2 ^ 20

module _ (aead : Aead) where
  abbrev pub ciphertext : Frame → Bytes
  ciphertext f = aead.seal f.nonce f.plain

  unfoldable pub frame_bytes : Frame → Bytes
  frame_bytes f = put_uint32 (12 + length (ciphertext f)) ++ (f.nonce ++ ciphertext f)

  unfoldable pub wire : List Frame → Bytes
  wire [] = put_uint32 0
  wire (f ∷ fs) = frame_bytes f ++ wire fs

  pub length-frame_bytes :
      (f : Frame) → length (frame_bytes f) ≡ 4 + length f.nonce + length (ciphertext f)
  unfolding frame_bytes
  length-frame_bytes f = omega (
    arith,
    length-append (put_uint32 (12 + length (ciphertext f))) (f.nonce ++ ciphertext f),
    length-append f.nonce (ciphertext f),
    length-put_uint32 (12 + length (ciphertext f)),
  )

  pub length-wire : (fs : List Frame) → 4 + 4 * length fs ≤ length (wire fs)
  unfolding wire
  length-wire [] = omega (arith, length-put_uint32 0)
  length-wire (f ∷ fs) =
      omega (arith, length-append (frame_bytes f) (wire fs), length-frame_bytes f, length-wire fs)

-- What the frames carry.
unfoldable pub plaintext : List Frame → Bytes
plaintext [] = []
plaintext (f ∷ fs) = f.plain ++ plaintext fs
