-- ===== src/Cipher.antt =====
-- crypto/cipher's AEAD, crypto/rand and crypto/sha256, which the program calls and does not
-- implement: values that the definitions take, with the laws of AES-GCM as a record of hypotheses.
use backupy_agent.Prelude.{ℕ, ◌+◌, ◌≡◌, Option, some, length}
use backupy_agent.Prelude.Bytes.{Bytes}

-- `Seal(nil, nonce, plaintext, nil)` and `Open(nil, nonce, ciphertext, nil)`, `none` if the tag
-- does not fit.
pub record Aead : Type 0 where
  pub seal : Bytes → Bytes → Bytes
  pub open_sealed : Bytes → Bytes → Option Bytes

-- Per key: decryption inverts encryption, the tag is 16 bytes, and what `Open` accepts is what
-- `Seal` makes of the result with that nonce (GCM is deterministic in key, nonce and plaintext).
pub record IsGcm (a : Aead) : Type 0 where
  pub opens :
      (nonce pt : Bytes) → length nonce ≡ 12 → a.open_sealed nonce (a.seal nonce pt) ≡ some pt
  pub sealed_length : (nonce pt : Bytes) → length (a.seal nonce pt) ≡ length pt + 16
  pub genuine :
      (nonce ct : Bytes) {pt : Bytes}
      → length nonce ≡ 12
      → a.open_sealed nonce ct ≡ some pt
      → ct ≡ a.seal nonce pt

-- `rand.Read` of twelve bytes: the answer to the k-th call of a run, `none` where it fails.
abbrev pub Random : Type 0
Random = ℕ → Option Bytes

-- A source of randomness that never fails.
pub record IsRandom (rand : Random) : Type 0 where
  pub draw : ℕ → Bytes
  pub draws : (k : ℕ) → rand k ≡ some (draw k)
  pub draw_length : (k : ℕ) → length (draw k) ≡ 12
