-- ===== src/State/Envelope.antt =====
-- apps/agent/internal/state/crypto.go: a value at rest is version || nonce || ciphertext+tag.
use backupy_agent.Prelude.{
  ℕ, suc, ◌+◌, ◌≤◌, ◌≡◌, refl, sym, false, Option, none, some, [], ◌∷◌, ◌++◌, length, take, drop,
  ltb, ◌==◌, if◌then◌else◌, Result, ok, err, arith, length-append, take-append, drop-append,
}
use backupy_agent.Prelude.Bytes.{Bytes, is_empty}
use backupy_agent.Io.{Fault}
use backupy_agent.Cipher.{Aead, IsGcm, Random, IsRandom}

abbrev pub state_key_len : ℕ
state_key_len = 32

abbrev pub state_nonce_len : ℕ
state_nonce_len = 12

abbrev pub state_env_version : ℕ
state_env_version = 1

-- `aead.Overhead()` of GCM.
abbrev pub overhead : ℕ
overhead = 16

pub data StateError : Type 0 where
  -- `ErrNotFound` and `errCipher`
  not_found cipher_failed : StateError
  unsupported_version : ℕ → StateError
  empty_path empty_agent_key empty_run_id read_random hkdf_failed : StateError
  -- an error of bbolt, passed on
  database : Fault → StateError

-- `deriveStateKey`. `hkdf` reads 32 bytes of HKDF-SHA256 of the agent key.
unfoldable pub derive_state_key : (Bytes → Option Bytes) → Bytes → Result StateError Bytes
derive_state_key hkdf agent_key =
    if is_empty agent_key
    then err empty_agent_key
    else elim (hkdf agent_key) [ none ↦ err hkdf_failed | some key ↦ ok key ]

-- `seal`, at the draw `k` of the random source.
unfoldable pub seal_value : Aead → Random → ℕ → Bytes → Result StateError Bytes
seal_value aead rand k plaintext = elim (rand k) [
  | none ↦ err read_random
  | some nonce ↦ ok (state_env_version ∷ (nonce ++ aead.seal nonce plaintext))
]

unfoldable pub open_body : Aead → Bytes → Result StateError Bytes
open_body aead body =
    elim (aead.open_sealed (take state_nonce_len body) (drop state_nonce_len body)) [
      | none ↦ err cipher_failed
      | some pt ↦ ok pt
    ]

-- `open`
unfoldable pub open_value : Aead → Bytes → Result StateError Bytes
unfolding open_body
open_value aead [] = err cipher_failed
open_value aead (version ∷ body) =
    if ltb (length (version ∷ body)) (1 + state_nonce_len + overhead)
    then err cipher_failed
    else (if version == state_env_version
        then open_body aead body
        else err (unsupported_version version))

-- The envelope taken apart, for a nonce of twelve bytes and a ciphertext with its tag.
open_value_parts :
    (aead : Aead) (nonce ct : Bytes)
    → length nonce ≡ 12
    → 16 ≤ length ct
    → open_value aead (state_env_version ∷ (nonce ++ ct))
      ≡ elim (aead.open_sealed nonce ct) [ none ↦ err cipher_failed | some pt ↦ ok pt ]
unfolding open_value open_body
open_value_parts aead nonce ct n c =
    let long : ltb (suc (length (nonce ++ ct))) 29 ≡ false =
      ground (arith, length-append nonce ct) in
    rw (long, open_body, take-append nonce ct 12 (sym n), drop-append nonce ct 12 (sym n)) refl

module _ (aead : Aead) (gcm : IsGcm aead) (rand : Random) (fresh : IsRandom rand) where
  pub seal_value_ok :
      (k : ℕ) (plaintext : Bytes)
      → seal_value aead rand k plaintext
        ≡ ok (state_env_version ∷ (fresh.draw k ++ aead.seal (fresh.draw k) plaintext))
  unfolding seal_value
  seal_value_ok k plaintext = rw (seal_value, fresh.draws k)

  -- What is sealed opens again, under the same key.
  pub open_value-seal_value :
      (k : ℕ) (plaintext : Bytes) {sealed : Bytes}
      → seal_value aead rand k plaintext ≡ ok sealed
      → open_value aead sealed ≡ ok plaintext
  open_value-seal_value k plaintext {sealed} h =
      let nonce = fresh.draw k in
      let at : sealed ≡ state_env_version ∷ (nonce ++ aead.seal nonce plaintext) =
        ground (arith, seal_value_ok k plaintext) in
      let long : 16 ≤ length (aead.seal nonce plaintext) =
        omega (arith, gcm.sealed_length nonce plaintext) in
      rw (
        at,
        open_value_parts aead nonce (aead.seal nonce plaintext) (fresh.draw_length k) long,
        gcm.opens nonce plaintext (fresh.draw_length k),
      )

-- What another key sealed is refused as such, whatever `open_sealed` makes of it but a plaintext.
pub open_value-wrong_key :
    (aead other : Aead) (gcm : IsGcm other) (rand : Random) (fresh : IsRandom rand)
    → (k : ℕ) (plaintext : Bytes) {sealed : Bytes}
    → aead.open_sealed (fresh.draw k) (other.seal (fresh.draw k) plaintext) ≡ none
    → seal_value other rand k plaintext ≡ ok sealed
    → open_value aead sealed ≡ err cipher_failed
open_value-wrong_key aead other gcm rand fresh k plaintext {sealed} refused h =
    let nonce = fresh.draw k in
    let at : sealed ≡ state_env_version ∷ (nonce ++ other.seal nonce plaintext) =
      ground (arith, seal_value_ok other gcm rand fresh k plaintext) in
    let long : 16 ≤ length (other.seal nonce plaintext) =
      omega (arith, gcm.sealed_length nonce plaintext) in
    rw (
      at,
      open_value_parts aead nonce (other.seal nonce plaintext) (fresh.draw_length k) long,
      refused,
    )
