-- ===== src/Tests/Toy.antt =====
-- A cipher that meets the laws of AES-GCM: a constant tag before the plaintext.
use backupy_agent.Prelude.{
  ℕ, ◌≡◌, refl, sym, ◌∙◌, Bool-cases, inl, inr, Option, none, some, [], ◌∷◌, ◌++◌, take, drop,
  if◌then◌else◌, arith, take-append-drop,
}
use backupy_agent.Prelude.Bytes.{Bytes, ◌===◌, ===_iff, ===_refl}
use backupy_agent.Cipher.{Aead, IsGcm, Random, IsRandom}

-- The tag of a key.
abbrev pub tag_of : ℕ → Bytes
tag_of k = k ∷ k ∷ k ∷ k ∷ k ∷ k ∷ k ∷ k ∷ k ∷ k ∷ k ∷ k ∷ k ∷ k ∷ k ∷ k ∷ []

abbrev pub tag : Bytes
tag = tag_of 7

abbrev pub toy_open : ℕ → Bytes → Option Bytes
toy_open k c = if take 16 c === tag_of k then some (drop 16 c) else none

abbrev pub toy_of : ℕ → Aead
toy_of k = record { seal = λ _ p. tag_of k ++ p; open_sealed = λ _ c. toy_open k c }

abbrev pub toy : Aead
toy = toy_of 7

toy_opens : (k : ℕ) (p : Bytes) → toy_open k (tag_of k ++ p) ≡ some p
toy_opens k p = rw (===_refl (tag_of k)) refl

toy_genuine : (k : ℕ) (c : Bytes) {p : Bytes} → toy_open k c ≡ some p → c ≡ tag_of k ++ p
toy_genuine k c {p} h = elim (Bool-cases (take 16 c === tag_of k)) [
  | inr e ↦ absurd (ground arith)
  | inl e ↦
      let t : take 16 c ≡ tag_of k = (===_iff (take 16 c) (tag_of k)).0 e in
      let d : drop 16 c ≡ p = ground arith in sym (take-append-drop 16 c) ∙ cc
]

pub toy_of-IsGcm : (k : ℕ) → IsGcm (toy_of k)
toy_of-IsGcm k = record {
  opens = λ n p h. toy_opens k p;
  sealed_length = λ n p. omega arith;
  genuine = λ n c {pt} h. toy_genuine k c {p = pt};
}

pub toy-IsGcm : IsGcm toy
toy-IsGcm = toy_of-IsGcm 7

abbrev pub toy_nonce : ℕ → Bytes
toy_nonce k = k ∷ 0 ∷ 0 ∷ 0 ∷ 0 ∷ 0 ∷ 0 ∷ 0 ∷ 0 ∷ 0 ∷ 0 ∷ 0 ∷ []

abbrev pub toy_random : Random
toy_random k = some (toy_nonce k)

pub toy_random-IsRandom : IsRandom toy_random
toy_random-IsRandom = record { draw = toy_nonce; draws = λ k. refl; draw_length = λ k. refl }
