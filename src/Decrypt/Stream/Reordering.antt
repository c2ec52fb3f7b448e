-- ===== src/Decrypt/Stream/Reordering.antt =====
-- Frames in another order: the header comment of decrypt.go says that a reordering fails.
use backupy_agent.Prelude.{
  ◌≡◌, refl, none, List, [], ◌∷◌, ◌++◌, ok, All, All-append, subst, append-nil, append_assoc,
}
use backupy_agent.Prelude.Bytes.{Bytes}
use backupy_agent.Cipher.{Aead, IsGcm}
use backupy_agent.Wire.{Frame, IsFrame, wire, plaintext}
use backupy_agent.Decrypt.Stream.{decrypt_stream}
use backupy_agent.Decrypt.Stream.Reading.{decrypt_stream-wire}

plaintext-append : (fs gs : List Frame) → plaintext (fs ++ gs) ≡ plaintext fs ++ plaintext gs
unfolding plaintext
plaintext-append [] gs = refl
plaintext-append (f ∷ fs) gs = rw (plaintext-append fs gs, append_assoc)

plaintext-pair :
    (fs gs : List Frame) (f g : Frame)
    → plaintext (fs ++ f ∷ g ∷ gs) ≡ plaintext fs ++ (f.plain ++ (g.plain ++ plaintext gs))
unfolding plaintext
plaintext-pair fs gs f g = plaintext-append fs (f ∷ g ∷ gs)

module _ (aead : Aead) (gcm : IsGcm aead) where
  -- The tool reads `input` and nothing cancels it.
  abbrev pub Writes : Bytes → Bytes → Type 0
  Writes input output =
      let (r, s) =
        decrypt_stream aead (λ _. none) (record { bytes = input; ends = none })
          (record { written = []; room = none }) in
      (r ≡ ok tt) × (s.out.written ≡ output)

  wire-Writes : (fs : List Frame) → All IsFrame fs → Writes (wire aead fs) (plaintext fs)
  wire-Writes fs h =
      let (r, plain, _, _) = decrypt_stream-wire aead gcm (λ _. none) (λ _. refl) fs [] none h in
      subst (λ b. Writes b (plaintext fs)) (append-nil (wire aead fs)) (r, plain)

  swap-Writes :
      (fs gs : List Frame) (f g : Frame)
      → All IsFrame fs
      → IsFrame f
      → IsFrame g
      → All IsFrame gs
      → Writes
          (wire aead (fs ++ f ∷ g ∷ gs))
          (plaintext fs ++ (f.plain ++ (g.plain ++ plaintext gs)))
  swap-Writes fs gs f g hfs hf hg hgs =
      subst (Writes (wire aead (fs ++ f ∷ g ∷ gs))) (plaintext-pair fs gs f g)
        (wire-Writes (fs ++ f ∷ g ∷ gs) (All-append IsFrame fs (f ∷ g ∷ gs) hfs (hf, (hg, hgs))))

  -- Two neighbouring frames of an upload may be exchanged: the tool takes both streams, and writes
  -- the two plaintexts in the order in which the frames came.
  pub decrypt_stream-swap :
      (fs gs : List Frame) (f g : Frame)
      → All IsFrame fs
      → IsFrame f
      → IsFrame g
      → All IsFrame gs
      → Writes
          (wire aead (fs ++ f ∷ g ∷ gs))
          (plaintext fs ++ (f.plain ++ (g.plain ++ plaintext gs)))
        × Writes
            (wire aead (fs ++ g ∷ f ∷ gs))
            (plaintext fs ++ (g.plain ++ (f.plain ++ plaintext gs)))
  decrypt_stream-swap fs gs f g hfs hf hg hgs =
      (swap-Writes fs gs f g hfs hf hg hgs, swap-Writes fs gs g f hfs hg hf hgs)
