-- ===== src/Pipeline/Encrypt/Failing/Cuts.antt =====
-- A write, and `writeFrame` of encrypt.go, that stops before all is written.
use backupy_agent.Prelude.{
  ◌+◌, ◌%◌, ◌<◌, ◌^◌, ◌≡◌, refl, sym, ◌∙◌, none, some, [], ◌++◌, length, take, drop, arith,
  append_assoc, append-nil, length-append, take-append-drop, length-drop, inl, inr, true, false,
  Bool-cases, Option-cases, ap,
}
use backupy_agent.Prelude.Bytes.{Bytes}
use backupy_agent.Prelude.Words.{put_uint32}
use backupy_agent.Io.{Writer, write}
use backupy_agent.Pipeline.Encrypt.{write_frame, CryptError}

-- `w'` is `w` after some of `p`, not all of it.
pub record Cut (p : Bytes) (w w' : Writer) : Type 0 where
  pub kept : Bytes
  pub lost : Bytes
  pub whole : kept ++ lost ≡ p
  pub cut : 0 < length lost
  pub wrote : w'.written ≡ w.written ++ kept

pub write-true :
    (p : Bytes) (w : Writer) → (write p w).0 ≡ true → (write p w).1.written ≡ w.written ++ p
unfolding write
write-true p w h = ground arith

pub write-false : (p : Bytes) (w : Writer) → (write p w).0 ≡ false → Cut p w (write p w).1
unfolding write
write-false p w h = elim (Option-cases w.room) [
  | inl e ↦ absurd (ground arith)
  | inr (n, e) ↦ record {
    kept = take n p;
    lost = drop n p;
    whole = take-append-drop n p;
    cut = ground (arith, length-drop n p);
    wrote = ground arith;
  }
]

-- A cut later on.
pub Cut-behind :
    (p q : Bytes) (w w' w'' : Writer)
    → w'.written ≡ w.written ++ p
    → Cut q w' w''
    → Cut (p ++ q) w w''
Cut-behind p q w w' w'' h c = record {
  kept = p ++ c.kept;
  lost = c.lost;
  whole = append_assoc p c.kept c.lost ∙ ap (λ l. p ++ l) c.whole;
  cut = c.cut;
  wrote = c.wrote ∙ ap (λ l. l ++ c.kept) h ∙ append_assoc w.written p c.kept;
}

pub Cut-before : (p q : Bytes) (w w' : Writer) → Cut p w w' → Cut (p ++ q) w w'
Cut-before p q w w' c = record {
  kept = c.kept;
  lost = c.lost ++ q;
  whole = sym (append_assoc c.kept c.lost q) ∙ ap (λ l. l ++ q) c.whole;
  cut = omega (arith, c.cut, length-append c.lost q);
  wrote = c.wrote;
}

abbrev pub framed : Bytes → Bytes → Bytes
framed nonce ct = put_uint32 ((length nonce + length ct) % 2 ^ 32) ++ (nonce ++ ct)

module _ (nonce ct : Bytes) (w : Writer) where
  abbrev header : Bytes
  header = put_uint32 ((length nonce + length ct) % 2 ^ 32)

  abbrev w1 : Writer
  w1 = (write header w).1

  abbrev w2 : Writer
  w2 = (write nonce w1).1

  pub write_frame-none :
      (write_frame nonce ct w).0 ≡ none
      → (write_frame nonce ct w).1.written ≡ w.written ++ framed nonce ct
  unfolding write_frame
  write_frame-none h = ground (
    arith,
    write-true header w,
    write-true nonce w1,
    write-true ct w2,
    append_assoc w.written header nonce,
    append_assoc (w.written ++ header) nonce ct,
    append_assoc w.written header (nonce ++ ct),
  )

  pub write_frame-some :
      {e : CryptError}
      → (write_frame nonce ct w).0 ≡ some e
      → Cut (framed nonce ct) w (write_frame nonce ct w).1
  unfolding write_frame
  write_frame-some h = elim (Bool-cases (write header w).0) [
    | inr no1 ↦ rw no1 (Cut-before header (nonce ++ ct) w w1 (write-false header w no1))
    | inl yes1 ↦ elim (Bool-cases (write nonce w1).0) [
      | inr no2 ↦
          rw (yes1, no2)
            (Cut-behind header (nonce ++ ct) w w1 w2 (write-true header w yes1)
              (Cut-before nonce ct w1 w2 (write-false nonce w1 no2)))
      | inl yes2 ↦ elim (Bool-cases (write ct w2).0) [
        | inr no3 ↦
            rw (yes1, yes2, no3)
              (Cut-behind header (nonce ++ ct) w w1 _ (write-true header w yes1)
                (Cut-behind nonce ct w1 w2 _ (write-true nonce w1 yes2) (write-false ct w2 no3)))
        | inl yes3 ↦ absurd (ground arith)
      ]
    ]
  ]

-- Nothing more was written.
pub Cut-nothing : (p : Bytes) (w w' : Writer) → 0 < length p → w'.written ≡ w.written → Cut p w w'
Cut-nothing p w w' pos h = record {
  kept = [];
  lost = p;
  whole = refl;
  cut = pos;
  wrote = h ∙ sym (append-nil w.written);
}
