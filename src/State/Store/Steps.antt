-- ===== src/State/Store/Steps.antt =====
-- The steps that the operations of the store are made of.
use backupy_agent.Prelude.{
  suc, ◌≡◌, refl, sym, ◌∙◌, ap, subst, Option-cases, inl, inr, none, Result, ok, err, Result-cases,
  arith,
}
use backupy_agent.Prelude.Bytes.{Bytes}
use backupy_agent.Cipher.{Aead, Random}
use backupy_agent.Bolt.{Bucket, Bolt}
use backupy_agent.State.Envelope.{StateError, seal_value}
use backupy_agent.State.Store.{Store, update, put_entry, with_sealed}

module _ {Db : Type 0} (bolt : Bolt Db) where
  pub update_ok :
      {A : Type 0} (body : Db → Result StateError (A × Db)) (s : Store Db) {a : A} {d : Db}
      → body s.db ≡ ok (a, d)
      → bolt.commit d ≡ none
      → update bolt body s ≡ (ok a, record s { db = d })
  unfolding update
  update_ok body s h c = rw (update, h, c) refl

  pub put_entry_ok :
      (b : Bucket) (k v : Bytes) (d : Db) {d' : Db}
      → bolt.put d b k v ≡ ok d'
      → put_entry bolt b k v d ≡ ok (tt, d')
  unfolding put_entry
  put_entry_ok b k v d h = rw (put_entry, h) refl

  pub with_sealed_ok :
      {A : Type 0} (aead : Aead) (rand : Random) (raw : Bytes)
      (next : Bytes → Store Db → Result StateError A × Store Db) (s : Store Db) {enc : Bytes}
      → seal_value aead rand s.draws raw ≡ ok enc
      → with_sealed bolt aead rand raw next s ≡ next enc (record s { draws = suc s.draws })
  unfolding with_sealed
  with_sealed_ok aead rand raw next s h = rw (with_sealed, h) refl

  -- A transaction that fails leaves the store as it was.
  pub update_fails :
      {A : Type 0} (body : Db → Result StateError (A × Db)) (s : Store Db) {e : StateError}
      → (update bolt body s).0 ≡ err e
      → (update bolt body s).1 ≡ s
  unfolding update
  update_fails body s {e} h = elim (Result-cases (body s.db)) [
    | inr (e', bad) ↦ ground arith
    | inl ((a, d), good) ↦ elim (Option-cases (bolt.commit d)) [
      | inr (f, bad) ↦ ground arith
      | inl fine ↦ absurd (ground arith)
    ]
  ]

  pub with_sealed_fails :
      {A : Type 0} (aead : Aead) (rand : Random) (raw : Bytes)
      (body : Bytes → Db → Result StateError (A × Db)) (s : Store Db) {e : StateError}
      → (with_sealed bolt aead rand raw (λ enc. update bolt (body enc)) s).0 ≡ err e
      → (with_sealed bolt aead rand raw (λ enc. update bolt (body enc)) s).1.db ≡ s.db
  unfolding with_sealed
  with_sealed_fails {A} aead rand raw body s {e} h =
      elim (Result-cases (seal_value aead rand s.draws raw)) [
        | inr (e', bad) ↦ rw (with_sealed, bad) refl
        | inl (enc, good) ↦
            let s' : Store Db = record s { draws = suc s.draws } in
            let step = with_sealed_ok aead rand raw (λ enc. update bolt (body enc)) s good in
            let failed : (update bolt (body enc) s').0 ≡ err e =
              sym (ap (λ (t : Result StateError A × Store Db). t.0) step) ∙ h in
            subst (λ (t : Result StateError A × Store Db). t.1.db ≡ s.db) (sym step)
              (ap (λ (t : Store Db). t.db) (update_fails (body enc) s' failed))
      ]
