-- ===== src/State/Store/Commits.antt =====
-- What a transaction of the store that succeeds has done to the database.
use backupy_agent.Prelude.{
  suc, ◌≡◌, refl, sym, ◌∙◌, ap, subst, Bool-cases, Option-cases, inl, inr, Result, ok, ◌>>=◌,
  Result-cases, map_err, arith,
}
use backupy_agent.Prelude.Bytes.{Bytes}
use backupy_agent.Cipher.{Aead, Random}
use backupy_agent.Bolt.{Bucket, Bolt, IsBolt, Entries, insert, remove, updated, ◌=ᵇ◌, Bucket-refl}
use backupy_agent.State.Envelope.{StateError, database, seal_value}
use backupy_agent.State.Store.{Store, update, put_entry, with_sealed}
use backupy_agent.State.Store.Steps.{with_sealed_ok}

module _ {Db : Type 0} (bolt : Bolt Db) where
  pub update_commits :
      {A : Type 0} (body : Db → Result StateError (A × Db)) (s : Store Db) {a : A}
      → (update bolt body s).0 ≡ ok a
      → (d : Db) × (body s.db ≡ ok (a, d)) × ((update bolt body s).1.db ≡ d)
  unfolding update
  update_commits body s {a} h = elim (Result-cases (body s.db)) [
    | inr (e, bad) ↦ absurd (ground arith)
    | inl ((a', d), good) ↦ elim (Option-cases (bolt.commit d)) [
      | inr (f, bad) ↦ absurd (ground arith)
      | inl fine ↦ (d, ground arith, ground arith)
    ]
  ]

  pub with_sealed_commits :
      {A : Type 0} (aead : Aead) (rand : Random) (raw : Bytes)
      (body : Bytes → Db → Result StateError (A × Db)) (s : Store Db) {a : A}
      → (with_sealed bolt aead rand raw (λ enc. update bolt (body enc)) s).0 ≡ ok a
      → (enc : Bytes) × (d : Db) × (seal_value aead rand s.draws raw ≡ ok enc)
        × (body enc s.db ≡ ok (a, d))
        × ((with_sealed bolt aead rand raw (λ enc. update bolt (body enc)) s).1.db ≡ d)
  unfolding with_sealed
  with_sealed_commits {A} aead rand raw body s {a} h =
      elim (Result-cases (seal_value aead rand s.draws raw)) [
        | inr (e, bad) ↦ absurd (ground arith)
        | inl (enc, good) ↦
            let s' : Store Db = record s { draws = suc s.draws } in
            let step = with_sealed_ok bolt aead rand raw (λ enc. update bolt (body enc)) s good in
            let done : (update bolt (body enc) s').0 ≡ ok a =
              sym (ap (λ (t : Result StateError A × Store Db). t.0) step) ∙ h in
            let (d, made, left) = update_commits (body enc) s' done in
            (enc, d, good, made, ap (λ (t : Result StateError A × Store Db). t.1.db) step ∙ left)
      ]

  put_entry_inv :
      (b : Bucket) (k v : Bytes) (d : Db) {u : Unit {0}} {d' : Db}
      → put_entry bolt b k v d ≡ ok (u, d')
      → bolt.put d b k v ≡ ok d'
  unfolding put_entry
  put_entry_inv b k v d h = elim (Result-cases (bolt.put d b k v)) [
    | inr (e, bad) ↦ absurd (ground arith)
    | inl (d1, good) ↦ ground arith
  ]

module _ {Db : Type 0} (bolt : Bolt Db) (is_bolt : IsBolt bolt) where
  -- One bucket has these entries, and the others have what they had.
  unfoldable pub Wrote : Db → Bucket → Entries → Db → Type 0
  Wrote d b es d' = (b' : Bucket) → bolt.cursor d' b' ≡ updated b es (bolt.cursor d) b'

  pub put_entry-Wrote :
      (b : Bucket) (k v : Bytes) (d : Db) {u : Unit {0}} {d' : Db}
      → put_entry bolt b k v d ≡ ok (u, d')
      → Wrote d b (insert k v (bolt.cursor d b)) d'
  unfolding Wrote
  put_entry-Wrote b k v d h b' = is_bolt.cursor_put d b k v b' (put_entry_inv bolt b k v d h)

  Wrote-twice :
      (b : Bucket) (es fs : Entries) (d d1 d2 : Db)
      → Wrote d b es d1
      → Wrote d1 b fs d2
      → Wrote d b fs d2
  unfolding Wrote
  Wrote-twice b es fs d d1 d2 one two b' = elim (Bool-cases (b =ᵇ b')) [
    | inl same ↦ two b' ∙ rw same refl
    | inr other ↦ two b' ∙ rw other (one b' ∙ rw other refl)
  ]

  pub put_two-Wrote :
      (b : Bucket) (k v j w : Bytes) (d : Db) {u : Unit {0}} {d' : Db}
      → (put_entry bolt b k v d >>= λ r. put_entry bolt b j w r.1) ≡ ok (u, d')
      → Wrote d b (insert j w (insert k v (bolt.cursor d b))) d'
  unfolding Wrote
  put_two-Wrote b k v j w d {u} {d'} h = elim (Result-cases (put_entry bolt b k v d)) [
    | inr (e, bad) ↦ absurd (ground arith)
    | inl ((u1, d1), good) ↦
        let second : put_entry bolt b j w d1 ≡ ok (u, d') = ground arith in
        let one = put_entry-Wrote b k v d good in
        let two = put_entry-Wrote b j w d1 second in
        let here : bolt.cursor d1 b ≡ insert k v (bolt.cursor d b) =
          one b ∙ rw (Bucket-refl b) refl in
        Wrote-twice b (insert k v (bolt.cursor d b)) (insert j w (insert k v (bolt.cursor d b))) d
          d1 d' one (subst (λ es. Wrote d1 b (insert j w es) d') here two)
  ]

  pub delete-Wrote :
      (b : Bucket) (k : Bytes) (d : Db) {d' : Db}
      → let body : Result StateError (Unit {0} × Db) =
          map_err database (bolt.delete d b k) >>= λ d1. ok (tt, d1) in
        body ≡ ok (tt, d') → Wrote d b (remove k (bolt.cursor d b)) d'
  unfolding Wrote
  delete-Wrote b k d {d'} h b' = elim (Result-cases (bolt.delete d b k)) [
    | inr (e, bad) ↦ absurd (ground arith)
    | inl (d1, good) ↦
        let same : bolt.delete d b k ≡ ok d' = ground arith in is_bolt.cursor_delete d b k b' same
  ]

  pub numbered-Wrote :
      (b : Bucket) (k v : Bytes) (d : Db) {u : Unit {0}} {d' : Db}
      → put_entry bolt b k v (bolt.next_sequence d b).1 ≡ ok (u, d')
      → Wrote d b (insert k v (bolt.cursor d b)) d'
  unfolding Wrote
  numbered-Wrote b k v d h b' =
      let one = put_entry-Wrote b k v (bolt.next_sequence d b).1 h b' in
      let here = is_bolt.cursor_next_sequence d b b in
      let there = is_bolt.cursor_next_sequence d b b' in
      elim (Bool-cases (b =ᵇ b')) [
        | inl same ↦ one ∙ rw (same, here) refl
        | inr other ↦ one ∙ rw (other, there) refl
      ]
