-- ===== src/State/Store/Saving.antt =====
-- The config, session and heartbeat entries of the store, and its operations when they fail.
use backupy_agent.Prelude.{
  ℕ, suc, ◌+◌, ◌^◌, ◌≤◌, ◌<◌, ◌≡◌, ◌≢◌, ◌⊎◌, refl, sym, ◌∙◌, ap, subst, Bool, true, false, inl, inr,
  none, some, [], ◌∷◌, ◌++◌, length, if◌then◌else◌, Result, ok, err, ◌>>=◌, Result-cases, arith,
  length-append,
}
use backupy_agent.Prelude.Bytes.{Bytes, is_empty}
use backupy_agent.Prelude.Words.{put_uint64, uint64-put_uint64, length-put_uint64}
use backupy_agent.Prelude.Int.{ℤ}
use backupy_agent.Cipher.{Aead, IsGcm, Random, IsRandom}
use backupy_agent.Bolt.{
  Bucket, bkt_config, bkt_registry, bkt_queue, bkt_logs, Bolt, Entries, insert, remove, IsBolt,
  Bucket-refl, lookup-insert, lookup-insert_other,
}
use backupy_agent.State.Envelope.{
  StateError, cipher_failed, state_env_version, seal_value, open_value, seal_value_ok,
  open_value-seal_value, open_value-wrong_key,
}
use backupy_agent.State.Store.{
  Store, put_entry, save_config, load_config, save_session, load_session, enqueue_job, ack_job,
  buffer_log, record_heartbeat, bytes_to_u64, uint64_of, key_config_current, key_config_version,
  key_session_id, key_server_time, key_heartbeat, with_sealed, update,
}
use backupy_agent.State.Store.Steps.{
  update_ok, put_entry_ok, with_sealed_ok, update_fails, with_sealed_fails,
}
use backupy_agent.State.Store.Commits.{
  update_commits, with_sealed_commits, Wrote, put_entry-Wrote, put_two-Wrote, delete-Wrote,
  numbered-Wrote,
}

bytes_to_u64-put_uint64 : (n : ℕ) → n < 2 ^ 64 → bytes_to_u64 (put_uint64 n) ≡ n
unfolding bytes_to_u64
bytes_to_u64-put_uint64 n h = ground (arith, length-put_uint64 n, uint64-put_uint64 n h)

module _ {Db : Type 0} (bolt : Bolt Db) (is_bolt : IsBolt bolt) where
  get_put :
      (d : Db) (b : Bucket) (k v : Bytes) {d' : Db}
      → bolt.put d b k v ≡ ok d'
      → bolt.get d' b k ≡ some v
  get_put d b k v {d'} done =
      rw (is_bolt.get_cursor d' b k, is_bolt.cursor_put d b k v b done, Bucket-refl b)
        (lookup-insert k v (bolt.cursor d b))

  get_put_other :
      (d : Db) (b : Bucket) (k j v : Bytes) {d' : Db}
      → j ≢ k
      → bolt.put d b k v ≡ ok d'
      → bolt.get d' b j ≡ bolt.get d b j
  get_put_other d b k j v {d'} other done =
      rw
        (
          is_bolt.get_cursor d' b j,
          is_bolt.get_cursor d b j,
          is_bolt.cursor_put d b k v b done,
          Bucket-refl b,
        )
        (lookup-insert_other k j v (bolt.cursor d b) other)

  -- Two entries of one bucket set in one transaction.
  put_two :
      (b : Bucket) (k j v w : Bytes) (d : Db)
      → k ≢ j
      → 0 < length k
      → length k ≤ 32768
      → 0 < length j
      → length j ≤ 32768
      → length v + 2 ≤ 2 ^ 31
      → length w + 2 ≤ 2 ^ 31
      → (d' : Db) × ((put_entry bolt b k v d >>= λ r. put_entry bolt b j w r.1) ≡ ok (tt, d'))
        × (bolt.get d' b k ≡ some v)
        × (bolt.get d' b j ≡ some w)
  put_two b k j v w d other k1 k2 j1 j2 fit1 fit2 =
      let (d1, done1) = is_bolt.puts d b k v k1 k2 fit1 in
      let (d2, done2) = is_bolt.puts d1 b j w j1 j2 fit2 in
      (
        d2,
        rw (put_entry_ok bolt b k v d done1) (put_entry_ok bolt b j w d1 done2),
        get_put_other d1 b j k w other done2 ∙ get_put d b k v done1,
        get_put d1 b j w done2,
      )

module _ {Db : Type 0} (bolt : Bolt Db) (aead : Aead) where
  load_config_at :
      (s : Store Db) {v w raw : Bytes}
      → bolt.get s.db bkt_config key_config_current ≡ some v
      → open_value aead v ≡ ok raw
      → bolt.get s.db bkt_config key_config_version ≡ some w
      → load_config bolt aead s ≡ ok (bytes_to_u64 w, raw)
  unfolding load_config
  load_config_at s current opened stored = rw (load_config, current, opened, stored) refl

  load_session_at :
      (s : Store Db) {v : Bytes}
      → bolt.get s.db bkt_registry key_session_id ≡ some v
      → load_session bolt aead s ≡ open_value aead v
  unfolding load_session
  load_session_at s current = rw (load_session, current) refl

current≢version : key_config_current ≢ key_config_version
current≢version h =
    let first : Bytes → ℕ = λ (l : Bytes). elim l [ [] ↦ 0 | c ∷ cs ↦ c ] in
    absurd (omega (arith, ap first h))

session_id≢server_time : key_session_id ≢ key_server_time
session_id≢server_time h = absurd (omega (arith, ap (λ (l : Bytes). length l) h))

module _ {Db : Type 0} (bolt : Bolt Db) (is_bolt : IsBolt bolt) (aead : Aead) (gcm : IsGcm aead)
    (rand : Random) (fresh : IsRandom rand) (commits : (d : Db) → bolt.commit d ≡ none) where
  sealed_fits :
      (k : ℕ) (raw : Bytes)
      → length raw + 31 ≤ 2 ^ 31
      → length (state_env_version ∷ (fresh.draw k ++ aead.seal (fresh.draw k) raw)) + 2 ≤ 2 ^ 31
  sealed_fits k raw h = omega (
    arith,
    length-append (fresh.draw k) (aead.seal (fresh.draw k) raw),
    gcm.sealed_length (fresh.draw k) raw,
    fresh.draw_length k,
  )

  -- A config that is saved is loaded again with its version, a 64-bit number, if bbolt takes the
  -- value's size and the commit succeeds.
  pub load_config-save_config :
      (version : ℕ) (raw : Bytes) (s : Store Db)
      → version < 2 ^ 64
      → length raw + 31 ≤ 2 ^ 31
      → let (r, s') = save_config bolt aead rand version raw s in
        (r ≡ ok tt) × (load_config bolt aead s' ≡ ok (version, raw))
  unfolding save_config
  load_config-save_config version raw s fits short =
      let v = state_env_version ∷ (fresh.draw s.draws ++ aead.seal (fresh.draw s.draws) raw) in
      let w = put_uint64 version in
      let sealed = seal_value_ok aead gcm rand fresh s.draws raw in
      let opened = open_value-seal_value aead gcm rand fresh s.draws raw sealed in
      let (d', body, current, stored) =
        put_two bolt is_bolt bkt_config key_config_current key_config_version v w s.db
          current≢version (omega arith) (omega arith) (omega arith) (omega arith)
          (sealed_fits s.draws raw short) (omega (arith, length-put_uint64 version)) in
      rw
        (
          with_sealed_ok bolt aead rand raw _ s sealed,
          update_ok bolt _ (record s { draws = suc s.draws }) body (commits d'),
        )
        (
          refl,
          load_config_at bolt aead (record { db = d'; draws = suc s.draws }) current opened stored
              ∙ ap (λ n. ok (n, raw)) (bytes_to_u64-put_uint64 version fits),
        )

  -- A session id that is saved is loaded again with the cipher of its key; the cipher of another key,
  -- which refuses what this one has sealed, gives the error of decryption, not that there is no
  -- session.
  pub load_session-save_session :
      (session_id : Bytes) (server_time : ℤ) (s : Store Db) (other : Aead)
      → length session_id + 31 ≤ 2 ^ 31
      → IsGcm other
      → ((nonce : Bytes) → other.open_sealed nonce (aead.seal nonce session_id) ≡ none)
      → let (r, s') = save_session bolt aead rand session_id server_time s in
        (r ≡ ok tt)
        × (load_session bolt aead s' ≡ ok session_id)
        × (load_session bolt other s' ≡ err cipher_failed)
  unfolding save_session load_session
  load_session-save_session session_id server_time s other short other_gcm wrong =
      let v =
        state_env_version ∷ (fresh.draw s.draws ++ aead.seal (fresh.draw s.draws) session_id) in
      let w = put_uint64 (uint64_of server_time) in
      let sealed = seal_value_ok aead gcm rand fresh s.draws session_id in
      let opened = open_value-seal_value aead gcm rand fresh s.draws session_id sealed in
      let (d', body, current, stored) =
        put_two bolt is_bolt bkt_registry key_session_id key_server_time v w s.db
          session_id≢server_time (omega arith) (omega arith) (omega arith) (omega arith)
          (sealed_fits s.draws session_id short)
          (omega (arith, length-put_uint64 (uint64_of server_time))) in
      rw
        (
          with_sealed_ok bolt aead rand session_id _ s sealed,
          update_ok bolt _ (record s { draws = suc s.draws }) body (commits d'),
        )
        (
          refl,
          load_session_at bolt aead (record { db = d'; draws = suc s.draws }) current ∙ opened,
          load_session_at bolt other (record { db = d'; draws = suc s.draws }) current
              ∙ open_value-wrong_key other aead gcm rand fresh s.draws session_id (wrong _) sealed,
        )

guarded_fails :
    {Db : Type 0} (b : Bool) (r : Result StateError Unit × Store Db) (s : Store Db) {e : StateError}
    (x : StateError)
    → (r.0 ≡ err e → r.1.db ≡ s.db)
    → (if b then (err x, s) else r).0 ≡ err e
    → (if b then (err x, s) else r).1.db ≡ s.db
guarded_fails true r s x h k = refl
guarded_fails false r s x h k = h k

guarded_works :
    {Db : Type 0} (P : Result StateError Unit × Store Db → Type 0) (b : Bool)
    (r : Result StateError Unit × Store Db) (s : Store Db) (x : StateError)
    → (r.0 ≡ ok tt → P r)
    → (if b then (err x, s) else r).0 ≡ ok tt
    → P (if b then (err x, s) else r)
guarded_works P true r s x h k = absurd (ground arith)
guarded_works P false r s x h k = h k

-- The operation succeeds and has had its effect, or it returns an error and the database is as it was.
abbrev pub Atomic : {Db : Type 0} → Store Db → Result StateError Unit × Store Db → Type 0 → Type 0
Atomic s r Effect = ((r.0 ≡ ok tt) × Effect) ⊎ ((e : StateError) × (r.0 ≡ err e) × (r.1.db ≡ s.db))

atomic :
    {Db : Type 0} {Effect : Type 0} (s : Store Db) (r : Result StateError Unit × Store Db)
    → ((e : StateError) → r.0 ≡ err e → r.1.db ≡ s.db)
    → (r.0 ≡ ok tt → Effect)
    → Atomic s r Effect
atomic s r fails works = elim (Result-cases r.0) [
  | inl (u, good) ↦ inl (good, works good)
  | inr (e, bad) ↦ inr (e, bad, fails e bad)
]

module _ {Db : Type 0} (bolt : Bolt Db) (is_bolt : IsBolt bolt) (aead : Aead) (rand : Random) where
  -- A bucket is left with entries that are made of the sealed value.
  abbrev pub Sealed : Store Db → Bytes → Store Db → Bucket → (Bytes → Entries) → Type 0
  Sealed s raw s' b entries =
      (enc : Bytes) × (seal_value aead rand s.draws raw ≡ ok enc)
      × Wrote bolt is_bolt s.db b (entries enc) s'.db

  with_sealed-Sealed :
      (raw : Bytes) (s : Store Db) (b : Bucket) (entries : Bytes → Entries)
      (body : Bytes → Db → Result StateError (Unit {0} × Db))
      → ((enc : Bytes) (d : Db)
          → body enc s.db ≡ ok (tt, d)
          → Wrote bolt is_bolt s.db b (entries enc) d)
      → let r = with_sealed bolt aead rand raw (λ enc. update bolt (body enc)) s in
        r.0 ≡ ok tt → Sealed s raw r.1 b entries
  with_sealed-Sealed raw s b entries body writes h =
      let (enc, d, made, done, left) = with_sealed_commits bolt aead rand raw body s h in
      (
        enc,
        made,
        subst (λ d. Wrote bolt is_bolt s.db b (entries enc) d) (sym left) (writes enc d done),
      )

  update-Wrote :
      (s : Store Db) (b : Bucket) (es : Entries) (body : Db → Result StateError (Unit {0} × Db))
      → ((d : Db) → body s.db ≡ ok (tt, d) → Wrote bolt is_bolt s.db b es d)
      → (update bolt body s).0 ≡ ok tt
      → Wrote bolt is_bolt s.db b es (update bolt body s).1.db
  update-Wrote s b es body writes h =
      let (d, done, left) = update_commits bolt body s h in
      subst (λ d. Wrote bolt is_bolt s.db b es d) (sym left) (writes d done)

  -- SaveConfig and SaveSession set both of their entries, EnqueueJob and RecordHeartbeat theirs,
  -- BufferLog adds one under the time and the next number, AckJob removes one, each in its bucket, with
  -- the sealed value where there is one, and leave all else as it was; or they return an error and leave
  -- the database as it was, whatever fails: the random source, a check, bbolt or the commit.
  pub operations-Atomic :
      (s : Store Db) (version : ℕ) (time : ℤ) (key raw : Bytes)
      → let config = save_config bolt aead rand version raw s in
        let session = save_session bolt aead rand raw time s in
        let job = enqueue_job bolt aead rand key raw s in
        let log = buffer_log bolt aead rand time raw s in
        let acked = ack_job bolt key s in
        let beat = record_heartbeat bolt time s in
        Atomic s config (
          Sealed s raw config.1 bkt_config (λ enc.
            insert key_config_version
              (put_uint64 version)
              (insert key_config_current enc (bolt.cursor s.db bkt_config))))
        × Atomic s session (
            Sealed s raw session.1 bkt_registry (λ enc.
              insert key_server_time
                (put_uint64 (uint64_of time))
                (insert key_session_id enc (bolt.cursor s.db bkt_registry))))
        × Atomic s job
            (Sealed s raw job.1 bkt_queue (λ enc. insert key enc (bolt.cursor s.db bkt_queue)))
        × Atomic s log (
            Sealed s raw log.1 bkt_logs (λ enc.
              insert
                (put_uint64 (uint64_of time) ++ put_uint64 (bolt.next_sequence s.db bkt_logs).0)
                enc
                (bolt.cursor s.db bkt_logs)))
        × Atomic s acked
            (Wrote bolt is_bolt s.db bkt_queue (remove key (bolt.cursor s.db bkt_queue)) acked.1.db)
        × Atomic s beat (
            Wrote bolt is_bolt s.db bkt_registry
              (insert key_heartbeat (put_uint64 (uint64_of time)) (bolt.cursor s.db bkt_registry))
              beat.1.db)
  unfolding save_config save_session enqueue_job buffer_log ack_job record_heartbeat
  operations-Atomic s version time key raw = (
    atomic s (save_config bolt aead rand version raw s)
        (λ e h. with_sealed_fails bolt aead rand raw _ s h)
        (with_sealed-Sealed raw s bkt_config _ _ (λ enc d h.
          put_two-Wrote bolt is_bolt bkt_config key_config_current enc key_config_version
            (put_uint64 version) s.db h)),
    atomic s (save_session bolt aead rand raw time s)
        (λ e h. with_sealed_fails bolt aead rand raw _ s h)
        (with_sealed-Sealed raw s bkt_registry _ _ (λ enc d h.
          put_two-Wrote bolt is_bolt bkt_registry key_session_id enc key_server_time
            (put_uint64 (uint64_of time)) s.db h)),
    atomic s (enqueue_job bolt aead rand key raw s)
        (λ e. guarded_fails (is_empty key) _ s _ (λ h. with_sealed_fails bolt aead rand raw _ s h))
        (guarded_works
          (λ r. Sealed s raw r.1 bkt_queue (λ enc. insert key enc (bolt.cursor s.db bkt_queue)))
          (is_empty key) _ s _
          (with_sealed-Sealed raw s bkt_queue _ _
            (λ enc d h. put_entry-Wrote bolt is_bolt bkt_queue key enc s.db h))),
    atomic s (buffer_log bolt aead rand time raw s)
        (λ e h. with_sealed_fails bolt aead rand raw _ s h)
        (with_sealed-Sealed raw s bkt_logs _ _
          (λ enc d h. numbered-Wrote bolt is_bolt bkt_logs _ enc s.db h)),
    atomic s (ack_job bolt key s) (λ e h. ap (λ (t : Store _). t.db) (update_fails bolt _ s h))
        (update-Wrote s bkt_queue _ _ (λ d h. delete-Wrote bolt is_bolt bkt_queue key s.db h)),
    atomic s (record_heartbeat bolt time s)
        (λ e h. ap (λ (t : Store _). t.db) (update_fails bolt _ s h))
        (update-Wrote s bkt_registry _ _ (λ d h.
          put_entry-Wrote bolt is_bolt bkt_registry key_heartbeat (put_uint64 (uint64_of time)) s.db
            h)),
  )
