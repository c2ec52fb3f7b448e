-- ===== src/Wss/Client/Sending.antt =====
-- `Send`, and the config version over `runOnce` and `dispatch`.
use backupy_agent.Prelude.{
  ℕ, zero, suc, ◌+◌, ◌/◌, ◌%◌, ◌^◌, ◌≤◌, ◌<◌, ◌≡◌, ◌⊎◌, refl, sym, ◌∙◌, subst, true, false,
  Bool-cases, Option-cases, inl, inr, Option, none, some, List, [], ◌∷◌, ◌++◌, length, ltb, ok,
  arith, length-append,
}
use backupy_agent.Prelude.Bytes.{Bytes, is_empty}
use backupy_agent.Prelude.Int.{ℤ}
use backupy_agent.Io.{Fault}
use backupy_agent.Bolt.{insert}
use backupy_agent.Queue.{Queue, IsQueue, Job}
use backupy_agent.Wss.Messages.{AgentConfig, RegisterAck, Payload, config_update, Envelope}
use backupy_agent.Wss.Client.{
  Client, Handlers, Wiring, decimal, key_of, stamp, numbered, persist, push_or_persist, send,
  save_config_of, call, dispatch_payload, dispatch, register_session, apply_ack, out_capacity,
  disconnect,
}

length-decimal : (fuel n : ℕ) → length (decimal fuel n) ≤ fuel
unfolding decimal
length-decimal zero n = omega arith
length-decimal (suc fuel) n = ground (
  arith,
  length-decimal fuel (n / 10),
  length-append (decimal fuel (n / 10)) ((48 + n % 10) ∷ []),
)

key_of_bounds :
    (env : Envelope)
    → length env.correlation_id ≤ 32768
    → (0 < length (key_of env)) × (length (key_of env) ≤ 32768)
unfolding key_of
key_of_bounds env h =
    let digits = length-decimal 20 env.seq in
    elim (Bool-cases (is_empty env.correlation_id)) [
      | inl no_id ↦ rw no_id (omega arith, omega (arith, digits))
      | inr id ↦ rw id (full env.correlation_id id, h)
    ]
  where
    full : (b : Bytes) → is_empty b ≡ false → 0 < length b
    full [] e = absurd (ground arith)
    full (x ∷ xs) e = omega arith

module _ {St : Type 0} (w : Wiring St) (q : Queue St) (is_queue : IsQueue q) where
  -- The channel had room and the envelope is the last one in it; or there was no channel, or it was
  -- full, and the envelope is in the queue under its key.
  unfoldable pub Kept : Envelope → Bytes → List Job → Option (List Envelope) → Client St → Type 0
  Kept env raw jobs before c' =
      ((out : List Envelope) × (before ≡ some out)
        × (length out < out_capacity)
        × (c'.out ≡ some (out ++ (env ∷ [])))
        × is_queue.Holds c'.disk jobs)
      ⊎ (((before ≡ none)
            ⊎ ((out : List Envelope) × (before ≡ some out) × (out_capacity ≤ length out)))
          × (c'.out ≡ before)
          × is_queue.Holds c'.disk (insert (key_of env) raw jobs))

  persist_kept :
      (env : Envelope) (raw : Bytes) (c : Client St) (jobs : List Job)
      → w.queue ≡ some q
      → w.codec.marshal env ≡ some raw
      → length env.correlation_id ≤ 32768
      → length raw + 31 ≤ 2 ^ 31
      → is_queue.Holds c.disk jobs
      → let (r, c') = persist w env c in
        (r ≡ ok tt) × (c'.out ≡ c.out) × is_queue.Holds c'.disk (insert (key_of env) raw jobs)
  unfolding persist
  persist_kept env raw c jobs wired encoded id fits holds =
      let key = key_of_bounds env id in
      let put = is_queue.enqueue_insert (key_of env) raw c.disk jobs key.0 key.1 fits holds in
      rw (persist, encoded, wired, put.0) (refl, refl, put.1)

  push_kept :
      (env : Envelope) (raw : Bytes) (c : Client St) (jobs : List Job)
      → w.queue ≡ some q
      → w.codec.marshal env ≡ some raw
      → length env.correlation_id ≤ 32768
      → length raw + 31 ≤ 2 ^ 31
      → is_queue.Holds c.disk jobs
      → let (r, c') = push_or_persist w env c in (r ≡ ok tt) × Kept env raw jobs c.out c'
  unfolding push_or_persist Kept
  push_kept env raw c jobs wired encoded id fits holds =
      let p = persist_kept env raw c jobs wired encoded id fits holds in
      elim (Option-cases c.out) [
        | inl off ↦ rw (push_or_persist, off) (p.0, inr (inl refl, p.1 ∙ off, p.2))
        | inr (out, on) ↦ elim (Bool-cases (ltb (length out) out_capacity)) [
          | inl room ↦
              rw (push_or_persist, on, room) (refl, inl (out, refl, ground arith, refl, holds))
          | inr full ↦
              rw (push_or_persist, on, full)
                (p.0, inr (inr (out, refl, ground arith), p.1 ∙ on, p.2))
        ]
      ]

  numbered_keeps :
      (env : Envelope) (c : Client St)
      → let (env', c') = numbered env c in
        (c'.out ≡ c.out) × (c'.disk ≡ c.disk) × (env'.correlation_id ≡ env.correlation_id)
  unfolding numbered
  numbered_keeps env c = ground arith

  -- With a queue and a working codec, `Send` of an envelope whose key and size the queue takes
  -- succeeds. Where there is an out channel with room, the envelope, with its number and time, is the
  -- last one in the channel, which is memory only, and the queue is as it was; where there is none, or
  -- it is full, the channel is as it was and the envelope is in the queue under its key.
  pub send_kept :
      (now : ℕ) (env : Envelope) (raw : Bytes) (c : Client St) (jobs : List Job)
      → w.queue ≡ some q
      → w.codec.marshal (stamp now (numbered env c).0) ≡ some raw
      → length env.correlation_id ≤ 32768
      → length raw + 31 ≤ 2 ^ 31
      → is_queue.Holds c.disk jobs
      → let (r, c') = send w now (some env) c in
        (r ≡ ok tt) × Kept (stamp now (numbered env c).0) raw jobs c.out c'
  unfolding send stamp
  send_kept now env raw c jobs wired encoded id fits holds =
      let keeps = numbered_keeps env c in
      let c1 = (numbered env c).1 in
      let env1 = stamp now (numbered env c).0 in
      let holds1 = subst (λ (d : St). is_queue.Holds d jobs) (sym keeps.1) holds in
      let id1 : length env1.correlation_id ≤ 32768 = rw keeps.2 id in
      let p = push_kept env1 raw c1 jobs wired encoded id1 fits holds1 in
      (
        p.0,
        subst (λ (o : Option (List Envelope)). Kept env1 raw jobs o (send w now (some env) c).1)
            keeps.0 p.1,
      )

module _ {St : Type 0} (w : Wiring St) where
  push_dropped :
      (env : Envelope) (c : Client St) (out : List Envelope)
      → c.out ≡ some out
      → length out < out_capacity
      → disconnect (push_or_persist w env c).1 ≡ disconnect c
  unfolding push_or_persist disconnect
  push_dropped env c out on room =
      let fits : ltb (length out) out_capacity ≡ true = ground arith in
      rw (push_or_persist, on, fits) refl

  numbered-out : (env : Envelope) (c : Client St) → (numbered env c).1.out ≡ c.out
  unfolding numbered
  numbered-out env c = ground arith

  -- What is in the channel when the connection ends is gone: the client is as if it had only taken the
  -- number.
  pub send_dropped :
      (now : ℕ) (env : Envelope) (c : Client St) (out : List Envelope)
      → c.out ≡ some out
      → length out < out_capacity
      → disconnect (send w now (some env) c).1 ≡ disconnect (numbered env c).1
  unfolding send
  send_dropped now env c out on room =
      push_dropped (stamp now (numbered env c).0) (numbered env c).1 out (numbered-out env c ∙ on)
        room

  call_keeps :
      {M : Type 0} (pick : Handlers → Option (M → Option Fault)) (m : M) (p : Payload)
      (c : Client St)
      → let c' = (call w pick m p c).1 in
        (c'.config_version ≡ c.config_version) × (c'.session_id ≡ c.session_id) × (c'.disk ≡ c.disk)
  unfolding call
  call_keeps pick m p c = ground arith

  save_config_of_keeps :
      (cfg : AgentConfig) (c : Client St)
      → let c' = save_config_of w cfg c in
        (c'.config_version ≡ c.config_version) × (c'.session_id ≡ c.session_id)
  unfolding save_config_of
  save_config_of_keeps cfg c = ground arith

  register_session_lem :
      (now : ℤ) (a : RegisterAck) (c : Client St) {cfg : AgentConfig}
      → a.config ≡ some cfg
      → let c' = register_session w now a c in
        (c'.session_id ≡ a.session_id)
        × (c.config_version ≤ c'.config_version)
        × (cfg.version ≤ c'.config_version)
        × ((c'.config_version ≡ c.config_version) ⊎ (c'.config_version ≡ cfg.version))
  unfolding register_session
  register_session_lem now a c {cfg} with_config = ground arith

  -- A RegisterAck sets the session id and never lowers the config version; a ConfigUpdate with a
  -- config sets the version to what it says, also to a lower one.
  pub config_version_lem :
      (now : ℤ) (ts : ℕ) (a : RegisterAck) (env : Envelope) (c : Client St) {cfg : AgentConfig}
      → a.config ≡ some cfg
      → env.payload ≡ some (config_update (some cfg))
      → let acked = apply_ack w now a c in
        (acked.session_id ≡ a.session_id)
        × (c.config_version ≤ acked.config_version)
        × (cfg.version ≤ acked.config_version)
        × ((acked.config_version ≡ c.config_version) ⊎ (acked.config_version ≡ cfg.version))
        × ((dispatch w ts (some env) c).1.config_version ≡ cfg.version)
  unfolding apply_ack dispatch dispatch_payload
  config_version_lem now ts a env c {cfg} with_config update =
      let c2 = register_session w now a c in
      let saved = save_config_of_keeps cfg c2 in
      let called =
        call_keeps (λ h. h.on_config_update) (some cfg) (config_update (some cfg))
          (save_config_of w cfg c2) in
      let made = register_session_lem now a c with_config in
      let version = called.0 ∙ saved.0 in
      let there =
        call_keeps (λ h. h.on_config_update) (some cfg) (config_update (some cfg))
          (record (save_config_of w cfg c) { config_version = cfg.version }) in
      rw (apply_ack, with_config, update)
        (
          called.1 ∙ saved.1 ∙ made.0,
          subst (λ (v : ℕ). c.config_version ≤ v) (sym version) made.1,
          subst (λ (v : ℕ). cfg.version ≤ v) (sym version) made.2,
          subst (λ (v : ℕ). (v ≡ c.config_version) ⊎ (v ≡ cfg.version)) (sym version) made.3,
          there.0,
        )
