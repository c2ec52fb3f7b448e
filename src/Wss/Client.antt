-- ===== src/Wss/Client.antt =====
-- apps/agent/internal/wss/client.go and loops.go: the client between the loops. The state is what
-- `Client` holds; an out channel is the list of what is buffered in it.
pub mod Replay
pub mod Sending
use backupy_agent.Prelude.{
  ℕ, zero, suc, ◌+◌, ◌-◌, ◌*◌, ◌/◌, ◌%◌, ◌^◌, Bool, true, false, Option, none, some, List, [], ◌∷◌,
  ◌++◌, length, ltb, ◌==◌, if◌then◌else◌, Result, ok, err,
}
use backupy_agent.Prelude.Bytes.{Bytes, is_empty, codes}
use backupy_agent.Prelude.Int.{ℤ, pos}
use backupy_agent.Io.{Fault}
use backupy_agent.State.Envelope.{StateError}
use backupy_agent.Queue.{Queue, Job}
use backupy_agent.Wss.Messages.{
  AgentConfig, Register, RegisterAck, Payload, register, heartbeat, ack, register_ack,
  config_update, run_backup, cancel_job, run_health_check, self_update, other, ping, Envelope,
  Codec,
}

-- The capacity of the out channel, and how many jobs `replayQueue` pops.
abbrev pub out_capacity : ℕ
out_capacity = 64

abbrev pub replay_batch : ℕ
replay_batch = 100

-- The `*state.Store` of a client: the operations that it calls.
pub record StateStore (St : Type 0) : Type 0 where
  pub save_config : ℕ → Bytes → St → Result StateError Unit × St
  pub load_config : St → Result StateError (ℕ × Bytes)
  pub save_session : Bytes → ℤ → St → Result StateError Unit × St
  pub record_heartbeat : ℤ → St → Result StateError Unit × St

-- `Handlers`: each callback by its answer, absent where it is nil.
pub record Handlers : Type 0 where
  pub on_config_update : Option (Option AgentConfig → Option Fault)
  pub on_run_backup : Option (Bytes → Option Fault)
  pub on_cancel_job : Option (Bytes → Option Fault)
  pub on_run_health_check : Option (Bytes → Option Fault)
  pub on_self_update : Option (Bytes → Option Fault)

-- What a client is made with. `state`, `queue` and `handlers` may be nil.
pub record Wiring (St : Type 0) : Type 0 where
  pub codec : Codec
  pub state : Option (StateStore St)
  pub queue : Option (Queue St)
  pub handlers : Option Handlers

pub record Client (St : Type 0) : Type 0 where
  pub seq : ℕ
  pub config_version : ℕ
  pub session_id : Bytes
  -- `none`: disconnected
  pub out : Option (List Envelope)
  pub disk : St
  -- the callbacks made, as the payload that each was made for
  pub called : List Payload

pub data ClientError : Type 0 where
  nil_envelope marshal_envelope no_queue empty_envelope unsupported_payload : ClientError
  handler : Fault → ClientError
  enqueue : StateError → ClientError
  marshal_register write_register read_register_ack not_binary unmarshal_ack not_register_ack :
      ClientError

-- `%d`
unfoldable pub decimal : ℕ → ℕ → Bytes
decimal zero n = []
decimal (suc fuel) n =
    let rest = decimal fuel (n / 10) in
    if ltb n 10 then (48 + n) ∷ [] else rest ++ ((48 + n % 10) ∷ [])

-- `env.CorrelationId`, or `seq-%d` of a number of at most twenty digits.
unfoldable pub key_of : Envelope → Bytes
key_of env =
    if is_empty env.correlation_id then codes "seq-" ++ decimal 20 env.seq else env.correlation_id

-- `c.seq.Add(1)`
unfoldable pub next_seq : ℕ → ℕ
next_seq n = (n + 1) % 2 ^ 64

unfoldable pub stamp : ℕ → Envelope → Envelope
stamp now env = record env { ts_ms = if env.ts_ms == 0 then now else env.ts_ms }

-- The envelope that `Send` makes of its argument, and the client with the number taken.
unfoldable pub numbered : {St : Type 0} → Envelope → Client St → Envelope × Client St
numbered env c =
    if env.seq == 0
    then (record env { seq = next_seq c.seq }, record c { seq = next_seq c.seq })
    else (env, c)

module _ {St : Type 0} (w : Wiring St) where
  -- `NewClient`, of the fields that the connection changes.
  unfoldable pub new_client : St → Client St
  new_client disk = record {
    seq = 0;
    config_version = elim w.state [
      | none ↦ 0
      | some store ↦ elim (store.load_config disk) [ ok (v, raw) ↦ v | err e ↦ 0 ]
    ];
    session_id = [];
    out = none;
    disk = disk;
    called = [];
  }

  -- From `raw, err := proto.Marshal(env)` on in `Send`.
  unfoldable pub persist : Envelope → Client St → Result ClientError Unit × Client St
  persist env c = elim (w.codec.marshal env) [
    | none ↦ (err marshal_envelope, c)
    | some raw ↦ elim w.queue [
      | none ↦ (err no_queue, c)
      | some q ↦
          let (r, disk) = q.enqueue (key_of env) raw c.disk in
          (elim r [ ok u ↦ ok u | err e ↦ err (enqueue e) ], record c { disk = disk })
    ]
  ]

  -- `Send` from the lock on: the out channel if it has room, the queue if not.
  unfoldable pub push_or_persist : Envelope → Client St → Result ClientError Unit × Client St
  push_or_persist env c = elim c.out [
    | none ↦ persist env c
    | some out ↦
        if ltb (length out) out_capacity
        then (ok tt, record c { out = some (out ++ (env ∷ [])) })
        else persist env c
  ]

  -- `Send`, at the time `now`.
  unfoldable pub send : ℕ → Option Envelope → Client St → Result ClientError Unit × Client St
  send now none c = (err nil_envelope, c)
  send now (some env) c = let (env', c') = numbered env c in push_or_persist (stamp now env') c'

  unfoldable pub save_config_of : AgentConfig → Client St → Client St
  save_config_of cfg c = elim w.state [
    | none ↦ c
    | some store ↦ elim (w.codec.marshal_config cfg) [
      | none ↦ c
      | some raw ↦ record c { disk = (store.save_config cfg.version raw c.disk).1 }
    ]
  ]

  -- A callback, if there is one.
  unfoldable pub call :
      {M : Type 0}
      → (Handlers → Option (M → Option Fault))
      → M
      → Payload
      → Client St
      → Result ClientError Unit × Client St
  call pick msg p c = elim w.handlers [
    | none ↦ (ok tt, c)
    | some h ↦ elim (pick h) [
      | none ↦ (ok tt, c)
      | some f ↦ (
        elim (f msg) [ none ↦ ok tt | some e ↦ err (handler e) ],
        record c { called = c.called ++ (p ∷ []) },
      )
    ]
  ]

  -- `dispatch` in loops.go.
  unfoldable pub dispatch_payload :
      ℕ → Bytes → Payload → Client St → Result ClientError Unit × Client St
  dispatch_payload now id (config_update none) c =
      call (λ h. h.on_config_update) none (config_update none) c
  dispatch_payload now id (config_update (some cfg)) c =
      let saved = save_config_of cfg c in
      call (λ h. h.on_config_update) (some cfg) (config_update (some cfg))
        (record saved { config_version = cfg.version })
  dispatch_payload now id (run_backup m) c = call (λ h. h.on_run_backup) m (run_backup m) c
  dispatch_payload now id (cancel_job m) c = call (λ h. h.on_cancel_job) m (cancel_job m) c
  dispatch_payload now id (run_health_check m) c =
      call (λ h. h.on_run_health_check) m (run_health_check m) c
  dispatch_payload now id (self_update m) c = call (λ h. h.on_self_update) m (self_update m) c
  dispatch_payload now id ping c =
      send now
        (some (record { seq = 0; ts_ms = now; correlation_id = id; payload = some (ack id true) }))
        c
  dispatch_payload now id (register_ack a) c = (ok tt, c)
  dispatch_payload now id (register r) c = (err unsupported_payload, c)
  dispatch_payload now id (heartbeat v) c = (err unsupported_payload, c)
  dispatch_payload now id (ack i a) c = (err unsupported_payload, c)
  dispatch_payload now id (other m) c = (err unsupported_payload, c)

  unfoldable pub dispatch : ℕ → Option Envelope → Client St → Result ClientError Unit × Client St
  dispatch now none c = (err empty_envelope, c)
  dispatch now (some env) c = elim env.payload [
    | none ↦ (err empty_envelope, c)
    | some p ↦ dispatch_payload now env.correlation_id p c
  ]

  -- `handshake`: `writes` is whether `ws.Write` succeeds, `read` what `ws.Read` gives: whether the
  -- frame is binary, and its bytes.
  unfoldable pub handshake :
      ℕ
      → Register
      → (Bytes → Bool)
      → Option (Bool × Bytes)
      → Client St
      → Result ClientError RegisterAck × Client St
  handshake now reg writes read c =
      let seq = next_seq c.seq in
      let env : Envelope = record {
        seq = seq;
        ts_ms = now;
        correlation_id = [];
        payload = some (register (record reg { last_known_config_version = c.config_version }));
      } in
      let c' = record c { seq = seq } in
      elim (w.codec.marshal env) [
        | none ↦ (err marshal_register, c')
        | some raw ↦
            if writes raw
            then (elim read [
              | none ↦ (err read_register_ack, c')
              | some (binary, frame) ↦
                  if binary
                  then (elim (w.codec.unmarshal frame) [
                    | none ↦ (err unmarshal_ack, c')
                    | some env ↦ elim env.payload [
                      | some (register_ack (some a)) ↦ (ok a, c')
                      | _ ↦ (err not_register_ack, c')
                    ]
                  ])
                  else (err not_binary, c')
            ])
            else (err write_register, c')
      ]

  -- `runOnce` behind the handshake: the session id and the config version, and the saved session.
  unfoldable pub register_session : ℤ → RegisterAck → Client St → Client St
  register_session now a c =
      let c1 = record c {
        session_id = a.session_id;
        config_version = elim a.config [
          | none ↦ c.config_version
          | some cfg ↦ if ltb c.config_version cfg.version then cfg.version else c.config_version
        ];
      } in
      elim w.state [
        | none ↦ c1
        | some store ↦ record c1 { disk = (store.save_session a.session_id now c1.disk).1 }
      ]

  -- From there to the out channel: the saved config and its callback.
  unfoldable pub apply_ack : ℤ → RegisterAck → Client St → Client St
  apply_ack now a c =
      let c2 = register_session now a c in
      elim a.config [
        | none ↦ c2
        | some cfg ↦
            (call (λ h. h.on_config_update) (some cfg) (config_update (some cfg))
              (save_config_of cfg c2)).1
      ]

-- The deferred function of `runOnce`: the channel is dropped with what is in it.
unfoldable pub disconnect : {St : Type 0} → Client St → Client St
disconnect c = record c { out = none }
