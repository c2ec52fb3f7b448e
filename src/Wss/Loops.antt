-- ===== src/Wss/Loops.antt =====
-- apps/agent/internal/wss/loops.go: one turn of each loop of a live connection.
use backupy_agent.Prelude.{
  ℕ, ◌≡◌, ◌≢◌, refl, ◌∙◌, ap, ap₂, Bool, true, false, Option, none, some, List, [], ◌∷◌, ◌++◌,
  length, ltb, ◌==◌, Option-cases, inl, inr, if◌then◌else◌, All, arith,
}
use backupy_agent.Prelude.Bytes.{Bytes}
use backupy_agent.Prelude.Int.{ℤ}
use backupy_agent.Wss.Messages.{Envelope, heartbeat}
use backupy_agent.Wss.Client.{Client, Wiring, out_capacity, numbered, stamp, dispatch}

pub data LoopError : Type 0 where
  read_failed read_timeout unmarshal_failed write_failed context_done : LoopError

-- What `ws.Read` gives: a frame, binary or not, or an error.
pub data Incoming : Type 0 where
  binary_frame text_frame : Bytes → Incoming
  deadline broken : Incoming

module _ {St : Type 0} (w : Wiring St) where
  -- One turn of `readLoop`: `none` if the loop goes on. `done` is whether the context has ended.
  unfoldable pub read_turn : ℕ → Bool → Incoming → Client St → Option LoopError × Client St
  read_turn now true frame c = (some context_done, c)
  read_turn now false deadline c = (some read_timeout, c)
  read_turn now false broken c = (some read_failed, c)
  read_turn now false (text_frame b) c = (none, c)
  read_turn now false (binary_frame b) c = elim (w.codec.unmarshal b) [
    | none ↦ (some unmarshal_failed, c)
    | some env ↦ (none, (dispatch w now (some env) c).1)
  ]

  -- `emitHeartbeat` where the channel has room; `none` where it waits.
  unfoldable pub emit_heartbeat : ℕ → ℤ → Client St → Option (Client St)
  emit_heartbeat now ts c = elim c.out [
    | none ↦ none
    | some out ↦
        if ltb (length out) out_capacity
        then some (record c {
          out = some (
              out
              ++ ((record {
                seq = 0;
                ts_ms = now;
                correlation_id = [];
                payload = some (heartbeat c.config_version);
              })
                  ∷ []));
          disk = elim w.state [ none ↦ c.disk | some store ↦ (store.record_heartbeat ts c.disk).1 ];
        })
        else none
  ]

  -- `writeLoop` on an envelope that has its number and time: the frame written, if it encodes. `writes`
  -- is whether `ws.Write` succeeds.
  unfoldable pub write_encoded :
      (Bytes → Bool) → Envelope → Client St → (Option LoopError × List Bytes) × Client St
  write_encoded writes env c = elim (w.codec.marshal env) [
    | none ↦ ((none, []), c)
    | some raw ↦ ((if writes raw then none else some write_failed, raw ∷ []), c)
  ]

  -- One turn of `writeLoop` on an envelope, and the client with the number taken.
  unfoldable pub write_turn :
      ℕ → (Bytes → Bool) → Envelope → Client St → (Option LoopError × List Bytes) × Client St
  write_turn now writes env c =
      let (env', c') = numbered env c in write_encoded writes (stamp now env') c'

  -- The loop after a turn.
  unfoldable pub after_turn :
      (Client St → (Option LoopError × List Bytes) × Client St)
      → (Option LoopError × List Bytes) × Client St
      → (Option LoopError × List Bytes) × Client St
  after_turn rest turn =
      let ((e, frames), c') = turn in
      let ((e', more), c'') = rest c' in
      elim e [ some x ↦ ((some x, frames), c') | none ↦ ((e', frames ++ more), c'') ]

  -- `writeLoop` on the envelopes that come out of the channel, until it fails.
  unfoldable pub write_loop :
      ℕ → (Bytes → Bool) → List Envelope → Client St → (Option LoopError × List Bytes) × Client St
  write_loop now writes [] c = ((none, []), c)
  write_loop now writes (env ∷ envs) c =
      after_turn (λ c'. write_loop now writes envs c') (write_turn now writes env c)

  -- The frames of envelopes that have their number and time, in order.
  unfoldable pub frames_of : List Envelope → List Bytes
  frames_of [] = []
  frames_of (env ∷ envs) = elim (w.codec.marshal env) [
    | none ↦ frames_of envs
    | some raw ↦ raw ∷ frames_of envs
  ]

-- An envelope as `Send` leaves it.
abbrev pub IsStamped : Envelope → Type 0
IsStamped env = (env.seq ≢ 0) × (env.ts_ms ≢ 0)

module _ {St : Type 0} (w : Wiring St) where
  stamped_keeps :
      (now : ℕ) (env : Envelope) (c : Client St)
      → IsStamped env
      → (stamp now (numbered env c).0 ≡ env) × ((numbered env c).1 ≡ c)
  unfolding numbered stamp
  stamped_keeps now env c (seq, ts) =
      let no_seq : (env.seq == 0) ≡ false = ground arith in
      let no_ts : (env.ts_ms == 0) ≡ false = ground arith in rw (no_seq, no_ts) (refl, refl)

  write_turn_stamped :
      (now : ℕ) (writes : Bytes → Bool) (env : Envelope) (c : Client St)
      → IsStamped env
      → write_turn w now writes env c ≡ write_encoded w writes env c
  unfolding write_turn
  write_turn_stamped now writes env c s =
      let (same, still) = stamped_keeps now env c s in
      ap₂ (λ e k. write_encoded w writes e k) same still

  -- While `ws.Write` succeeds, `writeLoop` writes the envelopes that `Send` put into the channel in
  -- order and unchanged, each that encodes once, and takes no number for them.
  pub write_loop_lem :
      (now : ℕ) (writes : Bytes → Bool) (envs : List Envelope) (c : Client St)
      → ((b : Bytes) → writes b ≡ true)
      → All IsStamped envs
      → write_loop w now writes envs c ≡ ((none, frames_of w envs), c)
  unfolding write_loop after_turn write_encoded frames_of
  write_loop_lem now writes [] c up all = refl
  write_loop_lem now writes (env ∷ envs) c up (s, all) =
      let turn = write_turn_stamped now writes env c s in
      let ih = write_loop_lem now writes envs c up all in
      let rest : Client St → (Option LoopError × List Bytes) × Client St =
        λ c'. write_loop w now writes envs c' in
      elim (Option-cases (w.codec.marshal env)) [
        | inl bad ↦
            let made : write_encoded w writes env c ≡ ((none, []), c) =
              rw (write_encoded, bad) refl in
            ap (λ t. after_turn w rest t) (turn ∙ made) ∙ ih ∙ rw (frames_of, bad) refl
        | inr (raw, good) ↦
            let made : write_encoded w writes env c ≡ ((none, raw ∷ []), c) =
              rw (write_encoded, good, up raw) refl in
            ap (λ t. after_turn w rest t) (turn ∙ made)
            ∙ ap (λ (t : (Option LoopError × List Bytes) × Client St). ((t.0.0, raw ∷ t.0.1), t.1))
                ih
            ∙ rw (frames_of, good) refl
      ]
