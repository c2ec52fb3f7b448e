-- ===== src/Wss/Backoff.antt =====
-- apps/agent/internal/wss/backoff.go, and the loop of `Start` in client.go that uses it. Durations are
-- nanoseconds. The factor is a whole number and the jitter a number of tenths, 2 for `JitterPC` 0.2;
-- products are exact where Go rounds a float64.
pub mod Bounds
use backupy_agent.Prelude.{
  ℕ, zero, suc, ◌+◌, ◌-◌, ◌*◌, ◌/◌, ◌^◌, Bool, true, false, Option, none, some, List, [], ◌∷◌, ltb,
  ◌==◌, if◌then◌else◌,
}
use backupy_agent.Pipeline.Hooks.{second}

pub record Backoff : Type 0 where
  pub initial : ℕ
  pub max : ℕ
  pub factor : ℕ
  pub jitter_tenths : ℕ
  pub current : ℕ

-- `NewBackoff`
unfoldable pub new_backoff : Backoff
new_backoff = record {
  initial = 1 * second;
  max = 60 * second;
  factor = 2;
  jitter_tenths = 2;
  current = 0;
}

-- `rng.Float64()` is `u / 2^53` of a draw `u`.
abbrev pub float64_steps : ℕ
float64_steps = 2 ^ 53

-- `withJitter`: `d * (1 + j/10 * (2u/2^53 - 1))`, for a jitter of at most ten tenths.
unfoldable pub with_jitter : Backoff → ℕ → ℕ → ℕ
with_jitter b u d =
    if b.jitter_tenths == 0
    then d
    else d
      * ((10 - b.jitter_tenths) * float64_steps + 2 * b.jitter_tenths * u)
      / (10 * float64_steps)

unfoldable pub advance : Backoff → ℕ
advance b =
    if b.current == 0
    then b.initial
    else (let c = b.current * b.factor in if ltb b.max c then b.max else c)

-- `Next`, with the random draw.
unfoldable pub next : ℕ → Backoff → ℕ × Backoff
next u b = let b' = record b { current = advance b } in (with_jitter b' u b'.current, b')

-- `Reset`
unfoldable pub reset : Backoff → Backoff
reset b = record b { current = 0 }

-- What one pass of the loop of `Start` meets: `ctx.Err()` before and after `runOnce`, whether the wait
-- ends by `ctx.Done()`, whether `runOnce` completed the handshake, the random draw.
pub record Pass : Type 0 where
  pub cancelled_before : Bool
  pub connected : Bool
  pub cancelled_after : Bool
  pub draw : ℕ
  pub cancelled_waiting : Bool

pub record StartState : Type 0 where
  pub backoff : Backoff
  pub reconnect_count : ℕ
  -- the waits so far, the last one first
  pub waits : List ℕ

unfoldable pub start_state : StartState
start_state = record { backoff = new_backoff; reconnect_count = 0; waits = [] }

-- One pass: true if the loop goes on.
unfoldable pub start_pass : Pass → StartState → Bool × StartState
start_pass p s =
    if p.cancelled_before
    then (false, s)
    else (if p.cancelled_after
        then (false, s)
        else (let (delay, b) = next p.draw s.backoff in
            let s' : StartState = record {
              backoff = b;
              reconnect_count = s.reconnect_count + 1;
              waits = delay ∷ s.waits;
            } in
            (if p.cancelled_waiting then false else true, s')))

unfoldable pub start_loop : List Pass → StartState → StartState
start_loop [] s = s
start_loop (p ∷ ps) s =
    let (more, s') = start_pass p s in let rest = start_loop ps s' in if more then rest else s'
