-- ===== src/Wss/Backoff/Bounds.antt =====
-- The delays of the schedule, over calls of `Next` and over the loop of `Start`.
use backupy_agent.Prelude.{
  ℕ, zero, suc, ◌+◌, ◌*◌, ◌^◌, ◌≤◌, ◌<◌, ◌≡◌, refl, ◌∙◌, ap, subst, min, false, List, [], ◌∷◌,
  length, All, arith,
}
use native.Mathlib.Nat.{mul-le-mul_left}
use backupy_agent.Pipeline.Hooks.{second}
use backupy_agent.Wss.Backoff.{
  Backoff, new_backoff, with_jitter, advance, next, float64_steps, Pass, StartState, start_state,
  start_pass, start_loop,
}

-- The delay before jitter after k calls of `Next`: 1 s, 2 s, 4 s, up to a minute.
unfoldable pub scheduled : ℕ → ℕ
scheduled zero = 0
scheduled (suc k) = min (2 ^ k * second) (60 * second)

abbrev pub at : ℕ → Backoff
at k = record new_backoff { current = scheduled k }

pow_pos : (k : ℕ) → 0 < 2 ^ k
pow_pos zero = omega arith
pow_pos (suc k) = omega (arith, pow_pos k)

advance_double :
    (p c : ℕ)
    → 0 < p
    → c ≡ min (p * second) (60 * second)
    → advance (record new_backoff { current = c }) ≡ min (2 * p * second) (60 * second)
unfolding advance new_backoff
advance_double p c h e = ground arith

advance-at : (k : ℕ) → advance (at k) ≡ scheduled (suc k)
unfolding scheduled advance new_backoff
advance-at zero = refl
advance-at (suc k) = advance_double (2 ^ k) (scheduled (suc k)) (pow_pos k) refl ∙ omega arith

next-at : (u k : ℕ) → (next u (at k)).1 ≡ at (suc k)
unfolding next
next-at u k = ap (λ c. record new_backoff { current = c }) (advance-at k)

scheduled_max : (k : ℕ) → scheduled k ≤ 60 * second
unfolding scheduled
scheduled_max zero = omega arith
scheduled_max (suc k) = omega arith

-- The jitter of a default backoff is a fifth either way, up to one nanosecond of rounding.
with_jitter_bounds :
    (b : Backoff) (u d : ℕ)
    → b.jitter_tenths ≡ 2
    → u < float64_steps
    → (4 * d < 5 * (with_jitter b u d + 1)) × (5 * with_jitter b u d ≤ 6 * d)
unfolding with_jitter
with_jitter_bounds b u d tenths h =
    let m : ℕ = 8 * float64_steps + 4 * u in
    let below : 8 * float64_steps ≤ m = omega arith in
    let above : m ≤ 12 * float64_steps = omega arith in
    let low = mul-le-mul_left d below in
    let high = mul-le-mul_left d above in
    rw tenths (omega (arith, low, high), omega (arith, low, high))

-- The k-th delay of a fresh backoff is within a fifth, rounded down, of 2^k seconds or a minute,
-- whichever is less; so it may pass `Max` by a fifth.
pub next_delay :
    (u k : ℕ)
    → u < float64_steps
    → let (delay, b) = next u (at k) in
      (b ≡ at (suc k))
      × (4 * min (2 ^ k * second) (60 * second) < 5 * (delay + 1))
      × (5 * delay ≤ 6 * min (2 ^ k * second) (60 * second))
unfolding next new_backoff scheduled
next_delay u k h =
    let b : Backoff = record new_backoff { current = advance (at k) } in
    let c : advance (at k) ≡ min (2 ^ k * second) (60 * second) = advance-at k in
    let bounds = with_jitter_bounds b u (advance (at k)) refl h in
    (
      next-at u k,
      subst (λ (x : ℕ). 4 * x < 5 * (with_jitter b u (advance (at k)) + 1)) c bounds.0,
      subst (λ (x : ℕ). 5 * with_jitter b u (advance (at k)) ≤ 6 * x) c bounds.1,
    )

abbrev pub GoesOn : Pass → Type 0
GoesOn p =
    (p.cancelled_before ≡ false)
    × (p.cancelled_after ≡ false)
    × (p.cancelled_waiting ≡ false)
    × (p.draw < float64_steps)

-- No wait is longer than 72 seconds.
abbrev pub Short : ℕ → Type 0
Short w = w ≤ 72 * second

start_loop_from :
    (ps : List Pass) (k : ℕ) (s : StartState)
    → All GoesOn ps
    → s.backoff ≡ at k
    → All Short s.waits
    → let t = start_loop ps s in
      (t.backoff ≡ at (length ps + k))
      × (t.reconnect_count ≡ length ps + s.reconnect_count)
      × All Short t.waits
unfolding start_loop start_pass
start_loop_from [] k s go b w = (b ∙ ap at (omega arith), omega arith, w)
start_loop_from (p ∷ ps) k s ((g0, g1, g2, g3), go) b w =
    let (delay, b') = next p.draw s.backoff in
    let s' : StartState = record {
      backoff = b';
      reconnect_count = s.reconnect_count + 1;
      waits = delay ∷ s.waits;
    } in
    let d = next_delay p.draw k g3 in
    let b1 : b' ≡ at (suc k) = rw b d.0 in
    let w1 : Short delay = rw b (omega (arith, d.2)) in
    let rest = start_loop_from ps (suc k) s' go b1 (w1, w) in
    rw (g0, g1, g2) (rest.0 ∙ ap at (omega arith), rest.1 ∙ omega arith, rest.2)

-- Over any run of passes that are not cancelled, the backoff is where as many calls of `Next` leave
-- it, whether or not the passes completed a handshake: it is never reset.
pub start_loop-backoff :
    (ps : List Pass)
    → All GoesOn ps
    → let t = start_loop ps start_state in
      (t.backoff ≡ at (length ps)) × (t.reconnect_count ≡ length ps) × All Short t.waits
unfolding start_state scheduled new_backoff
start_loop-backoff ps go =
    let r = start_loop_from ps 0 start_state go refl tt in
    (r.0 ∙ ap at (omega arith), r.1 ∙ omega arith, r.2)
