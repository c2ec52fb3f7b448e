-- ===== src/Drivers/Redis/Waiting.antt =====
-- The wait for a snapshot in apps/agent/internal/pipeline/redis.go: what it has seen, and that it ends.
use backupy_agent.Prelude.{
  ℕ, zero, suc, ◌+◌, ◌*◌, ◌≤◌, ◌≡◌, ◌≢◌, sym, ◌∙◌, ap, subst, true, false, Bool-cases, Option-cases,
  inl, inr, none, some, List, [], ◌∷◌, ◌++◌, length, ltb, Result, ok, err, Result-cases, arith,
  append_assoc, length-append,
}
use backupy_agent.Prelude.Bytes.{Bytes}
use backupy_agent.Prelude.Int.{ℤ, ltz}
use backupy_agent.Prelude.Numbers.{parse_int}
use backupy_agent.Prelude.Strings.{trim_space}
use backupy_agent.Io.{Fault}
use backupy_agent.Drivers.Command.{
  Command, CmdRunner, DriverError, out_of_fuel, output, cancelled, save_timeout,
}
use backupy_agent.Drivers.Redis.{
  Machine, poll_interval, poll_timeout, read_timestamp, last_save_command, last_save, wait_loop,
  poll_rounds, wait_for_save,
}

-- The k-th command, LASTSAVE, was answered by this time.
pub record Saved (r : CmdRunner) (base : List Bytes) (k : ℕ) (at : ℤ) : Type 0 where
  pub reply : Bytes
  pub answered : r.output k (last_save_command base) ≡ ok reply
  pub parsed : parse_int (trim_space reply) ≡ some at

module _ (r : CmdRunner) (base : List Bytes) where
  pub last_save_trace :
      (ran : List Command) → (last_save r base ran).1 ≡ ran ++ (last_save_command base ∷ [])
  unfolding last_save read_timestamp output
  last_save_trace ran = elim (Result-cases (r.output (length ran) (last_save_command base))) [
    | inr (e, bad) ↦ ground arith
    | inl (out, good) ↦ elim (Option-cases (parse_int (trim_space out))) [
      | inl bad ↦ ground arith
      | inr (n, fine) ↦ ground arith
    ]
  ]

  pub last_save-Saved :
      (ran : List Command) {at : ℤ}
      → (last_save r base ran).0 ≡ ok at
      → Saved r base (length ran) at
  unfolding last_save read_timestamp output
  last_save-Saved ran h = elim (Result-cases (r.output (length ran) (last_save_command base))) [
    | inr (e, bad) ↦ absurd (ground arith)
    | inl (out, good) ↦ elim (Option-cases (parse_int (trim_space out))) [
      | inl bad ↦ absurd (ground arith)
      | inr (n, fine) ↦ record {
        reply = out;
        answered = good;
        parsed = fine ∙ ap some (ground arith);
      }
    ]
  ]

  last_save-ne-out_of_fuel : (ran : List Command) → (last_save r base ran).0 ≢ err out_of_fuel
  unfolding last_save read_timestamp output
  last_save-ne-out_of_fuel ran h =
      elim (Result-cases (r.output (length ran) (last_save_command base))) [
        | inr (e, bad) ↦ absurd (ground arith)
        | inl (out, good) ↦ elim (Option-cases (parse_int (trim_space out))) [
          | inl bad ↦ absurd (ground arith)
          | inr (n, fine) ↦ absurd (ground arith)
        ]
      ]

-- So many LASTSAVE commands.
unfoldable pub asks : List Bytes → ℕ → List Command
asks base zero = []
asks base (suc n) = last_save_command base ∷ asks base n

-- The clock moves on by the pause in each round.
abbrev pub IsSteady : (ℕ → ℕ) → Type 0
IsSteady now = (k : ℕ) → now 0 + k * poll_interval ≤ now (suc k)

module _ (w : Machine) (base : List Bytes) (prev : ℤ) where
  -- One round that has got its answer.
  module _ (fuel k : ℕ) (ran : List Command) (live : w.ctx k ≡ none) where
    abbrev asked : Result DriverError ℤ × List Command
    asked = last_save w.runner base ran

    loop_unread :
        (e : DriverError)
        → asked.0 ≡ err e
        → wait_loop w base prev (suc fuel) k ran ≡ (err e, asked.1)
    unfolding wait_loop
    loop_unread e bad = ground arith

    loop_new :
        (cur : ℤ)
        → asked.0 ≡ ok cur
        → ltz prev cur ≡ true
        → wait_loop w base prev (suc fuel) k ran ≡ (ok tt, asked.1)
    unfolding wait_loop
    loop_new cur good newer = ground arith

    loop_late :
        (cur : ℤ)
        → asked.0 ≡ ok cur
        → ltz prev cur ≡ false
        → ltb (w.now 0 + poll_timeout) (w.now (suc k)) ≡ true
        → wait_loop w base prev (suc fuel) k ran ≡ (err save_timeout, asked.1)
    unfolding wait_loop
    loop_late cur good older late = ground arith

    loop_stopped :
        (cur : ℤ) (e : Fault)
        → asked.0 ≡ ok cur
        → ltz prev cur ≡ false
        → ltb (w.now 0 + poll_timeout) (w.now (suc k)) ≡ false
        → w.select k ≡ some e
        → wait_loop w base prev (suc fuel) k ran ≡ (err (cancelled e), asked.1)
    unfolding wait_loop
    loop_stopped cur e good older early stops = ground arith

    loop_again :
        (cur : ℤ)
        → asked.0 ≡ ok cur
        → ltz prev cur ≡ false
        → ltb (w.now 0 + poll_timeout) (w.now (suc k)) ≡ false
        → w.select k ≡ none
        → wait_loop w base prev (suc fuel) k ran ≡ wait_loop w base prev fuel (suc k) asked.1
    unfolding wait_loop
    loop_again cur good older early goes = ground arith

  loop_dead :
      (fuel k : ℕ) (ran : List Command) (e : Fault)
      → w.ctx k ≡ some e
      → wait_loop w base prev (suc fuel) k ran ≡ (err (cancelled e), ran)
  unfolding wait_loop
  loop_dead fuel k ran e dead = ground arith

  -- What a wait that succeeds has seen: LASTSAVE commands only, the last of them answered by a
  -- later time.
  pub record Seen (ran after : List Command) : Type 0 where
    pub rounds : ℕ
    pub at : ℤ
    pub trace : after ≡ ran ++ asks base (suc rounds)
    pub saved : Saved w.runner base (length ran + rounds) at
    pub newer : ltz prev at ≡ true

  later-Seen :
      (ran after : List Command)
      → Seen (ran ++ (last_save_command base ∷ [])) after
      → Seen ran after
  unfolding asks
  later-Seen ran after s = record {
    rounds = suc s.rounds;
    at = s.at;
    trace = s.trace ∙ append_assoc ran (last_save_command base ∷ []) (asks base (suc s.rounds));
    saved =
        subst (λ (n : ℕ). Saved w.runner base n s.at)
          (omega (arith, length-append ran (last_save_command base ∷ []))) s.saved;
    newer = s.newer;
  }

  pub wait_loop-Seen :
      (fuel k : ℕ) (ran : List Command)
      → (wait_loop w base prev fuel k ran).0 ≡ ok tt
      → Seen ran (wait_loop w base prev fuel k ran).1
  unfolding asks
  wait_loop-Seen zero k ran h = absurd (unfold wait_loop in cc)
  wait_loop-Seen (suc fuel) k ran h =
      let (res, ran') = last_save w.runner base ran in
      let went = last_save_trace w.runner base ran in
      elim (Option-cases (w.ctx k)) [
        | inr (e, dead) ↦ absurd (cc (loop_dead fuel k ran e dead, h))
        | inl live ↦ elim (Result-cases res) [
          | inr (e, bad) ↦ absurd (cc (loop_unread fuel k ran live e bad, h))
          | inl (cur, good) ↦ elim (Bool-cases (ltz prev cur)) [
            | inl newer ↦ rw (loop_new fuel k ran live cur good newer) (record {
              rounds = 0;
              at = cur;
              trace = went;
              saved =
                  subst (λ (n : ℕ). Saved w.runner base n cur) (omega arith)
                    (last_save-Saved w.runner base ran good);
              newer = newer;
            })
            | inr older ↦ elim (Bool-cases (ltb (w.now 0 + poll_timeout) (w.now (suc k)))) [
              | inl late ↦ absurd (cc (loop_late fuel k ran live cur good older late, h))
              | inr early ↦ elim (Option-cases (w.select k)) [
                | inr (e, stops) ↦
                    absurd (cc (loop_stopped fuel k ran live cur e good older early stops, h))
                | inl goes ↦
                    let again = loop_again fuel k ran live cur good older early goes in
                    let done : (wait_loop w base prev fuel (suc k) ran').0 ≡ ok tt =
                      sym (ap (λ (p : Result DriverError (Unit {0}) × List Command). p.0) again)
                      ∙ h in
                    let seen = wait_loop-Seen fuel (suc k) ran' done in
                    rw again (
                      later-Seen ran (wait_loop w base prev fuel (suc k) ran').1 (
                        subst
                          (λ (l : List Command). Seen l (wait_loop w base prev fuel (suc k) ran').1)
                          went seen))
              ]
            ]
          ]
        ]
      ]

  wait_loop_ends :
      (steady : IsSteady w.now) (fuel k : ℕ) (ran : List Command)
      → k ≤ 1201
      → 1202 ≤ k + fuel
      → (wait_loop w base prev fuel k ran).0 ≢ err out_of_fuel
  wait_loop_ends steady zero k ran low high h = absurd (omega arith)
  wait_loop_ends steady (suc fuel) k ran low high h =
      let (res, ran') = last_save w.runner base ran in
      elim (Option-cases (w.ctx k)) [
        | inr (e, dead) ↦ absurd (cc (loop_dead fuel k ran e dead, h))
        | inl live ↦ elim (Result-cases res) [
          | inr (e, bad) ↦
              let unread = loop_unread fuel k ran live e bad in
              let same : e ≡ out_of_fuel = ground arith in
              absurd (last_save-ne-out_of_fuel w.runner base ran (bad ∙ ap err same))
          | inl (cur, good) ↦ elim (Bool-cases (ltz prev cur)) [
            | inl newer ↦ absurd (cc (loop_new fuel k ran live cur good newer, h))
            | inr older ↦ elim (Bool-cases (ltb (w.now 0 + poll_timeout) (w.now (suc k)))) [
              | inl late ↦ absurd (cc (loop_late fuel k ran live cur good older late, h))
              | inr early ↦ elim (Option-cases (w.select k)) [
                | inr (e, stops) ↦
                    absurd (cc (loop_stopped fuel k ran live cur e good older early stops, h))
                | inl goes ↦
                    let again = loop_again fuel k ran live cur good older early goes in
                    let more : (wait_loop w base prev fuel (suc k) ran').0 ≡ err out_of_fuel =
                      sym (ap (λ (p : Result DriverError (Unit {0}) × List Command). p.0) again)
                      ∙ h in
                    let pause = steady k in
                    let not_late : w.now (suc k) ≤ w.now 0 + poll_timeout = ground arith in
                    wait_loop_ends steady fuel (suc k) ran' (omega arith) (omega arith) more
              ]
            ]
          ]
        ]
      ]

  -- With a clock that moves on by the pause in each round, `waitForSave` ends: the rounds that the
  -- model gives it are enough, on every server and however its context ends.
  pub wait_for_save_ends :
      (steady : IsSteady w.now) (ran : List Command)
      → (wait_for_save w base prev ran).0 ≢ err out_of_fuel
  unfolding wait_for_save
  wait_for_save_ends steady ran =
      wait_loop_ends steady poll_rounds 0 ran (omega arith) (omega arith)
