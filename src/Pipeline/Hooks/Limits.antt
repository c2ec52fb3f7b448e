-- ===== src/Pipeline/Hooks/Limits.antt =====
-- The limits on hooks: output, time for each, time for all.
use backupy_agent.Prelude.{
  ℕ, zero, suc, ◌+◌, ◌-◌, ◌≤◌, ◌<◌, ◌≡◌, ◌↔◌, refl, ◌∙◌, false, Bool-cases, inl, inr, Option, none,
  some, List, [], min, leb, arith,
}
use backupy_agent.Prelude.Bytes.{Bytes, is_empty}
use backupy_agent.Prelude.Int.{ℤ, pos}
use backupy_agent.Pipeline.Tail.{last_bytes, concat}
use backupy_agent.Pipeline.HookRing.{new_hook_ring_buffer, write_all, string}
use backupy_agent.Pipeline.HookRing.Keeping.{string-write_all}
use backupy_agent.Pipeline.Hooks.{
  hook_timeout_max, hooks_total_budget, hook_output_buf_bytes, Ended, exited_zero, exit_error,
  not_run, CtxErr, deadline_exceeded, canceled, Shell, HookResult, HookSet, limit_timeout, classify,
  exec_hook, run_hook, cap_timeout, run_in_set,
}

classify_keeps :
    (t : ℕ) (e : Ended) (c : Option CtxErr) (r : HookResult)
    → ((classify t e c r).0.duration ≡ r.duration)
      × ((classify t e c r).0.stdout ≡ r.stdout)
      × ((classify t e c r).0.stderr ≡ r.stderr)
unfolding classify
classify_keeps t exited_zero c r = (refl, refl, refl)
classify_keeps t (exit_error x) none r = (refl, refl, refl)
classify_keeps t (exit_error x) (some deadline_exceeded) r = (refl, refl, refl)
classify_keeps t (exit_error x) (some canceled) r = (refl, refl, refl)
classify_keeps t not_run none r = (refl, refl, refl)
classify_keeps t not_run (some deadline_exceeded) r = (refl, refl, refl)
classify_keeps t not_run (some canceled) r = (refl, refl, refl)

classify_error :
    (t : ℕ) (e : Ended) (c : Option CtxErr) (r : HookResult)
    → ((classify t e c r).1 ≡ none) ↔ (e ≡ exited_zero)
unfolding classify
classify_error t exited_zero c r = ground arith
classify_error t (exit_error x) none r = ground arith
classify_error t (exit_error x) (some deadline_exceeded) r = ground arith
classify_error t (exit_error x) (some canceled) r = ground arith
classify_error t not_run none r = ground arith
classify_error t not_run (some deadline_exceeded) r = ground arith
classify_error t not_run (some canceled) r = ground arith

limit_some : (n : ℕ) → 0 < n → limit_timeout (pos n) ≡ min n hook_timeout_max
unfolding limit_timeout
limit_some zero h = absurd (omega arith)
limit_some (suc n) h = ground arith

module _ (shell : Shell) where
  pub exec_hook_keeps :
      (command : Bytes) (env : List Bytes) (t : ℕ)
      → let run = shell command env t in
        let res = (exec_hook shell command env t).0 in
        (res.duration ≡ run.took)
        × (res.stdout ≡ string (write_all run.stdout (new_hook_ring_buffer hook_output_buf_bytes)))
        × (res.stderr ≡ string (write_all run.stderr (new_hook_ring_buffer hook_output_buf_bytes)))
  unfolding exec_hook
  exec_hook_keeps command env t =
      let run = shell command env t in
      classify_keeps t run.ended run.ctx_err (record {
        command = command;
        exit_code = pos 0;
        stdout = string (write_all run.stdout (new_hook_ring_buffer hook_output_buf_bytes));
        stderr = string (write_all run.stderr (new_hook_ring_buffer hook_output_buf_bytes));
        duration = run.took;
        timed_out = false;
      })

  -- A hook that is run reports the last 8 KiB of each stream that the child wrote, in order.
  pub run_hook_output :
      (command : Bytes) (env : List Bytes) (timeout : ℤ)
      → is_empty command ≡ false
      → let run = shell command env (limit_timeout timeout) in
        let res = (run_hook shell command env timeout).0 in
        (res.stdout ≡ last_bytes hook_output_buf_bytes (concat run.stdout))
        × (res.stderr ≡ last_bytes hook_output_buf_bytes (concat run.stderr))
  unfolding run_hook exec_hook
  run_hook_output command env timeout some_command =
      let run = shell command env (limit_timeout timeout) in
      let keeps = string-write_all hook_output_buf_bytes in
      let k = exec_hook_keeps command env (limit_timeout timeout) in
      rw some_command
        (k.1 ∙ (keeps run.stdout (omega arith)).1, k.2 ∙ (keeps run.stderr (omega arith)).1)

  -- A command with text is an error exactly when the shell does not end with exit code 0.
  pub run_hook_error :
      (command : Bytes) (env : List Bytes) (timeout : ℤ)
      → is_empty command ≡ false
      → ((run_hook shell command env timeout).1 ≡ none)
        ↔ ((shell command env (limit_timeout timeout)).ended ≡ exited_zero)
  unfolding run_hook exec_hook
  run_hook_error command env timeout some_command =
      let run = shell command env (limit_timeout timeout) in
      rw some_command (classify_error (limit_timeout timeout) run.ended run.ctx_err _)

  -- The timeout of a hook of a backup run.
  pub hook_timeout :
      (consumed : ℕ)
      → consumed < hooks_total_budget
      → limit_timeout (cap_timeout (hooks_total_budget - consumed) (pos 0))
        ≡ min (hooks_total_budget - consumed) hook_timeout_max
  unfolding limit_timeout cap_timeout
  hook_timeout consumed h = limit_some (hooks_total_budget - consumed) (omega arith)

  run_hook_took :
      (grace : ℕ)
      → ((c : Bytes) (env : List Bytes) (t : ℕ) → (shell c env t).took ≤ t + grace)
      → (command : Bytes) (timeout : ℤ)
      → (run_hook shell command [] timeout).0.duration ≤ limit_timeout timeout + grace
  unfolding run_hook
  run_hook_took grace in_time command timeout = ground (
    arith,
    exec_hook_keeps command [] (limit_timeout timeout),
    in_time command [] (limit_timeout timeout),
  )

  -- A hook of a backup run leaves the time used within the budget and one overrun.
  pub run_in_set_within :
      (grace : ℕ)
      → ((c : Bytes) (env : List Bytes) (t : ℕ) → (shell c env t).took ≤ t + grace)
      → (command : Bytes) (consumed : HookSet) → consumed ≤ hooks_total_budget + grace
      → (run_in_set shell command [] (pos 0) consumed).1 ≤ hooks_total_budget + grace
  unfolding run_in_set
  run_in_set_within grace in_time command consumed h =
      let capped = cap_timeout (hooks_total_budget - consumed) (pos 0) in
      let took = run_hook_took grace in_time command capped in
      elim (Bool-cases (leb hooks_total_budget consumed)) [
        | inl spent ↦ rw spent h
        | inr left ↦
            let below : consumed < hooks_total_budget = ground arith in
            let short = hook_timeout consumed below in rw left (omega arith)
      ]
