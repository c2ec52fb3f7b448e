-- ===== src/Pipeline/Hooks.antt =====
-- `RunHook` and `HookSet` of apps/agent/internal/pipeline/hooks.go. Durations are nanoseconds.
pub mod Limits
pub mod Ledger
use backupy_agent.Prelude.{
  ℕ, zero, suc, ◌+◌, ◌-◌, ◌*◌, ◌^◌, Bool, true, false, ◌||◌, Option, none, some, List, [], ◌∷◌, ltb,
  leb, if◌then◌else◌,
}
use backupy_agent.Prelude.Bytes.{Bytes, is_empty}
use backupy_agent.Prelude.Int.{ℤ, pos, negsuc}
use backupy_agent.Pipeline.HookRing.{new_hook_ring_buffer, write_all, string}

abbrev pub second : ℕ
second = 1_000_000_000

abbrev pub minute : ℕ
minute = 60 * second

abbrev pub hooks_max_count : ℕ
hooks_max_count = 16

abbrev pub hook_output_buf_bytes : ℕ
hook_output_buf_bytes = 8 * 1024

abbrev pub default_hook_timeout : ℕ
default_hook_timeout = 5 * minute

abbrev pub hook_timeout_max : ℕ
hook_timeout_max = 15 * minute

abbrev pub hooks_total_budget : ℕ
hooks_total_budget = 30 * minute

-- How `cmd.Run()` ends. An exit error carries the code that `ExitStatus()` gives.
pub data Ended : Type 0 where
  exited_zero : Ended
  exit_error : ℤ → Ended
  not_run : Ended

-- `hookCtx.Err()` after the run.
pub data CtxErr : Type 0 where
  deadline_exceeded canceled : CtxErr

-- What a child process does: os/exec and the shell are outside the program.
pub record ChildRun : Type 0 where
  pub stdout : List Bytes
  pub stderr : List Bytes
  pub took : ℕ
  pub ended : Ended
  pub ctx_err : Option CtxErr

-- `exec.CommandContext(hookCtx, "/bin/sh", "-c", command).Run()`: the command, the extra
-- environment and the timeout of `hookCtx`.
abbrev pub Shell : Type 0
Shell = Bytes → List Bytes → ℕ → ChildRun

pub record HookResult : Type 0 where
  pub command : Bytes
  pub exit_code : ℤ
  pub stdout : Bytes
  pub stderr : Bytes
  pub duration : ℕ
  pub timed_out : Bool

pub data HookError : Type 0 where
  empty_command budget_exceeded cancelled failed : HookError
  timed_out_after : ℕ → HookError
  exited_non_zero : ℤ → HookError

abbrev pub empty_result : HookResult
empty_result = record {
  command = [];
  exit_code = pos 0;
  stdout = [];
  stderr = [];
  duration = 0;
  timed_out = false;
}

-- The two adjustments of `timeout` at the head of `RunHook`.
unfoldable pub limit_timeout : ℤ → ℕ
limit_timeout (negsuc n) = default_hook_timeout
limit_timeout (pos zero) = default_hook_timeout
limit_timeout (pos (suc n)) = if ltb hook_timeout_max (suc n) then hook_timeout_max else suc n

-- From `if runErr == nil` on. `r` has the fields that are set before.
unfoldable pub classify : ℕ → Ended → Option CtxErr → HookResult → HookResult × Option HookError
classify timeout exited_zero c r = (record r { exit_code = pos 0 }, none)
classify timeout e (some deadline_exceeded) r =
    (record r { exit_code = negsuc 0; timed_out = true }, some (timed_out_after timeout))
classify timeout e (some canceled) r = (record r { exit_code = negsuc 0 }, some cancelled)
classify timeout (exit_error code) none r =
    (record r { exit_code = code }, some (exited_non_zero code))
classify timeout not_run none r = (record r { exit_code = negsuc 0 }, some failed)

module _ (shell : Shell) where
  -- `RunHook` behind its guards, at the timeout that they leave.
  unfoldable pub exec_hook : Bytes → List Bytes → ℕ → HookResult × Option HookError
  exec_hook command env timeout =
      let run = shell command env timeout in
      classify timeout run.ended run.ctx_err (record {
        command = command;
        exit_code = pos 0;
        stdout = string (write_all run.stdout (new_hook_ring_buffer hook_output_buf_bytes));
        stderr = string (write_all run.stderr (new_hook_ring_buffer hook_output_buf_bytes));
        duration = run.took;
        timed_out = false;
      })

  unfoldable pub run_hook : Bytes → List Bytes → ℤ → HookResult × Option HookError
  run_hook command env timeout =
      if is_empty command
      then (empty_result, some empty_command)
      else exec_hook command env (limit_timeout timeout)

-- `HookSet`: `consumed`.
abbrev pub HookSet : Type 0
HookSet = ℕ

unfoldable pub new_hook_set : HookSet
new_hook_set = 0

-- "Cap the per-hook timeout at the remaining budget."
unfoldable pub cap_timeout : ℕ → ℤ → ℤ
cap_timeout remaining (negsuc n) = pos remaining
cap_timeout remaining (pos zero) = pos remaining
cap_timeout remaining (pos (suc n)) = if ltb remaining (suc n) then pos remaining else pos (suc n)

module _ (shell : Shell) where
  -- `(*HookSet).Run`
  unfoldable pub run_in_set :
      Bytes → List Bytes → ℤ → HookSet → (HookResult × Option HookError) × HookSet
  run_in_set command env timeout consumed =
      if leb hooks_total_budget consumed
      then ((record empty_result { command = command }, some budget_exceeded), consumed)
      else let remaining = hooks_total_budget - consumed in
        let (res, e) = run_hook shell command env (cap_timeout remaining timeout) in
        ((res, e), consumed + res.duration)
