-- ===== src/Tests/Hooks.antt =====
-- Hooks and ring buffers at small inputs.
use backupy_agent.Prelude.{◌≡◌, refl, none, [], ◌∷◌, arith}
use backupy_agent.Prelude.Bytes.{codes}
use backupy_agent.Prelude.Int.{pos}
use backupy_agent.Pipeline.Hooks.{
  Shell, exited_zero, hook_output_buf_bytes, limit_timeout, run_hook,
}
use backupy_agent.Pipeline.Hooks.Limits.{run_hook_output}
use backupy_agent.Pipeline.HookRing.{new_hook_ring_buffer, string, write_all}
use backupy_agent.Pipeline.HookRing.Overwriting.{IsRing}
use backupy_agent.Pipeline.HookRing.Keeping.{string-write_all}
use backupy_agent.Pipeline.Tail.{RingBuffer, last_bytes, concat}

-- A shell whose commands write twice and take all of their time.
abbrev a_shell : Shell
a_shell = λ command env t. record {
  stdout = codes "out" ∷ codes "put" ∷ [];
  stderr = [];
  took = t;
  ended = exited_zero;
  ctx_err = none;
}

run_hook_output_example :
    let run = a_shell (codes "ls") [] (limit_timeout (pos 0)) in
    let res = (run_hook a_shell (codes "ls") [] (pos 0)).0 in
    (res.stdout ≡ last_bytes hook_output_buf_bytes (concat run.stdout))
    × (res.stderr ≡ last_bytes hook_output_buf_bytes (concat run.stderr))
run_hook_output_example = run_hook_output a_shell (codes "ls") [] (pos 0) refl

string-write_all_example :
    let r = write_all (codes "abc" ∷ codes "defg" ∷ []) (new_hook_ring_buffer 4) in
    IsRing r × (string r ≡ last_bytes 4 (concat (codes "abc" ∷ codes "defg" ∷ [])))
string-write_all_example = string-write_all 4 (codes "abc" ∷ codes "defg" ∷ []) (omega arith)

abbrev a_tail : RingBuffer
a_tail = record { buf = codes "x"; cap = 3 }
