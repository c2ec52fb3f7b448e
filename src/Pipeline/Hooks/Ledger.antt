-- ===== src/Pipeline/Hooks/Ledger.antt =====
-- What the hooks of a run take by the clock, next to what the `HookSet` of hooks.go has counted.
use backupy_agent.Prelude.{ℕ, ◌+◌, ◌-◌, ◌≡◌, refl, List, [], ◌∷◌, ◌++◌, leb, if◌then◌else◌, arith}
use backupy_agent.Prelude.Bytes.{Bytes, is_empty}
use backupy_agent.Prelude.Int.{pos}
use backupy_agent.Pipeline.Hooks.{
  hooks_total_budget, Shell, HookSet, limit_timeout, cap_timeout, run_hook, run_in_set,
}
use backupy_agent.Pipeline.Hooks.Limits.{exec_hook_keeps}

-- How long the shell works on a command, where so much of the budget counts as used.
unfoldable pub took_at : Shell → Bytes → HookSet → ℕ
took_at shell c used =
    if leb hooks_total_budget used
    then 0
    else (if is_empty c
        then 0
        else (shell c [] (limit_timeout (cap_timeout (hooks_total_budget - used) (pos 0)))).took)

-- How long it works on commands that are run one after the other, and what counts as used behind them.
unfoldable pub spent : Shell → List Bytes → HookSet → ℕ
unfolding took_at
spent shell [] used = 0
spent shell (c ∷ cs) used =
    took_at shell c used + spent shell cs (run_in_set shell c [] (pos 0) used).1

unfoldable pub used_after : Shell → List Bytes → HookSet → HookSet
used_after shell [] used = used
used_after shell (c ∷ cs) used = used_after shell cs (run_in_set shell c [] (pos 0) used).1

module _ (shell : Shell) where
  -- A hook is charged just what the shell took.
  run_in_set-took_at :
      (c : Bytes) (used : HookSet)
      → (run_in_set shell c [] (pos 0) used).1 ≡ used + took_at shell c used
  unfolding run_in_set run_hook took_at
  run_in_set-took_at c used =
      let t = limit_timeout (cap_timeout (hooks_total_budget - used) (pos 0)) in
      ground (arith, exec_hook_keeps shell c [] t)

  pub used_after-spent :
      (cs : List Bytes) (used : HookSet) → used_after shell cs used ≡ used + spent shell cs used
  unfolding used_after spent
  used_after-spent [] used = omega arith
  used_after-spent (c ∷ cs) used =
      omega (
        arith,
        run_in_set-took_at c used,
        used_after-spent cs (run_in_set shell c [] (pos 0) used).1,
      )

  pub used_after-append :
      (cs : List Bytes) (c : Bytes) (used : HookSet)
      → used_after shell (cs ++ (c ∷ [])) used
        ≡ (run_in_set shell c [] (pos 0) (used_after shell cs used)).1
  unfolding used_after
  used_after-append [] c used = refl
  used_after-append (d ∷ cs) c used = used_after-append cs c (run_in_set shell d [] (pos 0) used).1
