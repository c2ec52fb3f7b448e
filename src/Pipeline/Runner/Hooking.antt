-- ===== src/Pipeline/Runner/Hooking.antt =====
-- The hooks in `Run`: a failing pre-hook, and the time that all take.
use backupy_agent.Prelude.{
  ◌+◌, ◌≤◌, ◌<◌, length, false, ℕ, suc, ◌≡◌, refl, ◌∙◌, ap, none, arith, Option, some, List, [],
  ◌∷◌, ◌++◌, leb, err, append_assoc,
}
use backupy_agent.Prelude.Bytes.{Bytes}
use backupy_agent.Prelude.Int.{pos}
use backupy_agent.Cipher.{Aead}
use backupy_agent.Pipeline.Hooks.{new_hook_set, run_in_set, hooks_max_count, HookSet, HookError}
use backupy_agent.Pipeline.Hooks.Ledger.{used_after}
use backupy_agent.Pipeline.Hooks.{Shell}
use backupy_agent.Pipeline.Request.{
  Target, JobSpec, UploadCreds, RunBackup, Driver, RunError, pre_hook, World, Trace,
}
use backupy_agent.Pipeline.Runner.{run_pre_hooks, run_hooked}
use backupy_agent.Pipeline.Runner.Runs.{pre_hooks_puts}

-- Hooks that all succeed, one after the other, from one count of used time to another.
unfoldable pub Pass : Shell → List Bytes → HookSet → HookSet → Type 0
Pass shell [] used used' = used ≡ used'
Pass shell (c ∷ cs) used used' =
    ((run_in_set shell c [] (pos 0) used).0.1 ≡ none)
    × Pass shell cs (run_in_set shell c [] (pos 0) used).1 used'

module _ (w : World) where
  -- A list of hooks in which one fails behind others that pass: none but these are started.
  pre_hooks_stop :
      (i : ℕ) (cs : List Bytes) (c : Bytes) (rest : List Bytes) (tr : Trace) (used : HookSet)
      {x : HookError}
      → i + length cs < hooks_max_count
      → Pass w.shell cs tr.consumed used
      → (run_in_set w.shell c [] (pos 0) used).0.1 ≡ some x
      → let (e, tr') = run_pre_hooks w i (cs ++ (c ∷ rest)) tr in
        (e ≡ some (pre_hook (i + length cs) x)) × (tr'.hooks ≡ tr.hooks ++ (cs ++ (c ∷ [])))
  unfolding run_pre_hooks Pass
  pre_hooks_stop i [] c rest tr used {x} few same bad =
      let room : leb hooks_max_count i ≡ false = ground arith in
      let here : (run_in_set w.shell c [] (pos 0) tr.consumed).0.1 ≡ some x =
        ap (λ u. (run_in_set w.shell c [] (pos 0) u).0.1) same ∙ bad in
      let at : i + 0 ≡ i = omega arith in rw (run_pre_hooks, room, here, at) (refl, refl)
  pre_hooks_stop i (d ∷ cs) c rest tr used {x} few (fine, pass) bad =
      let now = (run_in_set w.shell d [] (pos 0) tr.consumed).1 in
      let tr' : Trace = record tr { hooks = tr.hooks ++ (d ∷ []); consumed = now } in
      let room : leb hooks_max_count i ≡ false = ground arith in
      let next : suc i + length cs < hooks_max_count = omega arith in
      let (failed, started) = pre_hooks_stop (suc i) cs c rest tr' used next pass bad in
      let at : suc i + length cs ≡ i + suc (length cs) = omega arith in
      rw (run_pre_hooks, room, fine)
        (
          failed ∙ ap (λ n. some (pre_hook n x)) at,
          started ∙ append_assoc tr.hooks (d ∷ []) (cs ++ (c ∷ [])),
        )

  -- When a pre-hook fails, one of the first 16 and behind hooks that pass, the run fails with that hook's
  -- index and error, makes no PUT, and has started just the hooks before it and it: not the pre-hooks
  -- behind it, and no post-hook.
  pub run_hooked_stops :
      (schedule : List ℕ) (req : RunBackup) (creds : UploadCreds) (j : JobSpec) (t : Target)
      (d : Driver) (aead : Option Aead) (cs : List Bytes) (c : Bytes) (rest : List Bytes)
      (used : HookSet) {x : HookError}
      → j.pre_hooks ≡ cs ++ (c ∷ rest)
      → length cs < hooks_max_count
      → Pass w.shell cs 0 used
      → (run_in_set w.shell c [] (pos 0) used).0.1 ≡ some x
      → let (r, tr) = run_hooked w schedule req creds (some j) t d aead in
        (r ≡ err (pre_hook (length cs) x)) × (tr.puts ≡ []) × (tr.hooks ≡ cs ++ (c ∷ []))
  unfolding run_hooked new_hook_set
  run_hooked_stops schedule req creds j t d aead cs c rest used {x} split few pass bad =
      let nothing : Trace = record { puts = []; hooks = []; consumed = 0 } in
      let (failed, started) = pre_hooks_stop 0 cs c rest nothing used (omega arith) pass bad in
      let at : 0 + length cs ≡ length cs = omega arith in
      let goes = ap (λ l. run_pre_hooks w 0 l nothing) split in
      let stops =
        ap (λ (p : Option RunError × Trace). p.0) goes
        ∙ failed
        ∙ ap (λ n. some (pre_hook n x)) at in
      rw (run_hooked, stops)
        (
          refl,
          pre_hooks_puts w 0 j.pre_hooks nothing,
          ap (λ (p : Option RunError × Trace). p.1.hooks) goes ∙ started,
        )

-- Every command ends at most `grace` nanoseconds after its timeout.
abbrev pub InTime : Shell → ℕ → Type 0
InTime shell grace = (c : Bytes) (env : List Bytes) (t : ℕ) → (shell c env t).took ≤ t + grace

module _ (w : World) where
  -- What counts as used is what the hooks that were started leave of it.
  abbrev IsCharged : Trace → Type 0
  IsCharged tr = tr.consumed ≡ used_after w.shell tr.hooks 0
