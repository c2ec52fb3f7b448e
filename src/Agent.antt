-- ===== src/Agent.antt =====
-- apps/agent/cmd/agent/run.go: the snapshot of the configuration that the runner looks into.
pub mod Reporting
pub mod Discovering
use backupy_agent.Prelude.{◌≡◌, refl, ◌∙◌, Option, none, some, List, [], ◌∷◌, if◌then◌else◌, arith}
use backupy_agent.Prelude.Bytes.{Bytes, ◌===◌}
use backupy_agent.Prelude.Maps.{find_key}
use backupy_agent.Pipeline.Request.{Target, JobSpec}

pub record Job : Type 0 where
  pub id : Bytes
  pub spec : JobSpec

pub record Config : Type 0 where
  pub targets : List Target
  pub jobs : List Job

-- A map as what was assigned, the newest first.
pub record ConfigSnapshot : Type 0 where
  pub targets : List (Bytes × Target)
  pub jobs : List (Bytes × JobSpec)

unfoldable pub new_config_snapshot : ConfigSnapshot
new_config_snapshot = record { targets = []; jobs = [] }

unfoldable pub add_targets : List Target → List (Bytes × Target) → List (Bytes × Target)
add_targets [] m = m
add_targets (t ∷ ts) m = add_targets ts ((t.id, t) ∷ m)

unfoldable pub add_jobs : List Job → List (Bytes × JobSpec) → List (Bytes × JobSpec)
add_jobs [] m = m
add_jobs (j ∷ js) m = add_jobs js ((j.id, j.spec) ∷ m)

-- `Set`: the maps are made anew.
unfoldable pub set : Config → ConfigSnapshot → ConfigSnapshot
set cfg s = record { targets = add_targets cfg.targets []; jobs = add_jobs cfg.jobs [] }

-- `Target` and `Job`
unfoldable pub target : Bytes → ConfigSnapshot → Option Target
target id s = find_key id s.targets

unfoldable pub job : Bytes → ConfigSnapshot → Option JobSpec
job id s = find_key id s.jobs

-- The last of the targets and of the jobs that has the id.
unfoldable pub last_target : Bytes → List Target → Option Target
last_target id [] = none
last_target id (t ∷ ts) = elim (last_target id ts) [
  | some u ↦ some u
  | none ↦ if t.id === id then some t else none
]

unfoldable pub last_job : Bytes → List Job → Option JobSpec
last_job id [] = none
last_job id (j ∷ js) = elim (last_job id js) [
  | some u ↦ some u
  | none ↦ if j.id === id then some j.spec else none
]

or_else : {A : Type 0} → Option A → Option A → Option A
or_else (some a) b = some a
or_else none b = b

find_key-add_targets :
    (id : Bytes) (ts : List Target) (m : List (Bytes × Target))
    → find_key id (add_targets ts m) ≡ or_else (last_target id ts) (find_key id m)
unfolding find_key add_targets last_target or_else
find_key-add_targets id [] m = refl
find_key-add_targets id (t ∷ ts) m =
    let ih = find_key-add_targets id ts ((t.id, t) ∷ m) in ground (arith, ih)

find_key-add_jobs :
    (id : Bytes) (js : List Job) (m : List (Bytes × JobSpec))
    → find_key id (add_jobs js m) ≡ or_else (last_job id js) (find_key id m)
unfolding find_key add_jobs last_job or_else
find_key-add_jobs id [] m = refl
find_key-add_jobs id (j ∷ js) m =
    let ih = find_key-add_jobs id js ((j.id, j.spec) ∷ m) in ground (arith, ih)

or_else-none : {A : Type 0} (a : Option A) → or_else a none ≡ a
unfolding or_else
or_else-none none = refl
or_else-none (some a) = refl

-- After `Set` a lookup gives the last target and the last job of the new configuration with the id,
-- whatever the snapshot held before: nothing of an older configuration is found.
pub set_replaces :
    (cfg : Config) (s : ConfigSnapshot) (id : Bytes)
    → (target id (set cfg s) ≡ last_target id cfg.targets)
      × (job id (set cfg s) ≡ last_job id cfg.jobs)
unfolding set target job find_key
set_replaces cfg s id = (
  find_key-add_targets id cfg.targets [] ∙ or_else-none (last_target id cfg.targets),
  find_key-add_jobs id cfg.jobs [] ∙ or_else-none (last_job id cfg.jobs),
)
