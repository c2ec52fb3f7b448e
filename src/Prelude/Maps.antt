-- ===== src/Prelude/Maps.antt =====
-- Go's maps from strings, as the entries that were assigned.
use mathlib.Core.Path.{◌≡◌, refl}
use mathlib.Core.Option.{Option, none, some}
use mathlib.Core.List.{List, [], ◌∷◌}
use native.Mathlib.Omega.{arith}
use backupy_agent.Prelude.Tests.{if◌then◌else◌}
use backupy_agent.Prelude.Bytes.{Bytes, ◌===◌, ===_iff}

unfoldable pub find_key : {A : Type 0} → Bytes → List (Bytes × A) → Option A
find_key id [] = none
find_key id ((k, v) ∷ es) = if k === id then some v else find_key id es

-- `m[k] = v`
unfoldable pub assign : {A : Type 0} → Bytes → A → List (Bytes × A) → List (Bytes × A)
assign id v [] = (id, v) ∷ []
assign id v ((k, w) ∷ es) = if k === id then (k, v) ∷ es else (k, w) ∷ assign id v es

-- A look-up after an assignment.
pub find_key-assign :
    {A : Type 0} (id k : Bytes) (v : A) (m : List (Bytes × A))
    → find_key id (assign k v m) ≡ (if k === id then some v else find_key id m)
unfolding find_key assign
find_key-assign id k v [] = refl
find_key-assign id k v ((j, w) ∷ es) =
    ground (arith, ===_iff j k, ===_iff j id, ===_iff k id, find_key-assign id k v es)
