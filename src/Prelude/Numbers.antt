-- ===== src/Prelude/Numbers.antt =====
-- The functions of Go's package strconv that read numbers.
use Prim.Native.Nat.{ℕ, zero, suc, ◌+◌, ◌-◌, ◌*◌, ◌^◌}
use mathlib.Core.Bool.{◌&&◌}
use mathlib.Core.Option.{Option, none, some}
use mathlib.Core.List.{[], ◌∷◌}
use backupy_agent.Prelude.Tests.{leb, ◌==◌, if◌then◌else◌}
use backupy_agent.Prelude.Bytes.{Bytes}
use backupy_agent.Prelude.Int.{ℤ, pos, negsuc}

-- The number that decimal digits stand for, behind those that stand for `v`.
unfoldable pub digits_from : ℕ → Bytes → Option ℕ
digits_from v [] = some v
digits_from v (c ∷ cs) =
    let rest = digits_from (v * 10 + (c - 48)) cs in if leb 48 c && leb c 57 then rest else none

-- At least one digit, and at most the limit.
unfoldable pub digits_up_to : ℕ → Bytes → Option ℕ
unfolding digits_from
digits_up_to limit [] = none
digits_up_to limit (c ∷ cs) = elim (digits_from 0 (c ∷ cs)) [
  | none ↦ none
  | some n ↦ if leb n limit then some n else none
]

abbrev pub negated : ℕ → ℤ
negated zero = pos 0
negated (suc n) = negsuc n

abbrev pub positive : Option ℕ → Option ℤ
positive none = none
positive (some n) = some (pos n)

abbrev pub negative : Option ℕ → Option ℤ
negative none = none
negative (some n) = some (negated n)

-- `strconv.ParseInt(s, 10, 64)`, and `strconv.Atoi` where an int has 64 bits.
unfoldable pub parse_int : Bytes → Option ℤ
unfolding digits_up_to
parse_int [] = none
parse_int (c ∷ cs) =
    if c == 45
    then negative (digits_up_to (2 ^ 63) cs)
    else (if c == 43
        then positive (digits_up_to (2 ^ 63 - 1) cs)
        else positive (digits_up_to (2 ^ 63 - 1) (c ∷ cs)))
