-- ===== src/Drivers/Decimals.antt =====
-- Numbers printed in decimal digits, and read again.
use backupy_agent.Prelude.{
  ℕ, zero, suc, ◌+◌, ◌-◌, ◌*◌, ◌/◌, ◌%◌, ◌^◌, ◌<◌, ◌≤◌, ◌≡◌, refl, Bool-cases, inl, inr, [], ◌∷◌,
  ◌++◌, ltb, arith, All, All-append,
}
use backupy_agent.Prelude.Bytes.{Bytes}
use backupy_agent.Wss.Client.{decimal}
use backupy_agent.Discovery.Ports.Reading.{value_from}

abbrev pub IsDigit : ℕ → Type 0
IsDigit c = (48 ≤ c) × (c ≤ 57)

value_from-append :
    (v : ℕ) (cs : Bytes) (c : ℕ) → value_from v (cs ++ (c ∷ [])) ≡ value_from v cs * 10 + (c - 48)
unfolding value_from
value_from-append v [] c = refl
value_from-append v (d ∷ cs) c = value_from-append (v * 10 + (d - 48)) cs c

pub value_from-decimal :
    (fuel n : ℕ)
    → n < 10 ^ fuel
    → (value_from 0 (decimal fuel n) ≡ n) × All IsDigit (decimal fuel n)
unfolding decimal value_from
value_from-decimal zero n h = (omega arith, tt)
value_from-decimal (suc fuel) n h =
    let rest = decimal fuel (n / 10) in
    let less : n / 10 < 10 ^ fuel = omega arith in
    let (reads, digits) = value_from-decimal fuel (n / 10) less in
    let last = value_from-append 0 rest (48 + n % 10) in
    elim (Bool-cases (ltb n 10)) [
      | inl small ↦
          let below : n < 10 = ground arith in
          rw (decimal, small) (omega arith, ((omega arith, omega (arith, below)), tt))
      | inr large ↦
          rw (decimal, large)
            (
              omega (arith, last, reads),
              All-append IsDigit rest ((48 + n % 10) ∷ []) digits ((omega arith, omega arith), tt),
            )
    ]
