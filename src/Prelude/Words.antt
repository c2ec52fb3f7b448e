-- ===== src/Prelude/Words.antt =====
-- encoding/binary in big-endian order, for 32 and 64 bits.
use Prim.Native.Nat.{ℕ, ◌+◌, ◌*◌, ◌/◌, ◌%◌, ◌^◌, ◌<◌, ◌≤◌}
use mathlib.Core.Path.{◌≡◌, refl}
use mathlib.Core.List.{[], ◌∷◌, ◌++◌}
use native.Mathlib.Omega.{arith}
use backupy_agent.Prelude.Lists.{length, take, All}
use backupy_agent.Prelude.Bytes.{Bytes, IsByte}

-- `binary.BigEndian.PutUint32`
unfoldable pub put_uint32 : ℕ → Bytes
put_uint32 n = n / 2 ^ 24 % 256 ∷ n / 2 ^ 16 % 256 ∷ n / 2 ^ 8 % 256 ∷ n % 256 ∷ []

-- `binary.BigEndian.Uint32`, of the four bytes that its callers hand it.
unfoldable pub uint32 : Bytes → ℕ
uint32 (a ∷ b ∷ c ∷ d ∷ []) = a * 2 ^ 24 + b * 2 ^ 16 + c * 2 ^ 8 + d
uint32 _ = 0

-- `binary.BigEndian.PutUint64`
unfoldable pub put_uint64 : ℕ → Bytes
unfolding put_uint32
put_uint64 n = put_uint32 (n / 2 ^ 32) ++ put_uint32 n

-- `binary.BigEndian.Uint64`, of eight bytes.
unfoldable pub uint64 : Bytes → ℕ
uint64 (a ∷ b ∷ c ∷ d ∷ e ∷ f ∷ g ∷ h ∷ []) =
    (a * 2 ^ 24 + b * 2 ^ 16 + c * 2 ^ 8 + d) * 2 ^ 32 + (e * 2 ^ 24 + f * 2 ^ 16 + g * 2 ^ 8 + h)
uint64 _ = 0

pub length-put_uint32 : (n : ℕ) → length (put_uint32 n) ≡ 4
unfolding put_uint32
length-put_uint32 n = refl

pub length-put_uint64 : (n : ℕ) → length (put_uint64 n) ≡ 8
unfolding put_uint64
length-put_uint64 n = refl

pub uint32-put_uint32 : (n : ℕ) → n < 2 ^ 32 → uint32 (put_uint32 n) ≡ n
unfolding uint32 put_uint32
uint32-put_uint32 n h = omega arith

pub uint64-put_uint64 : (n : ℕ) → n < 2 ^ 64 → uint64 (put_uint64 n) ≡ n
unfolding uint64 put_uint64
uint64-put_uint64 n h = omega arith

-- The other way round, on four bytes from the front of a byte string.
pub put_uint32-uint32 :
    (bytes : Bytes)
    → All IsByte bytes
    → 4 ≤ length bytes
    → put_uint32 (uint32 (take 4 bytes)) ≡ take 4 bytes
unfolding uint32 put_uint32
put_uint32-uint32 (a ∷ b ∷ c ∷ d ∷ rest) byte h = ground arith
put_uint32-uint32 [] byte h = absurd (omega arith)
put_uint32-uint32 (a ∷ []) byte h = absurd (omega arith)
put_uint32-uint32 (a ∷ b ∷ []) byte h = absurd (omega arith)
put_uint32-uint32 (a ∷ b ∷ c ∷ []) byte h = absurd (omega arith)
