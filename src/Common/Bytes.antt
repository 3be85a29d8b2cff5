-- ===== src/Common/Bytes.antt =====
-- Little-endian words over lists of bytes, and the option monad.
use Prim.Native.Nat.{ℕ, ◌+◌, ◌*◌, ◌/◌, ◌%◌, ◌^◌, ◌<◌}
use mathlib.Core.List.{List, [], ◌∷◌}

abbrev pub IsByte : ℕ → Type 0
IsByte b = b < 256

abbrev pub IsWord : ℕ → Type 0
IsWord w = w < 2 ^ 32

-- `u16::from_le_bytes`, `u32::from_le_bytes`
abbrev pub u16_from_le : ℕ → ℕ → ℕ
u16_from_le a b = a + b * 256

abbrev pub u32_from_le : ℕ → ℕ → ℕ → ℕ → ℕ
u32_from_le a b c d = a + b * 256 + c * 65536 + d * 16777216

-- `u16::to_le_bytes`, `u32::to_le_bytes`
abbrev pub u16_to_le : ℕ → List ℕ
u16_to_le v = v % 256 ∷ v / 256 % 256 ∷ []

abbrev pub u32_to_le : ℕ → List ℕ
u32_to_le v = v % 256 ∷ v / 256 % 256 ∷ v / 65536 % 256 ∷ v / 16777216 % 256 ∷ []

-- `n.div_ceil(8)`
abbrev pub div_ceil_8 : ℕ → ℕ
div_ceil_8 n = (n + 7) / 8
