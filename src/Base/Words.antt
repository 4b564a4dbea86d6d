-- ===== src/Base/Words.antt =====
-- Machine words as native numbers. A release build wraps on overflow: `wrap`.
use Prim.Native.Nat.{ℕ, ◌+◌, ◌-◌, ◌*◌, ◌/◌, ◌%◌}
use mathlib.Core.Option.{Option, none, some}
use aah_chain.Base.Tests.{leb, ltb, if◌then◌else◌}

abbrev pub u8_max : ℕ
u8_max = 255

abbrev pub u16_max : ℕ
u16_max = 0xffff

abbrev pub u32_max : ℕ
u32_max = 0xffff_ffff

abbrev pub u64_max : ℕ
u64_max = 0xffff_ffff_ffff_ffff

abbrev pub u128_max : ℕ
u128_max = 0xffff_ffff_ffff_ffff_ffff_ffff_ffff_ffff

-- The value that a word with this greatest value keeps.
abbrev pub wrap : ℕ → ℕ → ℕ
wrap m n = n % (m + 1)

abbrev pub checked_add : ℕ → ℕ → ℕ → Option ℕ
checked_add m a b = if leb (a + b) m then some (a + b) else none

abbrev pub checked_mul : ℕ → ℕ → ℕ → Option ℕ
checked_mul m a b = if leb (a * b) m then some (a * b) else none

abbrev pub saturating_add : ℕ → ℕ → ℕ → ℕ
saturating_add m a b = if leb (a + b) m then a + b else m

abbrev pub saturating_mul : ℕ → ℕ → ℕ → ℕ
saturating_mul m a b = if leb (a * b) m then a * b else m

-- `u.div_ceil(v)`, for `v` above 0
abbrev pub div_ceil : ℕ → ℕ → ℕ
div_ceil a b = if ltb 0 (a % b) then a / b + 1 else a / b

-- `a - b` of a release build
abbrev pub wrapping_sub : ℕ → ℕ → ℕ → ℕ
wrapping_sub m a b = if leb b a then a - b else a + (m + 1) - b
