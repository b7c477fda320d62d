-- ===== src/Base/Int.antt =====
-- Signed integers, and the machine integers i32 and i64 read from their bit patterns.
use Prim.Native.Nat.{ℕ, ◌-◌, ◌*◌, ◌<◌, ◌^◌}
use mathlib.Core.Path.{◌≡◌}
use mathlib.Core.Bool.{Bool, true, false}
use native.Mathlib.Omega.{arith}
use mongowire.Base.Tests.{ltb, if◌then◌else◌}

-- `negsuc n` is -(n + 1).
pub data ℤ : Type 0 where
  pos : ℕ → ℤ
  negsuc : ℕ → ℤ

-- The integer that a pattern of `2 * half` values stands for in two's complement.
abbrev pub signed : ℕ → ℕ → ℤ
signed half v = if ltb v half then pos v else negsuc (2 * half - 1 - v)

-- The pattern of an integer that fits.
abbrev pub pattern_of : ℕ → ℤ → ℕ
pattern_of half (pos n) = n
pattern_of half (negsuc n) = 2 * half - 1 - n

-- The integers of the type with `2 * half` values.
abbrev pub Fits : ℕ → ℤ → Type 0
Fits half (pos n) = n < half
Fits half (negsuc n) = n < half

abbrev pub i32_half : ℕ
i32_half = 2 ^ 31

abbrev pub i64_half : ℕ
i64_half = 2 ^ 63

-- `a < b` on signed integers.
abbrev pub ltb_ℤ : ℤ → ℤ → Bool
ltb_ℤ (pos a) (pos b) = ltb a b
ltb_ℤ (pos a) (negsuc b) = false
ltb_ℤ (negsuc a) (pos b) = true
ltb_ℤ (negsuc a) (negsuc b) = ltb b a

-- `x as usize`, on a 64-bit platform.
abbrev pub as_usize : ℤ → ℕ
as_usize (pos n) = n
as_usize (negsuc n) = 2 ^ 64 - 1 - n

-- `i32::try_from(n)` succeeds.
abbrev pub fits_i32 : ℕ → Bool
fits_i32 n = ltb n i32_half

pub signed-pattern_of : (half : ℕ) (x : ℤ) → Fits half x → signed half (pattern_of half x) ≡ x
signed-pattern_of half (pos n) h = ground arith
signed-pattern_of half (negsuc n) h = ground arith

pub pattern_of-signed : (half v : ℕ) → v < 2 * half → pattern_of half (signed half v) ≡ v
pattern_of-signed half v h = ground arith

pub pattern_of-lt : (half : ℕ) (x : ℤ) → Fits half x → pattern_of half x < 2 * half
pattern_of-lt half (pos n) h = omega arith
pattern_of-lt half (negsuc n) h = omega arith

pub signed-Fits : (half v : ℕ) → v < 2 * half → Fits half (signed half v)
signed-Fits half v h = ground arith
