-- ===== src/Prelude/Int.antt =====
-- `c_int` and `i32`: `negsuc n` is `-(n + 1)`.
use Prim.Native.Nat.{ℕ, zero, suc, ◌+◌, ◌^◌}
use mathlib.Core.Bool.{Bool, true, false}
use mathlib.Core.Option.{Option, none, some}
use libunwinder.Prelude.Tests.{◌==◌, ltb, if◌then◌else◌}

pub data ℤ : Type 0 where
  pos : (n : ℕ) → ℤ
  negsuc : (n : ℕ) → ℤ

-- `-n`
abbrev pub neg : ℕ → ℤ
neg zero = pos 0
neg (suc n) = negsuc n

abbrev pub is_neg : ℤ → Bool
is_neg (pos n) = false
is_neg (negsuc n) = true

abbrev pub is_zero : ℤ → Bool
is_zero (pos n) = n == 0
is_zero (negsuc n) = false

-- `i32::abs`, which overflows at `i32::MIN`
abbrev pub abs : ℤ → Option ℕ
abs (pos n) = some n
abs (negsuc n) = if ltb (n + 1) (2 ^ 31) then some (n + 1) else none

-- `==` with a constant that is not negative
abbrev pub is_pos : ℤ → ℕ → Bool
is_pos (pos n) k = n == k
is_pos (negsuc n) k = false
