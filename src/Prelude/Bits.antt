-- ===== src/Prelude/Bits.antt =====
-- `|` of disjoint fields at every width, and `&` with the masks of the code on one byte.
use Prim.Native.Nat.{
  ℕ, zero, suc, ◌+◌, ◌*◌, ◌/◌, ◌%◌, ◌^◌, ◌≤◌, ◌<◌, max, bit_and, bit_or, digits, bit_or-bitwise,
}
use mathlib.Core.Path.{◌≡◌, refl, ap}
use mathlib.Core.Bool.{Bool, true, false}
use native.Mathlib.Nat.{pow-suc}
use native.Mathlib.Omega.{arith}
use libunwinder.Prelude.Tests.{◌==◌, if◌then◌else◌}

double_field : (q k : ℕ) → q * 2 ^ suc k ≡ 2 * (q * 2 ^ k)
double_field q k = omega (arith, ap (λ (t : ℕ). q * t) (pow-suc 2 k))

-- Digit by digit, for as many digits as the low field may have.
disjoint :
    (k rounds low high : ℕ)
    → low < 2 ^ k
    → low ≤ rounds
    → digits (λ d. d) max rounds low (high * 2 ^ k) ≡ low + high * 2 ^ k
disjoint k zero zero high fits enough = omega arith
disjoint k (suc rounds) zero high fits enough = omega arith
disjoint k zero (suc low) high fits enough = absurd (omega arith)
disjoint zero (suc rounds) (suc low) high fits enough = absurd (omega arith)
disjoint (suc k) (suc rounds) (suc low) high fits enough = ground (
  arith,
  double_field high k,
  pow-suc 2 k,
  disjoint k rounds (suc low / 2) high (omega (arith, pow-suc 2 k)) (omega arith),
)

-- `low | (high << k)` is a sum when `low` fits `k` bits.
pub bit_or-add : (k low high : ℕ) → low < 2 ^ k → bit_or low (high * 2 ^ k) ≡ low + high * 2 ^ k
bit_or-add k low high fits =
    omega (arith, bit_or-bitwise low (high * 2 ^ k), disjoint k low low high fits (omega arith))

-- Over a byte a law is a table that is checked by evaluation.
module _ (f g : ℕ → ℕ) where
  unfoldable pub agrees : ℕ → Bool
  agrees zero = true
  agrees (suc n) = if f n == g n then agrees n else false

  pub on_table : (n x : ℕ) → x < n → agrees n ≡ true → f x ≡ g x
  unfolding agrees
  on_table zero x lt t = absurd (omega arith)
  on_table (suc n) x lt t = ground (arith, on_table n x, ap f, ap g)

pub bit_and_0x7f : (b : ℕ) → b < 256 → bit_and b 0x7f ≡ b % 128
unfolding agrees
bit_and_0x7f b lt = on_table (λ b. bit_and b 0x7f) (λ b. b % 128) 256 b lt refl

pub bit_and_0x80 : (b : ℕ) → b < 256 → bit_and b 0x80 ≡ b / 128 * 128
unfolding agrees
bit_and_0x80 b lt = on_table (λ b. bit_and b 0x80) (λ b. b / 128 * 128) 256 b lt refl

pub bit_and_0x40 : (b : ℕ) → b < 256 → bit_and b 0x40 ≡ b / 64 % 2 * 64
unfolding agrees
bit_and_0x40 b lt = on_table (λ b. bit_and b 0x40) (λ b. b / 64 % 2 * 64) 256 b lt refl
