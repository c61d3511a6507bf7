-- ===== src/Prelude/Masks.antt =====
-- `&` with a mask of low ones, and the masks that `u64::MAX >> address.leading_zeros()` gives.
use Prim.Native.Nat.{
  ℕ, zero, suc, ◌+◌, ◌-◌, ◌*◌, ◌/◌, ◌%◌, ◌^◌, ◌≤◌, ◌<◌, min, bit_and, digits, bit_and-bitwise,
}
use mathlib.Core.Path.{◌≡◌, refl, ap, sym, ◌∙◌}
use mathlib.Core.Logic.{◌≢◌}
use native.Mathlib.Nat.{
  pow-suc, zero-mod, mod-lt, add-mul-mod_self_right, mod-eq_of_lt, mod-add-div',
}
use native.Mathlib.Omega.{arith}
use libunwinder.Prelude.Tests.{◌==◌, if◌then◌else◌}

-- How many bits a number takes, for as many as it may have.
unfoldable pub bit_length : ℕ → ℕ → ℕ
bit_length zero v = 0
bit_length (suc width) v = let rest = bit_length width (v / 2) in if v == 0 then 0 else suc rest

-- `u64::leading_zeros`
abbrev pub leading_zeros : ℕ → ℕ
leading_zeros v = 64 - bit_length 64 v

-- `u64::MAX >> n`
abbrev pub max_shifted : ℕ → ℕ
max_shifted n = (2 ^ 64 - 1) / 2 ^ n

pub bit_length-le : (width v : ℕ) → bit_length width v ≤ width
unfolding bit_length
bit_length-le zero v = omega arith
bit_length-le (suc width) v = ground (arith, bit_length-le width (v / 2))

pub lt-bit_length : (width v : ℕ) → v < 2 ^ width → v < 2 ^ bit_length width v
unfolding bit_length
lt-bit_length zero v h = h
lt-bit_length (suc width) v h =
    ground
      (arith, pow-suc 2 width, pow-suc 2 (bit_length width (v / 2)), lt-bit_length width (v / 2))

bit_length-zero : (width : ℕ) → bit_length width 0 ≡ 0
unfolding bit_length
bit_length-zero zero = refl
bit_length-zero (suc width) = refl

pub bit_length-lt : (width v : ℕ) → v ≢ 0 → 2 ^ bit_length width v ≤ 2 * v
unfolding bit_length
bit_length-lt zero v nz = ground arith
bit_length-lt (suc width) zero nz = absurd (nz refl)
bit_length-lt (suc width) (suc zero) nz = ground (arith, bit_length-zero width)
bit_length-lt (suc width) (suc (suc v)) nz = ground (
  arith,
  pow-suc 2 (bit_length width (suc (suc v) / 2)),
  bit_length-lt width (suc (suc v) / 2) (λ e. omega arith),
)

-- A number by its lowest digit.
mod-double : (a p : ℕ) → 0 < p → a % (2 * p) ≡ a / 2 % p * 2 + a % 2
mod-double a p positive =
    ap (λ (x : ℕ). x % (2 * p)) whole
    ∙ add-mul-mod_self_right (a / 2 % p * 2 + a % 2) (a / 2 / p) (2 * p)
    ∙ mod-eq_of_lt (omega (arith, mod-lt (a / 2) positive))
  where
    whole : a ≡ a / 2 % p * 2 + a % 2 + a / 2 / p * (2 * p)
    whole = omega (arith, mod-add-div' (a / 2) p)

no_digits : (rounds a : ℕ) → digits (λ b. 0) min rounds a 0 ≡ 0
no_digits zero a = refl
no_digits (suc rounds) zero = refl
no_digits (suc rounds) (suc a) = omega (arith, no_digits rounds (suc a / 2))

positive : (k : ℕ) → 0 < 2 ^ k
positive zero = omega arith
positive (suc k) = omega (arith, pow-suc 2 k, positive k)

low_digits : (k rounds a : ℕ) → a ≤ rounds → digits (λ b. 0) min rounds a (2 ^ k - 1) ≡ a % 2 ^ k
low_digits k zero zero h = sym (zero-mod (2 ^ k))
low_digits k zero (suc a) h = absurd (omega arith)
low_digits k (suc rounds) zero h = sym (zero-mod (2 ^ k))
low_digits zero (suc rounds) (suc a) h = omega (arith, no_digits rounds (suc a / 2))
low_digits (suc k) (suc rounds) (suc a) h =
    ap
      (λ (x : ℕ).
        digits (λ b. 0) min rounds (suc a / 2) x * 2 + min (suc a % 2) ((2 ^ suc k - 1) % 2))
      half
    ∙ omega (arith, low_digits k rounds (suc a / 2) (omega arith), odd)
    ∙ sym (mod-double (suc a) (2 ^ k) (positive k))
    ∙ ap (λ (x : ℕ). suc a % x) same
  where
    same : 2 * 2 ^ k ≡ 2 ^ suc k
    same = omega (arith, pow-suc 2 k)

    half : (2 ^ suc k - 1) / 2 ≡ 2 ^ k - 1
    half = omega (arith, pow-suc 2 k)

    odd : (2 ^ suc k - 1) % 2 ≡ 1
    odd = omega (arith, pow-suc 2 k, positive k)

pub bit_and-ones : (k a : ℕ) → bit_and a (2 ^ k - 1) ≡ a % 2 ^ k
bit_and-ones k a = bit_and-bitwise a (2 ^ k - 1) ∙ low_digits k a a (omega arith)
