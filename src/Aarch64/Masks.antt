-- ===== src/Aarch64/Masks.antt =====
-- What a pointer authentication mask keeps of an address.
use native.Mathlib.Nat.{mod-lt, mod-eq_of_lt, add-mul-mod_self_right}
use libunwinder.Prelude.Bits.{agrees, on_table}
use libunwinder.Prelude.{
  bit_and, refl, ℕ, ◌+◌, ◌-◌, ◌*◌, ◌%◌, ◌^◌, ◌≤◌, ◌<◌, ◌≡◌, ◌≢◌, ◌∙◌, ap, arith,
}
use libunwinder.Prelude.Masks.{
  bit_and-ones, bit_length, bit_length-le, lt-bit_length, bit_length-lt, leading_zeros, max_shifted,
}
use libunwinder.Aarch64.{from_max_known_address, strip_ptr_auth, new_no_strip}

max_shifted-ones : (n : ℕ) → n ≤ 64 → max_shifted (64 - n) ≡ 2 ^ n - 1
unfolding agrees
max_shifted-ones n h = on_table (λ n. max_shifted (64 - n)) (λ n. 2 ^ n - 1) 65 n (omega arith) refl

from_max-ones :
    (address : ℕ) → address ≢ 0 → from_max_known_address address ≡ 2 ^ bit_length 64 address - 1
unfolding from_max_known_address
from_max-ones address nz =
    ground (arith, max_shifted-ones (bit_length 64 address) (bit_length-le 64 address))

-- What the mask keeps is the address in as many digits as the known one has.
strip-mod :
    (address x : ℕ)
    → address ≢ 0
    → strip_ptr_auth (from_max_known_address address) x ≡ x % 2 ^ bit_length 64 address
unfolding strip_ptr_auth
strip-mod address x nz =
    ap (bit_and x) (from_max-ones address nz) ∙ bit_and-ones (bit_length 64 address) x

-- A mask for a nonzero address of 64 bits keeps every address up to it, takes away any signature
-- in the digits above its highest one, and leaves less than twice the address.
pub strip_ptr_auth-from_max_known_address :
    (address addr signature x : ℕ)
    → address ≢ 0
    → address < 2 ^ 64
    → addr ≤ address
    → (strip_ptr_auth
          (from_max_known_address address)
          (addr + signature * 2 ^ (64 - leading_zeros address))
        ≡ addr)
      × (strip_ptr_auth (from_max_known_address address) x < 2 * address)
strip_ptr_auth-from_max_known_address address addr signature x nz small le = (
  strip-mod address _ nz
      ∙ ap (λ (k : ℕ). (addr + signature * 2 ^ k) % 2 ^ bit_length 64 address) width
      ∙ add-mul-mod_self_right addr signature (2 ^ bit_length 64 address)
      ∙ mod-eq_of_lt (omega (arith, lt-bit_length 64 address small)),
  omega (
    arith,
    strip-mod address x nz,
    mod-lt x {m = 2 ^ bit_length 64 address} (omega (arith, lt-bit_length 64 address small)),
    bit_length-lt 64 address nz,
  ),
)
  where
    width : 64 - leading_zeros address ≡ bit_length 64 address
    width = omega (arith, bit_length-le 64 address)

-- Without stripping a word stays as it is.
pub strip_ptr_auth-no_strip : (x : ℕ) → x < 2 ^ 64 → strip_ptr_auth new_no_strip x ≡ x
unfolding strip_ptr_auth
strip_ptr_auth-no_strip x h = bit_and-ones 64 x ∙ mod-eq_of_lt h
