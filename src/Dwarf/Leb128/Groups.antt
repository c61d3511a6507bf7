-- ===== src/Dwarf/Leb128/Groups.antt =====
-- The arithmetic of one round: seven more bits above `shift` bits.
use native.Mathlib.Nat.{pow-suc, add-suc, add-zero, mod-eq_of_lt, pow-le-pow_right, one-le-pow}
use native.Mathlib.Numerals.{towards_suc}
use native.Mathlib.Decide.{dec_le}
use libunwinder.Prelude.{
  ℕ, zero, suc, ◌+◌, ◌-◌, ◌*◌, ◌%◌, ◌^◌, ◌≤◌, ◌<◌, ◌≡◌, sym, ap, ◌∙◌, bit_and, arith, true, not,
  ◌&&◌, ltb, ◌==◌, if◌then◌else◌, Bool-cases, inl, inr,
}
use libunwinder.Prelude.Bits.{bit_or-add, bit_and_0x7f, bit_and_0x40}
use libunwinder.Dwarf.Leb128.{or_group, or_sign}

pub two_pow_seven : (s : ℕ) → 2 ^ (s + 7) ≡ 128 * 2 ^ s
two_pow_seven s = simp towards_suc (omega arith)

two_pow-add : (t s : ℕ) → 2 ^ t * 2 ^ s ≡ 2 ^ (t + s)
two_pow-add t zero = rw add-zero (omega arith)
two_pow-add t (suc s) =
    rw (add-suc, pow-suc 2 s, pow-suc 2 (t + s))
      (omega (arith, ap (λ (k : ℕ). k * 2) (two_pow-add t s)))

pub two_pow_le : (s t : ℕ) → s ≤ t → 2 ^ s ≤ 2 ^ t
two_pow_le s t h = pow-le-pow_right (omega arith) h

group_fits : (g s : ℕ) → g < 128 → s ≤ 56 → g * 2 ^ s % 2 ^ 64 ≡ g * 2 ^ s
group_fits g s hg hs = mod-eq_of_lt (grind (arith, two_pow_le s 56 hs))

-- A group that fits below bit 64 is added.
pub or_group-add :
    (acc b s : ℕ) → b < 256 → s ≤ 56 → acc < 2 ^ s → or_group acc b s ≡ acc + b % 128 * 2 ^ s
or_group-add acc b s hb hs h =
    rw (bit_and_0x7f b hb, group_fits (b % 128) s (omega arith) hs) (bit_or-add s acc (b % 128) h)

-- In the tenth byte only the lowest bit is kept.
pub or_group-top :
    (acc b : ℕ) → b < 256 → acc < 2 ^ 63 → or_group acc b 63 ≡ (acc + b % 128 * 2 ^ 63) % 2 ^ 64
or_group-top acc b hb h =
    rw (bit_and_0x7f b hb, low_bit) (bit_or-add 63 acc (b % 128 % 2) h ∙ omega arith)
  where
    low_bit : b % 128 * 2 ^ 63 % 2 ^ 64 ≡ b % 128 % 2 * 2 ^ 63
    low_bit = omega arith

-- The last group, at any of the ten shifts.
pub or_group-last :
    (acc b s j : ℕ)
    → b < 128
    → s ≡ 7 * j
    → j ≤ 9
    → acc < 2 ^ s
    → or_group acc b s ≡ (acc + b * 2 ^ s) % 2 ^ 64
or_group-last acc b s j hb hs hj h = elim (dec_le s 56) [
  | yes low ↦ or_group-add acc b s (omega arith) low h ∙ (same ∙ sym (mod-eq_of_lt (fits low)))
  | no high ↦ rw (top high) (or_group-top acc b (omega arith) (rw (top high) at h) ∙ small)
]
  where
    same : acc + b % 128 * 2 ^ s ≡ acc + b * 2 ^ s
    same = ap (λ (k : ℕ). acc + k * 2 ^ s) (mod-eq_of_lt hb)

    fits : s ≤ 56 → acc + b * 2 ^ s < 2 ^ 64
    fits low = grind (arith, two_pow_le s 56 low)

    top : ¬ (s ≤ 56) → s ≡ 63
    top high = omega arith

    small : (acc + b % 128 * 2 ^ 63) % 2 ^ 64 ≡ (acc + b * 2 ^ 63) % 2 ^ 64
    small = omega arith

-- The sum stays below the next shift.
pub group_bound : (acc g s : ℕ) → g < 128 → acc < 2 ^ s → acc + g * 2 ^ s < 2 ^ (s + 7)
group_bound acc g s hg h = rw (two_pow_seven s) (grind arith)

pred_mul : (p q : ℕ) → 1 ≤ p → p * q ≡ (p - 1) * q + q
pred_mul zero q h = absurd (omega arith)
pred_mul (suc p) q h = rw same (omega arith)
  where
    same : suc p - 1 ≡ p
    same = omega arith

-- The sign fills the bits from `s` on: -(2 ^ s) is added modulo 2 ^ 64.
pub or_sign-add : (acc s t : ℕ) → t + s ≡ 64 → acc < 2 ^ s → or_sign acc s ≡ acc + (2 ^ 64 - 2 ^ s)
or_sign-add acc s t e h = rw split (bit_or-add s acc (2 ^ t - 1) h)
  where
    product : 2 ^ t * 2 ^ s ≡ 2 ^ 64
    product = two_pow-add t s ∙ ap (λ (k : ℕ). 2 ^ k) e

    split : 2 ^ 64 - 2 ^ s ≡ (2 ^ t - 1) * 2 ^ s
    split = omega (arith, product, pred_mul (2 ^ t) (2 ^ s) (one-le-pow t 2 (omega arith)))

-- The sign bits of a last group `b` whose encoding has `e` bits, modulo 2 ^ 64: -(2 ^ e).
abbrev pub sign_fill : ℕ → ℕ → ℕ
sign_fill b e = if ltb b 64 then 0 else 2 ^ 70 - 2 ^ e

abbrev pub signed_group : ℕ → ℕ → ℕ → ℕ
signed_group acc b s =
    let acc' = or_group acc b s in
    if ltb (s + 7) 64 && not (bit_and b 0x40 == 0) then or_sign acc' (s + 7) else acc'

module _ (acc b s : ℕ) (hb : b < 128) (h : acc < 2 ^ s) where
  sign_bit : (bit_and b 0x40 == 0) ≡ ltb b 64
  sign_bit = rw (bit_and_0x40 b (omega arith)) (ground arith)

  signed_group-low :
      s ≤ 56 → signed_group acc b s ≡ (acc + b * 2 ^ s + sign_fill b (s + 7)) % 2 ^ 64
  signed_group-low low =
      rw (sign_bit, room)
        (elim (Bool-cases (ltb b 64)) [
          | inl t ↦
              rw (t, add-zero) (or_group-last' ∙ sym (mod-eq_of_lt (omega (arith, bound, top))))
          | inr f ↦
              rw (f, or_group-last')
                (or_sign-add (acc + b * 2 ^ s) (s + 7) (57 - s) (omega arith) bound
                  ∙ omega (arith, bound, top))
        ])
    where
      room : ltb (s + 7) 64 ≡ true
      room = ground arith

      or_group-last' : or_group acc b s ≡ acc + b * 2 ^ s
      or_group-last' =
          or_group-add acc b s (omega arith) low h
          ∙ ap (λ (k : ℕ). acc + k * 2 ^ s) (mod-eq_of_lt hb)

      bound : acc + b * 2 ^ s < 2 ^ (s + 7)
      bound = group_bound acc b s hb h

      top : 2 ^ (s + 7) ≤ 2 ^ 63
      top = two_pow_le (s + 7) 63 (omega arith)

  signed_group-high :
      s ≡ 63 → signed_group acc b s ≡ (acc + b * 2 ^ s + sign_fill b (s + 7)) % 2 ^ 64
  signed_group-high e =
      rw e (or_group-last acc b 63 9 hb (omega arith) (omega arith) (rw e at h) ∙ ground arith)

pub signed_group-last :
    (acc b s j : ℕ)
    → b < 128
    → s ≡ 7 * j
    → j ≤ 9
    → acc < 2 ^ s
    → signed_group acc b s ≡ (acc + b * 2 ^ s + sign_fill b (s + 7)) % 2 ^ 64
signed_group-last acc b s j hb hs hj h = elim (dec_le s 56) [
  | yes low ↦ signed_group-low acc b s hb h low
  | no high ↦ signed_group-high acc b s hb h (omega arith)
]
