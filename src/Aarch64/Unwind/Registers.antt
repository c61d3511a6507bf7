-- ===== src/Aarch64/Unwind/Registers.antt =====
-- The registers that `access_reg` of src/callbacks.rs for the registers of src/aarch64.rs gives to libunwind: a file of registers by their numbers.
use libunwinder.Prelude.{ℕ, ◌≡◌, ◌≢◌, inl, inr, refl, ap, arith, false, lt_cases}
use libunwinder.Prelude.Int.{ℤ, pos, negsuc, neg, is_zero}
use libunwinder.Callbacks.Accessors.{unw_esuccess, unw_ebadreg}
use libunwinder.Aarch64.Unwind.{RawRegs, access_reg}

-- A write that succeeds is read back; one that does not changes nothing, and a read does not either.
pub data IsWritten (reg : ℤ) (val old : ℕ) (raw : RawRegs) (r : (ℤ × ℕ) × RawRegs) : Type 0 where
  written :
      r.0 ≡ (unw_esuccess, val)
      → (access_reg reg old (pos 0) r.1).0 ≡ (unw_esuccess, val)
      → IsWritten reg val old raw r
  refused :
      r ≡ ((neg unw_ebadreg, val), raw)
      → (access_reg reg old (pos 0) raw).0 ≡ (neg unw_ebadreg, old)
      → IsWritten reg val old raw r

module _ (raw : RawRegs) (val old : ℕ) (write : ℤ) (writes : is_zero write ≡ false) where
  pub access_reg-IsWritten : (reg : ℤ) → IsWritten reg val old raw (access_reg reg val write raw)
  unfolding access_reg
  access_reg-IsWritten (pos n) = elim (lt_cases n 33) [
    | inl lt ↦ elim (lt_cases n 28) [
      | inl low ↦ refused (ground (arith, writes)) (ground (arith, writes))
      | inr (inl same) ↦ refused (ground (arith, writes)) (ground (arith, writes))
      | inr (inr gt) ↦ written (ground (arith, writes)) (ground (arith, writes))
    ]
    | inr (inl same) ↦ refused (ground (arith, writes)) (ground (arith, writes))
    | inr (inr gt) ↦ refused (ground (arith, writes)) (ground (arith, writes))
  ]
  access_reg-IsWritten (negsuc n) = refused refl refl

  pub access_reg-others :
      (reg other : ℤ)
      → other ≢ reg
      → (access_reg other old (pos 0) (access_reg reg val write raw).1).0
        ≡ (access_reg other old (pos 0) raw).0
  unfolding access_reg
  access_reg-others (pos n) (pos m) ne =
      let apart : m ≢ n = λ e. ne (ap pos e) in ground (arith, writes, apart)
  access_reg-others (pos n) (negsuc m) ne = refl
  access_reg-others (negsuc n) other ne = refl
