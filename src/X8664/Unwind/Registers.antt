-- ===== src/X8664/Unwind/Registers.antt =====
-- The registers that `access_reg` of src/x86_64.rs gives to libunwind: a file of registers by their numbers.
use libunwinder.Prelude.{ℕ, ◌≡◌, ◌≢◌, ◌≤◌, inl, inr, refl, ap, arith, false, lt_cases}
use libunwinder.Prelude.Int.{ℤ, pos, negsuc, neg, is_zero}
use libunwinder.Callbacks.Accessors.{unw_esuccess, unw_ebadreg}
use libunwinder.X8664.Unwind.{RawRegs, access_reg}

-- A register is written and read back; a number of no register is refused, for a write and for a
-- read, and changes nothing. The registers are the sixteen general ones, and 16 for the instruction
-- pointer.
pub data IsWritten (reg : ℤ) (val old : ℕ) (raw : RawRegs) (r : (ℤ × ℕ) × RawRegs) : Type 0 where
  written :
      (n : ℕ)
      → reg ≡ pos n
      → n ≤ 16
      → r.0 ≡ (unw_esuccess, val)
      → (access_reg reg old (pos 0) r.1).0 ≡ (unw_esuccess, val)
      → IsWritten reg val old raw r
  refused :
      ((n : ℕ) → n ≤ 16 → reg ≢ pos n)
      → r ≡ ((neg unw_ebadreg, val), raw)
      → (access_reg reg old (pos 0) raw).0 ≡ (neg unw_ebadreg, old)
      → IsWritten reg val old raw r

module _ (raw : RawRegs) (val old : ℕ) (write : ℤ) (writes : is_zero write ≡ false) where
  -- A register that libunwind writes, with a number from 0 to 16, is read back as it was written;
  -- any other number is refused for writing and reading, and changes nothing.
  pub access_reg-IsWritten : (reg : ℤ) → IsWritten reg val old raw (access_reg reg val write raw)
  unfolding access_reg
  access_reg-IsWritten (pos n) = elim (lt_cases n 16) [
    | inl lt ↦ written n refl (omega arith) (ground (arith, writes)) (ground (arith, writes))
    | inr (inl same) ↦
        written n refl (omega arith) (ground (arith, writes)) (ground (arith, writes))
    | inr (inr gt) ↦
        refused (λ m le e. ground arith) (ground (arith, writes)) (ground (arith, writes))
  ]
  access_reg-IsWritten (negsuc n) = refused (λ m le e. cc) refl refl

  pub access_reg-others :
      (reg other : ℤ)
      → other ≢ reg
      → (access_reg other old (pos 0) (access_reg reg val write raw).1).0
        ≡ (access_reg other old (pos 0) raw).0
  unfolding access_reg
  access_reg-others (pos n) (pos m) ne =
      let apart : m ≢ n = λ e. ne (ap pos e) in ground (arith, writes, apart)
  access_reg-others (pos n) (negsuc m) ne = refl
  access_reg-others (negsuc n) other ne = refl
