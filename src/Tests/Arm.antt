-- ===== src/Tests/Arm.antt =====
-- Masks, and steps of the frame-pointer fallback of src/aarch64.rs.
use libunwinder.Prelude.{
  ℕ, ◌+◌, ◌*◌, ◌-◌, ◌<◌, ◌^◌, ◌≡◌, refl, arith, some, none, ok, ◌==◌, if◌then◌else◌,
}
use libunwinder.Prelude.Int.{pos}
use libunwinder.Prelude.BTreeMap.{last_le}
use libunwinder.Prelude.Masks.{leading_zeros}
use libunwinder.FrameAddress.{instruction_pointer, address}
use libunwinder.ModuleSet
use libunwinder.ModuleSet.{has_unwind_info, unwind_info_error, find_module}
use libunwinder.UnwindCtx.{ReadStack}
use libunwinder.X8664
use libunwinder.Aarch64.{
  UnwindRegs, new, from_max_known_address, strip_ptr_auth, fallback_unwind_frame,
}
use libunwinder.Aarch64.Masks.{strip_ptr_auth-from_max_known_address}
use libunwinder.Aarch64.Fallback.{step_of, fallback_unwind_frame-same}
use libunwinder.Aarch64.Unwind.{unwind_frame}
use libunwinder.Aarch64.Unwind.Steps.{IsStripped}
use libunwinder.Aarch64.Unwind.Promises.{unwind_frame-IsStripped}
use libunwinder.Tests.Library.{popping, no_caches}

strip_ptr_auth-from_max_known_address_example :
    (strip_ptr_auth
        (from_max_known_address 0x7fff)
        (0x1234 + 0x55 * 2 ^ (64 - leading_zeros 0x7fff))
      ≡ 0x1234)
    × (strip_ptr_auth (from_max_known_address 0x7fff) 0x12345 < 2 * 0x7fff)
strip_ptr_auth-from_max_known_address_example =
    strip_ptr_auth-from_max_known_address 0x7fff 0x1234 0x55 0x12345 (λ e. omega arith)
      (omega arith) (omega arith)

abbrev stack : ReadStack
stack addr = if addr == 0x7000 then some 0x7040 else if addr == 0x7008 then some 0x1234 else none

abbrev regs : UnwindRegs
regs = new 0x1200 0x6ff0 0x7000

fallback_unwind_frame-same_example :
    fallback_unwind_frame stack 0x1100 regs
    ≡ step_of regs (X8664.fallback_unwind_frame stack 0x1100 (X8664.new 0x1100 0x6ff0 0x7000))
unfolding X8664.new X8664.set
fallback_unwind_frame-same_example =
    fallback_unwind_frame-same stack 0x1100 regs (X8664.new 0x1100 0x6ff0 0x7000) refl refl refl
      words
  where
    words : (addr v : ℕ) → stack addr ≡ some v → v < 2 ^ 64
    words addr v h = ground arith

stepped :
    (unwind_frame
      (popping (pos 30))
      tt
      ModuleSet.new
      stack
      (instruction_pointer 0x1100)
      regs
      no_caches).0
    ≡ ok (some 0x1234)
unfolding unwind_frame unwind_info_error has_unwind_info find_module last_le fallback_unwind_frame
    strip_ptr_auth address
stepped = refl

unwind_frame-IsStripped_example :
    IsStripped
      (instruction_pointer 0x1100)
      regs
      0x1234
      (unwind_frame
        (popping (pos 30))
        tt
        ModuleSet.new
        stack
        (instruction_pointer 0x1100)
        regs
        no_caches).1.0
unwind_frame-IsStripped_example =
    unwind_frame-IsStripped (popping (pos 30)) tt ModuleSet.new stack (instruction_pointer 0x1100)
      regs no_caches 0x1234 stepped
