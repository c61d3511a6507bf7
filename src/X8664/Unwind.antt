-- ===== src/X8664/Unwind.antt =====
-- `unwind_frame` of src/x86_64.rs, and the registers that it lends to libunwind. A call that does not
-- return, and a panic, are `panic`.
pub mod Steps
pub mod Promises
pub mod Registers
use libunwinder.Prelude.{
  ℕ, ◌==◌, ◌&&◌, not, ltb, List, [], ◌∷◌, Bool, true, false, Option, none, some, Result, ok, err,
  panic, and_then, if◌then◌else◌, get_or,
}
use libunwinder.Prelude.Int.{ℤ, pos, negsuc, neg, is_pos, is_zero}
use libunwinder.Error.{Error, UnwindInfoError, unwind_info, did_not_advance}
use libunwinder.FrameAddress.{FrameAddress, address, address_for_lookup}
use libunwinder.ModuleSet.{
  ModuleSet, CacheStore, has_unwind_info, unwind_info_error, is_signal_frame,
}
use libunwinder.UnwindCtx.{UnwindCtx}
use libunwinder.Callbacks.Accessors.{unw_esuccess, unw_ebadreg}
use libunwinder.Libunwind.{Library}
use libunwinder.AddressSpace.{StepOutcome, stepped, end_of_stack, Attempt, init_and_step}
use libunwinder.Unwind.{resumed_at, or_return, Returned, Backend, Request, unwind_with}
use libunwinder.UnwindIterator.{Unwinder}
use libunwinder.X8664
use libunwinder.X8664.{UnwindRegs, ReadStack, Step, store_at, sp, fallback_unwind_frame}

-- `RawRegsX86_64` has the fields of the public registers.
abbrev pub RawRegs : Type 0
RawRegs = UnwindRegs

abbrev pub from_public : ℕ → UnwindRegs → RawRegs
from_public ip regs = record regs { ip = ip }

abbrev pub unw_x86_64_rip : ℕ
unw_x86_64_rip = 16

-- `(0..16).contains(&reg).then_some(reg as usize)`
abbrev pub index_of : ℤ → Option ℕ
index_of (pos n) = if ltb n 16 then some n else none
index_of (negsuc n) = none

abbrev pub access_ip : ℕ → ℤ → RawRegs → (ℤ × ℕ) × RawRegs
access_ip val write raw =
    if is_zero write
    then ((unw_esuccess, raw.ip), raw)
    else ((unw_esuccess, val), record raw { ip = val })

abbrev pub access_at : Option ℕ → ℕ → ℤ → RawRegs → (ℤ × ℕ) × RawRegs
access_at none val write raw = ((neg unw_ebadreg, val), raw)
access_at (some i) val write raw =
    if not (is_zero write)
    then (
      (unw_esuccess, val),
      record raw { regs = store_at i val raw.regs; valid_regs = store_at i true raw.valid_regs },
    )
    else if raw.valid_regs i
    then ((unw_esuccess, raw.regs i), raw)
    else ((neg unw_ebadreg, val), raw)

-- `val` is what the out-pointer holds before the call.
unfoldable pub access_reg : ℤ → ℕ → ℤ → RawRegs → (ℤ × ℕ) × RawRegs
access_reg reg val write raw =
    if is_pos reg unw_x86_64_rip
    then access_ip val write raw
    else access_at (index_of reg) val write raw

-- `[UNW_REG_SP, UNW_X86_64_RBP]`
abbrev pub extra_regs : List ℤ
extra_regs = pos 7 ∷ pos 6 ∷ []

module _ (frame : FrameAddress) (regs : UnwindRegs) where
  abbrev pub advance : ℕ → ℕ → ℕ → Step
  advance new_ip new_sp new_bp =
      if new_ip == address frame && new_sp == sp regs
      then (err did_not_advance, regs)
      else (ok (some new_ip), X8664.stepped regs new_ip new_sp new_bp)

  abbrev pub step_to : UnwindCtx RawRegs → ℕ → List ℕ → Step
  step_to ctx new_ip extras =
      if new_ip == 0
      then (ok none, regs)
      else or_return (resumed_at ctx.modules ctx.caches frame ctx.lookup_ip new_ip) regs
          (λ ip. advance ip (get_or extras 0 0) (get_or extras 1 0))

abbrev pub backend : Backend RawRegs
backend = record { access_reg = access_reg; ip_reg = pos unw_x86_64_rip; extra_regs = extra_regs }

abbrev pub request : ReadStack → FrameAddress → UnwindRegs → Request RawRegs UnwindRegs
request read_stack frame regs = record {
  lookup_ip = address_for_lookup frame;
  raw = from_public (address_for_lookup frame) regs;
  regs = regs;
  step_to = step_to frame regs;
  fallback = fallback_unwind_frame read_stack (address frame) regs;
}

module _ {Cursor : Type 0} (lib : Library Cursor) (zeroed : Cursor) (modules : ModuleSet)
    (read_stack : ReadStack) where
  unfoldable pub unwind_frame : FrameAddress → UnwindRegs → CacheStore → Returned UnwindRegs
  unwind_frame frame regs caches =
      unwind_with lib zeroed backend modules read_stack (request read_stack frame regs) caches

  abbrev pub unwinder : Unwinder (UnwindRegs × CacheStore)
  unwinder = record {
    unwind_frame = λ frame s. unwind_frame frame s.0 s.1;
    is_signal_frame = λ frame s. is_signal_frame s.1 modules (address_for_lookup frame);
  }
