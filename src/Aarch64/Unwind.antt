-- ===== src/Aarch64/Unwind.antt =====
-- `unwind_frame` and `is_signal_frame` of src/aarch64.rs, and `access_reg` of src/callbacks.rs on the
-- registers that it lends to libunwind.
pub mod Steps
pub mod Promises
pub mod Registers
use libunwinder.Prelude.{
  ℕ, ◌==◌, ◌&&◌, List, [], ◌∷◌, Option, none, some, Result, ok, err, and_then, if◌then◌else◌,
  get_or,
}
use libunwinder.Prelude.Int.{ℤ, pos, neg, is_pos, is_zero}
use libunwinder.Error.{Error, did_not_advance}
use libunwinder.FrameAddress.{FrameAddress, address, address_for_lookup}
use libunwinder.ModuleSet.{ModuleSet, CacheStore, is_signal_frame}
use libunwinder.UnwindCtx.{UnwindCtx, ReadStack}
use libunwinder.Callbacks.Accessors.{unw_esuccess, unw_ebadreg}
use libunwinder.Libunwind.{Library}
use libunwinder.Unwind.{resumed_at, or_return, Returned, Backend, Request, unwind_with}
use libunwinder.UnwindIterator.{Unwinder}
use libunwinder.Aarch64.{UnwindRegs, Step, strip_ptr_auth, stepped_to, fallback_unwind_frame}

pub record RawRegs : Type 0 where
  pub pc : ℕ
  pub sp : ℕ
  pub fp : ℕ
  pub lr : ℕ

abbrev pub unw_aarch64_x29 : ℕ
unw_aarch64_x29 = 29

abbrev pub unw_aarch64_x30 : ℕ
unw_aarch64_x30 = 30

abbrev pub unw_aarch64_sp : ℕ
unw_aarch64_sp = 31

abbrev pub unw_aarch64_pc : ℕ
unw_aarch64_pc = 32

-- `if write != 0 { *slot = *val } else { *val = *slot }` on one field
abbrev pub access_slot : ℕ → ℕ → ℤ → RawRegs → RawRegs → (ℤ × ℕ) × RawRegs
access_slot slot val write raw written =
    if is_zero write then ((unw_esuccess, slot), raw) else ((unw_esuccess, val), written)

-- `val` is what the out-pointer holds before the call.
unfoldable pub access_reg : ℤ → ℕ → ℤ → RawRegs → (ℤ × ℕ) × RawRegs
access_reg reg val write raw =
    if is_pos reg unw_aarch64_pc
    then access_slot raw.pc val write raw (record raw { pc = val })
    else if is_pos reg unw_aarch64_sp
    then access_slot raw.sp val write raw (record raw { sp = val })
    else if is_pos reg unw_aarch64_x29
    then access_slot raw.fp val write raw (record raw { fp = val })
    else if is_pos reg unw_aarch64_x30
    then access_slot raw.lr val write raw (record raw { lr = val })
    else ((neg unw_ebadreg, val), raw)

-- `ffi::reg_ip()` is the link register.
abbrev pub backend : Backend RawRegs
backend = record {
  access_reg = access_reg;
  ip_reg = pos unw_aarch64_x30;
  extra_regs = pos unw_aarch64_sp ∷ pos unw_aarch64_x29 ∷ pos unw_aarch64_x30 ∷ [];
}

module _ (frame : FrameAddress) (regs : UnwindRegs) where
  abbrev pub current_ip : ℕ
  current_ip = strip_ptr_auth regs.lr_mask (address frame)

  abbrev pub lookup_ip : ℕ
  lookup_ip = strip_ptr_auth regs.lr_mask (address_for_lookup frame)

  abbrev pub advance : ℕ → List ℕ → Step
  advance return_address extras =
      if return_address == current_ip && get_or extras 0 0 == regs.sp
      then (err did_not_advance, regs)
      else (
        ok (some return_address),
        stepped_to regs (get_or extras 2 0) (get_or extras 0 0) (get_or extras 1 0),
      )

  abbrev pub step_to : UnwindCtx RawRegs → ℕ → List ℕ → Step
  step_to ctx new_ip extras =
      if strip_ptr_auth regs.lr_mask new_ip == 0
      then (ok none, regs)
      else or_return
          (resumed_at ctx.modules ctx.caches frame ctx.lookup_ip
            (strip_ptr_auth regs.lr_mask new_ip))
          regs (λ return_address. advance return_address extras)

  abbrev pub request : ReadStack → Request RawRegs UnwindRegs
  request read_stack = record {
    lookup_ip = lookup_ip;
    raw = record { pc = lookup_ip; sp = regs.sp; fp = regs.fp; lr = regs.lr };
    regs = regs;
    step_to = step_to;
    fallback = fallback_unwind_frame read_stack current_ip regs;
  }

module _ {Cursor : Type 0} (lib : Library Cursor) (zeroed : Cursor) (modules : ModuleSet)
    (read_stack : ReadStack) where
  unfoldable pub unwind_frame : FrameAddress → UnwindRegs → CacheStore → Returned UnwindRegs
  unwind_frame frame regs caches =
      unwind_with lib zeroed backend modules read_stack (request frame regs read_stack) caches

  abbrev pub unwinder : Unwinder (UnwindRegs × CacheStore)
  unwinder = record {
    unwind_frame = λ frame s. unwind_frame frame s.0 s.1;
    is_signal_frame = λ frame s. is_signal_frame s.1 modules (lookup_ip frame s.0);
  }
