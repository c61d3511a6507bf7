-- ===== src/Aarch64.antt =====
-- src/aarch64.rs: pointer authentication masks, the registers of a frame, and the frame-pointer
-- fallback. Words are numbers below 2 ^ 64.
pub mod Masks
pub mod Fallback
pub mod Unwind
use libunwinder.Prelude.{
  ℕ, ◌+◌, Bool, ◌&&◌, not, Option, none, some, Result, ok, err, and_then, ok_or, leb, ◌==◌,
  if◌then◌else◌, checked_add, bit_and, u64_max,
}
use libunwinder.Prelude.Masks.{leading_zeros, max_shifted}
use libunwinder.Error.{
  Error, could_not_read_stack, framepointer_unwinding_moved_backwards, did_not_advance,
  integer_overflow,
}
use libunwinder.UnwindCtx.{ReadStack}
use libunwinder.Unwind.{Stepped, or_return}

-- The word of a `PtrAuthMask`.
abbrev pub PtrAuthMask : Type 0
PtrAuthMask = ℕ

abbrev pub new_no_strip : PtrAuthMask
new_no_strip = u64_max

abbrev pub new_24_40 : PtrAuthMask
new_24_40 = max_shifted 24

unfoldable pub from_max_known_address : ℕ → PtrAuthMask
from_max_known_address address =
    if address == 0 then new_no_strip else max_shifted (leading_zeros address)

unfoldable pub strip_ptr_auth : PtrAuthMask → ℕ → ℕ
strip_ptr_auth mask addr = bit_and addr mask

pub record UnwindRegs : Type 0 where
  pub lr_mask : PtrAuthMask
  pub lr : ℕ
  pub sp : ℕ
  pub fp : ℕ

abbrev pub new_with_ptr_auth_mask : PtrAuthMask → ℕ → ℕ → ℕ → UnwindRegs
new_with_ptr_auth_mask mask lr sp fp = record {
  lr_mask = mask;
  lr = strip_ptr_auth mask lr;
  sp = sp;
  fp = fp;
}

abbrev pub new : ℕ → ℕ → ℕ → UnwindRegs
new lr sp fp = new_with_ptr_auth_mask new_no_strip lr sp fp

abbrev pub set_lr : UnwindRegs → ℕ → UnwindRegs
set_lr r lr = record r { lr = strip_ptr_auth r.lr_mask lr }

abbrev pub set_sp : UnwindRegs → ℕ → UnwindRegs
set_sp r sp = record r { sp = sp }

abbrev pub set_fp : UnwindRegs → ℕ → UnwindRegs
set_fp r fp = record r { fp = fp }

-- The registers of the frame that is stepped to.
abbrev pub stepped_to : UnwindRegs → ℕ → ℕ → ℕ → UnwindRegs
stepped_to r lr sp fp = set_fp (set_sp (set_lr r lr) sp) fp

abbrev pub Step : Type 0
Step = Stepped UnwindRegs

abbrev pub read_stack_at : ReadStack → ℕ → Result Error ℕ
read_stack_at read addr = ok_or (read addr) (could_not_read_stack addr)

abbrev pub backwards : Bool → Result Error (Unit {0})
backwards t = if t then err framepointer_unwinding_moved_backwards else ok tt

abbrev pub return_to : UnwindRegs → ℕ → ℕ → ℕ → ℕ → Step
return_to regs current_ip new_lr new_sp new_fp =
    let return_address = strip_ptr_auth regs.lr_mask new_lr in
    if return_address == 0
    then (ok none, regs)
    else if return_address == current_ip && new_sp == regs.sp
    then (err did_not_advance, regs)
    else (ok (some return_address), stepped_to regs new_lr new_sp new_fp)

unfoldable pub fallback_unwind_frame : ReadStack → ℕ → UnwindRegs → Step
fallback_unwind_frame read current_ip regs =
    if regs.fp == 0
    then (ok none, regs)
    else or_return (ok_or (checked_add regs.fp 8) integer_overflow) regs λ return_address_location.
      or_return (ok_or (checked_add regs.fp 16) integer_overflow) regs λ new_sp.
        or_return (backwards (leb new_sp regs.sp)) regs λ _.
          or_return (read_stack_at read regs.fp) regs λ new_fp.
            or_return (backwards (not (new_fp == 0) && leb new_fp regs.fp)) regs λ _.
              or_return (read_stack_at read return_address_location) regs
                λ new_lr. return_to regs current_ip new_lr new_sp new_fp
