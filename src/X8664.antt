-- ===== src/X8664.antt =====
-- src/x86_64.rs: the registers of a frame and the frame-pointer fallback. The sixteen registers are
-- a function of their index, and `valid_regs` a set of indices.
pub mod Fallback
pub mod Walk
pub mod Unwind
pub use libunwinder.UnwindCtx.{ReadStack}
use libunwinder.Unwind.{Stepped, or_return}
use libunwinder.Prelude.{
  ℕ, suc, ◌+◌, ◌≤◌, Bool, true, false, ◌||◌, ◌&&◌, not, Option, none, some, Result, ok, err, panic,
  and_then, ok_or, map_err, ltb, leb, ◌==◌, if◌then◌else◌, checked_add,
}
use libunwinder.Error.{
  Error, could_not_read_stack, framepointer_unwinding_moved_backwards, did_not_advance,
  integer_overflow,
}

pub data Reg : Type 0 where
  rax rdx rcx rbx rsi rdi rbp rsp r8 r9 r10 r11 r12 r13 r14 r15 : Reg

-- `reg as usize`
abbrev pub index : Reg → ℕ
index rax = 0
index rdx = 1
index rcx = 2
index rbx = 3
index rsi = 4
index rdi = 5
index rbp = 6
index rsp = 7
index r8 = 8
index r9 = 9
index r10 = 10
index r11 = 11
index r12 = 12
index r13 = 13
index r14 = 14
index r15 = 15

pub record UnwindRegs : Type 0 where
  pub ip : ℕ
  pub regs : ℕ → ℕ
  pub valid_regs : ℕ → Bool

abbrev pub get : UnwindRegs → Reg → ℕ
get r reg = r.regs (index reg)

unfoldable pub get_if_set : UnwindRegs → Reg → Option ℕ
get_if_set r reg = if r.valid_regs (index reg) then some (get r reg) else none

abbrev pub store_at : {A : Type 0} → ℕ → A → (ℕ → A) → ℕ → A
store_at i a f j = if j == i then a else f j

unfoldable pub set : UnwindRegs → Reg → ℕ → UnwindRegs
set r reg value = record {
  ip = r.ip;
  regs = store_at (index reg) value r.regs;
  valid_regs = store_at (index reg) true r.valid_regs;
}

unfoldable pub clear_unrestored_caller_registers : UnwindRegs → UnwindRegs
clear_unrestored_caller_registers r = record r {
  valid_regs = λ i. i == index rsp || i == index rbp;
}

abbrev pub set_ip : UnwindRegs → ℕ → UnwindRegs
set_ip r ip = record r { ip = ip }

abbrev pub sp : UnwindRegs → ℕ
sp r = get r rsp

abbrev pub set_sp : UnwindRegs → ℕ → UnwindRegs
set_sp r v = set r rsp v

abbrev pub bp : UnwindRegs → ℕ
bp r = get r rbp

abbrev pub set_bp : UnwindRegs → ℕ → UnwindRegs
set_bp r v = set r rbp v

unfoldable pub new : ℕ → ℕ → ℕ → UnwindRegs
new ip sp bp = set_bp (set_sp (record { ip = ip; regs = λ i. 0; valid_regs = λ i. false }) sp) bp

-- The registers of the frame that is stepped to.
abbrev pub stepped : UnwindRegs → ℕ → ℕ → ℕ → UnwindRegs
stepped r ip sp bp = set_bp (set_sp (set_ip (clear_unrestored_caller_registers r) ip) sp) bp

abbrev pub read_stack_at : ReadStack → ℕ → Result Error ℕ
read_stack_at read addr = ok_or (read addr) (could_not_read_stack addr)

-- The return address, or `none` at the end of the stack, with the registers as the step leaves them.
abbrev pub Step : Type 0
Step = Stepped UnwindRegs

abbrev pub backwards : Bool → Result Error (Unit {0})
backwards t = if t then err framepointer_unwinding_moved_backwards else ok tt

abbrev pub return_to : UnwindRegs → ℕ → ℕ → ℕ → ℕ → Step
return_to regs current_ip return_address new_sp new_bp =
    if return_address == 0
    then (ok none, regs)
    else if new_sp == sp regs && return_address == current_ip
    then (err did_not_advance, regs)
    else (ok (some return_address), stepped regs return_address new_sp new_bp)

unfoldable pub fallback_unwind_frame : ReadStack → ℕ → UnwindRegs → Step
fallback_unwind_frame read current_ip regs =
    if bp regs == 0
    then (ok none, regs)
    else or_return (ok_or (checked_add (bp regs) 8) integer_overflow) regs
        λ return_address_location.
          or_return (ok_or (checked_add (bp regs) 16) integer_overflow) regs λ new_sp.
            or_return (backwards (leb new_sp (sp regs))) regs λ _.
              or_return (read_stack_at read (bp regs)) regs λ new_bp.
                or_return (backwards (not (new_bp == 0) && leb new_bp (bp regs))) regs λ _.
                  or_return (read_stack_at read return_address_location) regs
                    λ return_address. return_to regs current_ip return_address new_sp new_bp
