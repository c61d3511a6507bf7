-- ===== src/Unwind.antt =====
-- What `unwind_frame` of src/x86_64.rs and of src/aarch64.rs both spell out around a step through
-- libunwind.
pub mod Errors
pub mod Promises
pub mod Total
use libunwinder.Prelude.{
  ℕ, ◌&&◌, not, Bool, true, false, List, Option, none, some, Result, ok, err, panic, ok_or,
  checked_add, if◌then◌else◌,
}
use libunwinder.Error.{
  Error, UnwindInfoError, LibunwindError, could_not_read_stack, unwind_info, libunwind,
  integer_overflow,
}
use libunwinder.Prelude.Int.{ℤ}
use libunwinder.UnwindCtx.{UnwindCtx, ReadStack}
use libunwinder.Libunwind.{Library}
use libunwinder.AddressSpace.{StepOutcome, stepped, end_of_stack, Attempt, init_and_step}
use libunwinder.FrameAddress.{FrameAddress, is_return_address}
use libunwinder.ModuleSet.{
  ModuleSet, CacheStore, is_signal_frame, contains_address, unwind_info_error, has_unwind_info,
}

-- A failed read of the stack says most, then an error of our own lookup, then libunwind's.
abbrev pub error_of : Option ℕ → Option UnwindInfoError → LibunwindError → Error
error_of (some addr) info e = could_not_read_stack addr
error_of none (some info) e = unwind_info info
error_of none none e = libunwind e

-- Behind a call that is no signal frame the address is that of the call, in a known module.
unfoldable pub resumed_at : ModuleSet → CacheStore → FrameAddress → ℕ → ℕ → Result Error ℕ
resumed_at modules caches frame lookup_ip new_ip =
    if is_return_address frame
      && not (is_signal_frame caches modules lookup_ip)
      && contains_address modules new_ip
    then ok_or (checked_add new_ip 1) integer_overflow
    else ok new_ip

-- What a function with `regs: &mut` returns, and the registers as it leaves them, errors included.
abbrev pub Stepped : Type 0 → Type 0
Stepped Regs = Result Error (Option ℕ) × Regs

abbrev pub Returned : Type 0 → Type 0
Returned Regs = Result Error (Option ℕ) × (Regs × CacheStore)

-- `?`: an error returns at once, with the registers as they stand.
abbrev pub or_return : {A Regs : Type 0} → Result Error A → Regs → (A → Stepped Regs) → Stepped Regs
or_return (ok a) regs next = next a
or_return (err e) regs next = (err e, regs)
or_return panic regs next = (panic, regs)

-- The caches beside the registers.
abbrev pub commit : {Regs : Type 0} → CacheStore → Stepped Regs → Returned Regs
commit caches (ra, regs) = (ra, (regs, caches))

-- The registers that an architecture lends to libunwind.
pub record Backend (Raw : Type 0) : Type 0 where
  pub access_reg : ℤ → ℕ → ℤ → Raw → (ℤ × ℕ) × Raw
  pub ip_reg : ℤ
  pub extra_regs : List ℤ

-- One call of `unwind_frame`: what it looks up, what it makes of a step to a new instruction
-- pointer, and what the frame pointer gives.
pub record Request (Raw Regs : Type 0) : Type 0 where
  pub lookup_ip : ℕ
  pub raw : Raw
  pub regs : Regs
  pub step_to : UnwindCtx Raw → ℕ → List ℕ → Stepped Regs
  pub fallback : Stepped Regs

module _ {Raw Regs : Type 0} (r : Request Raw Regs) where
  abbrev pub conclude : UnwindCtx Raw → Attempt StepOutcome → Stepped Regs
  conclude ctx (ok end_of_stack) = (ok none, r.regs)
  conclude ctx (ok (stepped new_ip extras)) = r.step_to ctx new_ip extras
  conclude ctx (err e) = (err (error_of ctx.last_failed_read_addr ctx.unwind_info_error e), r.regs)
  conclude ctx panic = (panic, r.regs)

  abbrev pub concluded : CacheStore → Option (Attempt StepOutcome × UnwindCtx Raw) → Returned Regs
  concluded caches none = (panic, (r.regs, caches))
  concluded caches (some (outcome, ctx)) = commit ctx.caches (conclude ctx outcome)

module _ {Cursor Raw Regs : Type 0} (lib : Library Cursor) (zeroed : Cursor) (b : Backend Raw)
    (modules : ModuleSet) (read_stack : ReadStack) (r : Request Raw Regs) where
  abbrev pub context : CacheStore → UnwindCtx Raw
  context caches = record {
    modules = modules;
    regs = r.raw;
    lookup_ip = r.lookup_ip;
    read_fn = read_stack;
    last_failed_read_addr = none;
    unwind_info_error = none;
    caches = caches;
  }

  abbrev pub ask : CacheStore → Option (Attempt StepOutcome × UnwindCtx Raw)
  ask caches = init_and_step lib b.access_reg b.ip_reg b.extra_regs zeroed (context caches)

  -- By what the modules say of the address: why it has no tables, or whether it has them.
  abbrev pub unwind_by : Option UnwindInfoError → Bool → CacheStore → Returned Regs
  unwind_by (some e) covered caches = (err (unwind_info e), (r.regs, caches))
  unwind_by none true caches = concluded r caches (ask caches)
  unwind_by none false caches = commit caches r.fallback

  abbrev pub unwind_with : CacheStore → Returned Regs
  unwind_with caches =
      unwind_by (unwind_info_error modules r.lookup_ip) (has_unwind_info modules r.lookup_ip) caches
