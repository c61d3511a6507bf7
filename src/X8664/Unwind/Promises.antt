-- ===== src/X8664/Unwind/Promises.antt =====
-- What `unwind_frame` of src/x86_64.rs promises, whatever libunwind does.
use libunwinder.Prelude.{ℕ, ◌≡◌, ◌≢◌, some, ok, err, panic}
use libunwinder.Error.{Error}
use libunwinder.FrameAddress.{FrameAddress}
use libunwinder.Module.{ModuleData}
use libunwinder.ModuleSet.{ModuleSet, CacheStore}
use libunwinder.ModuleSet.Lookup.{IsWellFormed}
use libunwinder.UnwindCtx.{ReadStack}
use libunwinder.Libunwind.{Library}
use libunwinder.Callbacks.Context.{OwnsCaches, AreCachesOf}
use libunwinder.Libunwind.Total.{HasStatuses}
use libunwinder.Callbacks.Total.{IsServable}
use libunwinder.Unwind.Total.{unwind_with-ne-panic}
use libunwinder.Unwind.Errors.{IsFailure}
use libunwinder.Unwind.Promises.{unwind_with-some, unwind_with-AreCachesOf, unwind_with-IsFailure}
use libunwinder.X8664.{UnwindRegs}
use libunwinder.X8664.Unwind.{backend, request, unwind_frame}
use libunwinder.X8664.Unwind.Steps.{
  request-NeverPanics, IsAdvance, request-AllSteps, request-HasTrueErrors,
}

module _ {Cursor : Type 0} (lib : Library Cursor) (zeroed : Cursor) (modules : ModuleSet)
    (read : ReadStack) (frame : FrameAddress) (regs : UnwindRegs) (caches : CacheStore) where
  -- The address of a frame that `unwind_frame` finds is not zero, whatever libunwind does; the
  -- frame differs from the one it was called for in its address or its stack pointer; the
  -- instruction pointer is set to it and only the stack and frame pointer are known.
  pub unwind_frame-IsAdvance :
      (ra : ℕ)
      → (unwind_frame lib zeroed modules read frame regs caches).0 ≡ ok (some ra)
      → IsAdvance frame regs ra (unwind_frame lib zeroed modules read frame regs caches).1.0
  unfolding unwind_frame
  unwind_frame-IsAdvance ra h =
      unwind_with-some lib zeroed backend modules read (request read frame regs) caches
        (IsAdvance frame regs) ra (request-AllSteps read frame regs) h

  -- `unwind_frame` returns a frame, the end of the stack or an error if libunwind returns, with
  -- statuses above `i32::MIN`, and the modules are servable: well-formed and mirrored below the
  -- last address, with entries that do not stop the parsers.
  pub unwind_frame-ne-panic :
      HasStatuses lib
      → IsServable modules
      → (unwind_frame lib zeroed modules read frame regs caches).0 ≢ panic
  unfolding unwind_frame
  unwind_frame-ne-panic statuses servable =
      unwind_with-ne-panic (request read frame regs) (request-NeverPanics read frame regs) lib
        zeroed backend modules read caches statuses servable

  module _ (made : ℕ → ModuleData) (well_formed : IsWellFormed modules)
      (owns : OwnsCaches made modules) (all : AreCachesOf made caches) where
    -- If every module has a cache of its own with parses of the module, `unwind_frame` keeps that,
    -- whatever libunwind does.
    pub unwind_frame-AreCachesOf :
        AreCachesOf made (unwind_frame lib zeroed modules read frame regs caches).1.1
    unfolding unwind_frame
    unwind_frame-AreCachesOf =
        unwind_with-AreCachesOf lib zeroed backend modules read (request read frame regs) caches
          made well_formed owns all

    -- In a well-formed index whose modules have caches of their own with parses of them, where
    -- `unwind_frame` fails it leaves the registers as they were, and the error is true, whatever
    -- libunwind does: a read that is reported failed, and unwind information that is reported
    -- missing is missing for the looked-up address.
    pub unwind_frame-IsFailure :
        (e : Error)
        → (unwind_frame lib zeroed modules read frame regs caches).0 ≡ err e
        → IsFailure modules read
            (request read frame regs)
            (unwind_frame lib zeroed modules read frame regs caches)
            e
    unfolding unwind_frame
    unwind_frame-IsFailure e h =
        unwind_with-IsFailure lib zeroed backend modules read (request read frame regs) caches made
          well_formed owns all e (request-HasTrueErrors modules read frame regs) h
