-- ===== src/Arch.antt =====
-- The unwinders of src/x86_64.rs and src/aarch64.rs as one: what holds of either, whatever libunwind
-- does.
pub mod Walk
pub mod Reach
use libunwinder.Prelude.{◌≡◌, ◌≢◌, ℕ, err, panic}
use libunwinder.Error.{Error}
use libunwinder.FrameAddress.{FrameAddress, address_for_lookup}
use libunwinder.Module.{ModuleData}
use libunwinder.ModuleSet.{ModuleSet, CacheStore}
use libunwinder.ModuleSet.Lookup.{IsWellFormed}
use libunwinder.UnwindCtx.{ReadStack}
use libunwinder.Libunwind.{Library}
use libunwinder.Callbacks.Context.{OwnsCaches, AreCachesOf}
use libunwinder.Callbacks.Total.{IsServable}
use libunwinder.Libunwind.Total.{HasStatuses}
use libunwinder.Unwind.Errors.{IsExplained}
use libunwinder.UnwindIterator.{Unwinder}
use libunwinder.X8664
use libunwinder.Aarch64

pub data Arch : Type 0 where
  x86_64 : Arch
  aarch64 : Arch

abbrev pub UnwindRegs : Arch → Type 0
UnwindRegs x86_64 = X8664.UnwindRegs
UnwindRegs aarch64 = Aarch64.UnwindRegs

abbrev pub unwinder :
    (arch : Arch) {Cursor : Type 0}
    → Library Cursor
    → Cursor
    → ModuleSet
    → ReadStack
    → Unwinder (UnwindRegs arch × CacheStore)
unwinder x86_64 = X8664.Unwind.unwinder
unwinder aarch64 = Aarch64.Unwind.unwinder

module _ {Cursor : Type 0} (lib : Library Cursor) (zeroed : Cursor) (modules : ModuleSet)
    (read : ReadStack) where
  -- On either architecture `unwind_frame` returns a frame, the end of the stack or an error if
  -- libunwind returns, with statuses above `i32::MIN`, and the modules are servable: well-formed
  -- and mirrored below the last address, with entries that do not stop the parsers.
  pub unwind_frame-ne-panic :
      (arch : Arch) (frame : FrameAddress) (s : UnwindRegs arch × CacheStore)
      → HasStatuses lib
      → IsServable modules
      → ((unwinder arch lib zeroed modules read).unwind_frame frame s).0 ≢ panic
  unwind_frame-ne-panic x86_64 frame s =
      X8664.Unwind.Promises.unwind_frame-ne-panic lib zeroed modules read frame s.0 s.1
  unwind_frame-ne-panic aarch64 frame s =
      Aarch64.Unwind.Promises.unwind_frame-ne-panic lib zeroed modules read frame s.0 s.1

module _ {Cursor : Type 0} (lib : Library Cursor) (zeroed : Cursor) (modules : ModuleSet)
    (read : ReadStack) (made : ℕ → ModuleData) (well_formed : IsWellFormed modules)
    (owns : OwnsCaches made modules) where
  -- A step keeps the caches those of the modules.
  pub unwind_frame-AreCachesOf :
      (arch : Arch) (frame : FrameAddress) (s : UnwindRegs arch × CacheStore)
      → AreCachesOf made s.1
      → AreCachesOf made ((unwinder arch lib zeroed modules read).unwind_frame frame s).1.1
  unwind_frame-AreCachesOf x86_64 frame s all =
      X8664.Unwind.Promises.unwind_frame-AreCachesOf lib zeroed modules read frame s.0 s.1 made
        well_formed owns all
  unwind_frame-AreCachesOf aarch64 frame s all =
      Aarch64.Unwind.Promises.unwind_frame-AreCachesOf lib zeroed modules read frame s.0 s.1 made
        well_formed owns all

  -- The error of a step is true of the stack and the modules.
  pub unwind_frame-IsExplained :
      (arch : Arch) (frame : FrameAddress) (s : UnwindRegs arch × CacheStore) (e : Error)
      → AreCachesOf made s.1
      → ((unwinder arch lib zeroed modules read).unwind_frame frame s).0 ≡ err e
      → (ip : ℕ) × IsExplained modules read ip e
  unwind_frame-IsExplained x86_64 frame s e all h = (
    _,
    (X8664.Unwind.Promises.unwind_frame-IsFailure lib zeroed modules read frame s.0 s.1 made
        well_formed owns all e h).0,
  )
  unwind_frame-IsExplained aarch64 frame s e all h = (
    _,
    (Aarch64.Unwind.Promises.unwind_frame-IsFailure lib zeroed modules read frame s.0 s.1 made
        well_formed owns all e h).0,
  )
