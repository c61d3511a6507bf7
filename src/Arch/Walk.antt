-- ===== src/Arch/Walk.antt =====
-- A walk that fails, by the unwinder of either architecture, over any modules and any libunwind: each
-- step hands its caches on to the next.
use libunwinder.Prelude.{
  arith, ℕ, zero, suc, ◌≡◌, Bool, true, false, Option, none, some, Result, ok, err, panic, List,
}
use libunwinder.Error.{Error}
use libunwinder.FrameAddress.{FrameAddress, instruction_pointer, from_return_address}
use libunwinder.Module.{ModuleData}
use libunwinder.ModuleSet.{ModuleSet, CacheStore}
use libunwinder.ModuleSet.Lookup.{IsWellFormed}
use libunwinder.UnwindCtx.{ReadStack}
use libunwinder.Libunwind.{Library}
use libunwinder.Callbacks.Context.{OwnsCaches, AreCachesOf}
use libunwinder.UnwindIterator.{
  UnwindIterator, UnwindIteratorState, initial, unwinding, done, Next, give, resume, step_from,
  next_in, next, walk, continue_with, End, failed,
}
use libunwinder.Unwind.Errors.{IsExplained}
use libunwinder.Arch.{
  Arch, UnwindRegs, unwinder, unwind_frame-AreCachesOf, unwind_frame-IsExplained,
}

module _ (arch : Arch) {Cursor : Type 0} (lib : Library Cursor) (zeroed : Cursor)
    (modules : ModuleSet) (read : ReadStack) (made : ℕ → ModuleData)
    (well_formed : IsWellFormed modules) (owns : OwnsCaches made modules) where
  abbrev Iterator : Type 0
  Iterator = UnwindIterator (UnwindRegs arch × CacheStore)

  abbrev IsKept : Iterator → Type 0
  IsKept it = AreCachesOf made it.regs.1

  abbrev IsBlamed : Error → Type 0
  IsBlamed e = (ip : ℕ) × IsExplained modules read ip e

  -- The caches of the iterator behind `next`, and the reason of its error.
  record IsSafe (n : Next (UnwindRegs arch × CacheStore)) : Type 0 where
    kept : IsKept n.1
    blamed : (e : Error) → n.0 ≡ err e → IsBlamed e

  give-IsSafe :
      (f : Option FrameAddress) (regs : UnwindRegs arch × CacheStore)
      → AreCachesOf made regs.1
      → IsSafe (give f regs)
  give-IsSafe none regs all = record { kept = all; blamed = λ e h. cc }
  give-IsSafe (some f) regs all = record { kept = all; blamed = λ e h. cc }

  resume-IsSafe :
      (interrupted : Bool) (ra : Option ℕ) (regs : UnwindRegs arch × CacheStore)
      → AreCachesOf made regs.1
      → IsSafe (resume interrupted ra regs)
  resume-IsSafe true none regs all = give-IsSafe none regs all
  resume-IsSafe false none regs all = give-IsSafe none regs all
  resume-IsSafe true (some ra) regs all = give-IsSafe (some (instruction_pointer ra)) regs all
  resume-IsSafe false (some ra) regs all = give-IsSafe (from_return_address ra) regs all

  step_from-IsSafe :
      (frame : FrameAddress) (r : Result Error (Option ℕ) × (UnwindRegs arch × CacheStore))
      → AreCachesOf made r.1.1
      → ((e : Error) → r.0 ≡ err e → IsBlamed e)
      → IsSafe (step_from (unwinder arch lib zeroed modules read) frame r)
  step_from-IsSafe frame (ok ra, regs) all why = resume-IsSafe _ ra regs all
  step_from-IsSafe frame (err x, regs) all why = record {
    kept = all;
    blamed = λ e h. why e (ground arith);
  }
  step_from-IsSafe frame (panic, regs) all why = record { kept = all; blamed = λ e h. cc }

  next-IsSafe :
      (it : Iterator) → IsKept it → IsSafe (next (unwinder arch lib zeroed modules read) it)
  unfolding next
  next-IsSafe it all = by_state it.state
    where
      by_state :
          (s : UnwindIteratorState) → IsSafe (next_in (unwinder arch lib zeroed modules read) s it)
      by_state (initial pc) = give-IsSafe (some (instruction_pointer pc)) it.regs all
      by_state (unwinding f) =
          step_from-IsSafe f ((unwinder arch lib zeroed modules read).unwind_frame f it.regs)
            (unwind_frame-AreCachesOf lib zeroed modules read made well_formed owns arch f it.regs
              all)
            (λ e h.
              unwind_frame-IsExplained lib zeroed modules read made well_formed owns arch f it.regs
                e all h)
      by_state done = record { kept = all; blamed = λ e h. cc }

  continue_with-IsBlamed :
      (r : Result Error (Option FrameAddress)) (rest : List FrameAddress × End) (e : Error)
      → ((x : Error) → r ≡ err x → IsBlamed x)
      → (rest.1 ≡ failed e → IsBlamed e)
      → (continue_with r rest).1 ≡ failed e
      → IsBlamed e
  continue_with-IsBlamed (ok (some f)) rest e here later h = later h
  continue_with-IsBlamed (ok none) rest e here later h = cc
  continue_with-IsBlamed (err x) rest e here later h = here e (ground arith)
  continue_with-IsBlamed panic rest e here later h = cc

  -- On either architecture, if a walk over a well-formed index whose modules have caches of their
  -- own with parses of them ends with an error, whatever libunwind does, the error is true of the
  -- stack and the modules: a read that it reports failed, and unwind information that it reports
  -- missing is missing for an address.
  pub walk-failed :
      (fuel : ℕ) (it : UnwindIterator (UnwindRegs arch × CacheStore)) (e : Error)
      → AreCachesOf made it.regs.1
      → (walk (unwinder arch lib zeroed modules read) fuel it).1 ≡ failed e
      → (ip : ℕ) × IsExplained modules read ip e
  unfolding walk
  walk-failed zero it e all h = cc
  walk-failed (suc fuel) it e all h =
      let safe = next-IsSafe it all in
      continue_with-IsBlamed (next (unwinder arch lib zeroed modules read) it).0 _ e safe.blamed
        (walk-failed fuel (next (unwinder arch lib zeroed modules read) it).1 e safe.kept) h
