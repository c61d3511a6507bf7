-- ===== src/UnwindIterator.antt =====
-- `Unwinder` and `UnwindIterator` of src/module.rs. An unwinder is what its two methods do; `Regs` is
-- all that they change, the registers and what is behind the caches.
pub mod Steps
use libunwinder.Prelude.{
  ℕ, zero, suc, List, [], ◌∷◌, Bool, true, false, Option, none, some, Result, ok, err, panic,
}
use libunwinder.Error.{Error}
use libunwinder.FrameAddress.{FrameAddress, instruction_pointer, from_return_address}

pub record Unwinder (Regs : Type 0) : Type 0 where
  pub unwind_frame : FrameAddress → Regs → Result Error (Option ℕ) × Regs
  pub is_signal_frame : FrameAddress → Regs → Bool

pub data UnwindIteratorState : Type 0 where
  initial : (pc : ℕ) → UnwindIteratorState
  unwinding : FrameAddress → UnwindIteratorState
  done : UnwindIteratorState

pub record UnwindIterator (Regs : Type 0) : Type 0 where
  pub state : UnwindIteratorState
  pub regs : Regs

abbrev pub Next : Type 0 → Type 0
Next Regs = Result Error (Option FrameAddress) × UnwindIterator Regs

abbrev pub iter_frames : {Regs : Type 0} → ℕ → Regs → UnwindIterator Regs
iter_frames pc regs = record { state = initial pc; regs = regs }

module _ {Regs : Type 0} where
  abbrev pub give : Option FrameAddress → Regs → Next Regs
  give none regs = (ok none, record { state = done; regs = regs })
  give (some frame) regs = (ok (some frame), record { state = unwinding frame; regs = regs })

  -- An interrupted frame is resumed at its instruction, every other behind its call.
  abbrev pub resume : Bool → Option ℕ → Regs → Next Regs
  resume interrupted none regs = give none regs
  resume true (some ra) regs = give (some (instruction_pointer ra)) regs
  resume false (some ra) regs = give (from_return_address ra) regs

  module _ (u : Unwinder Regs) where
    abbrev pub step_from : FrameAddress → Result Error (Option ℕ) × Regs → Next Regs
    step_from frame (ok ra, regs) = resume (u.is_signal_frame frame regs) ra regs
    step_from frame (err e, regs) = (err e, record { state = unwinding frame; regs = regs })
    step_from frame (panic, regs) = (panic, record { state = unwinding frame; regs = regs })

    abbrev pub next_in : UnwindIteratorState → UnwindIterator Regs → Next Regs
    next_in (initial pc) it = give (some (instruction_pointer pc)) it.regs
    next_in (unwinding frame) it = step_from frame (u.unwind_frame frame it.regs)
    next_in done it = (ok none, it)

    unfoldable pub next : UnwindIterator Regs → Next Regs
    next it = next_in it.state it

-- How a walk ended: at the end of the stack, with an error, with a panic, or not yet.
pub data End : Type 0 where
  finished : End
  failed : Error → End
  stopped : End
  unfinished : End

abbrev pub continue_with :
    Result Error (Option FrameAddress) → List FrameAddress × End → List FrameAddress × End
continue_with (ok (some frame)) rest = (frame ∷ rest.0, rest.1)
continue_with (ok none) rest = ([], finished)
continue_with (err e) rest = ([], failed e)
continue_with panic rest = ([], stopped)

-- The frames that a caller gets who asks until there are none, or until an error.
unfoldable pub walk :
    {Regs : Type 0} → Unwinder Regs → ℕ → UnwindIterator Regs → List FrameAddress × End
walk u zero it = ([], unfinished)
walk u (suc fuel) it = continue_with (next u it).0 (walk u fuel (next u it).1)
