-- ===== src/X8664/Walk/Termination.antt =====
-- Every walk by the frame pointer ends, whatever the stack holds: the stack pointer grows.
use mathlib.Core.Path.{subst}
use libunwinder.Prelude.{
  ℕ, zero, suc, ◌+◌, ◌-◌, ◌<◌, ◌^◌, ◌≡◌, ◌∙◌, ap, sym, refl, arith, List, Option, none, some,
  Result, ok, err, panic,
}
use libunwinder.Error.{Error}
use libunwinder.FrameAddress.{FrameAddress, instruction_pointer, return_address, address}
use libunwinder.UnwindIterator.{
  UnwindIterator, iter_frames, next, walk, continue_with, End, finished, failed, stopped,
  unfinished,
}
use libunwinder.ModuleSet.{ModuleSet, CacheStore}
use libunwinder.Libunwind.{Library}
use libunwinder.X8664.Unwind.{unwinder}
use libunwinder.X8664.{UnwindRegs, ReadStack, Step, fallback_unwind_frame, stepped, sp, bp}
use libunwinder.X8664.Fallback.{fallback_unwind_frame-some, fallback_unwind_frame-ne-panic}
use libunwinder.X8664.Walk.{IsBare, at_frame, walk-next, next-fallback, next-frame, stepped-sp}

-- At the end of the stack or with an error.
abbrev pub HasEnded : End → Type 0
HasEnded finished = Unit
HasEnded (failed e) = Unit
HasEnded stopped = ⊥
HasEnded unfinished = ⊥

module _ {Cursor : Type 0} (lib : Library Cursor) (zeroed : Cursor) (modules : ModuleSet)
    (read : ReadStack) (caches : CacheStore) (bare : IsBare modules caches) where
  abbrev Ends : ℕ → UnwindIterator (UnwindRegs × CacheStore) → Type 0
  Ends fuel it = HasEnded (walk (unwinder lib zeroed modules read) fuel it).1

  ends :
      (fuel : ℕ) (it it' : UnwindIterator (UnwindRegs × CacheStore))
      (r : Result Error (Option FrameAddress))
      → next (unwinder lib zeroed modules read) it ≡ (r, it')
      → HasEnded (continue_with r (walk (unwinder lib zeroed modules read) fuel it')).1
      → Ends (suc fuel) it
  ends fuel it it' r e h =
      subst (λ (x : List FrameAddress × End). HasEnded x.1)
        (sym (walk-next lib zeroed modules read fuel it it' r e)) h

  -- One step, where a walk from any higher stack pointer ends.
  by_step :
      (fuel : ℕ) (frame : FrameAddress) (regs : UnwindRegs) (r : Step)
      → ((ra new_bp : ℕ)
          → sp regs < bp regs + 16
          → bp regs + 16 < 2 ^ 64
          → Ends fuel (at_frame (return_address ra) (stepped regs ra (bp regs + 16) new_bp) caches))
      → fallback_unwind_frame read (address frame) regs ≡ r
      → Ends (suc fuel) (at_frame frame regs caches)
  by_step fuel frame regs (ok none, regs') higher e =
      ends fuel (at_frame frame regs caches) _ _
        (next-fallback lib zeroed modules read caches bare frame regs _ e) tt
  by_step fuel frame regs (ok (some ra), regs') higher e =
      let (new_bp, f, up, small, same) =
        fallback_unwind_frame-some read (address frame) regs ra regs' e in
      ends fuel (at_frame frame regs caches) _ _
        (next-frame lib zeroed modules read caches bare frame regs ra (bp regs + 16) new_bp
          f.nonzero (e ∙ ap (λ (x : UnwindRegs). (ok (some ra), x)) same))
        (higher ra new_bp up small)
  by_step fuel frame regs (err x, regs') higher e =
      ends fuel (at_frame frame regs caches) _ _
        (next-fallback lib zeroed modules read caches bare frame regs _ e) tt
  by_step fuel frame regs (panic, regs') higher e =
      absurd (fallback_unwind_frame-ne-panic read (address frame) regs (ap (λ (x : Step). x.0) e))

  from_frame :
      (fuel : ℕ) (frame : FrameAddress) (regs : UnwindRegs)
      → 2 ^ 64 - sp regs < fuel
      → Ends fuel (at_frame frame regs caches)
  from_frame zero frame regs h = absurd (omega arith)
  from_frame (suc zero) frame regs h =
      by_step zero frame regs _ (λ ra new_bp up small. absurd (omega arith)) refl
  from_frame (suc (suc fuel)) frame regs h =
      by_step (suc fuel) frame regs _
        (λ ra new_bp up small.
          from_frame (suc fuel) (return_address ra) (stepped regs ra (bp regs + 16) new_bp)
            (omega (arith, stepped-sp regs ra (bp regs + 16) new_bp)))
        refl

  -- Where no address has unwind information or a signal frame, a walk over any stack memory ends,
  -- at the end of the stack or with an error, if it has more than 2 ^ 64 - sp + 1 rounds for its
  -- stack pointer sp.
  pub walk-HasEnded :
      (fuel pc : ℕ) (regs : UnwindRegs)
      → 2 ^ 64 - sp regs + 1 < fuel
      → HasEnded (walk (unwinder lib zeroed modules read) fuel (iter_frames pc (regs, caches))).1
  walk-HasEnded zero pc regs h = absurd (omega arith)
  walk-HasEnded (suc fuel) pc regs h =
      ends fuel (iter_frames pc (regs, caches)) (at_frame (instruction_pointer pc) regs caches)
        (ok (some (instruction_pointer pc))) (unfold next in refl)
        (from_frame fuel (instruction_pointer pc) regs (omega arith))
