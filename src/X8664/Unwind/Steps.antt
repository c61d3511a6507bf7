-- ===== src/X8664/Unwind/Steps.antt =====
-- What `unwind_frame` of src/x86_64.rs makes of a new instruction pointer, and of the frame pointer.
use mathlib.Core.Path.{subst}
use libunwinder.Prelude.{
  ℕ, ◌+◌, ◌≡◌, ◌≢◌, ◌⊎◌, inl, inr, refl, sym, arith, some, ok, err, get_or, List, ◌==◌, ◌||◌,
}
use libunwinder.Error.{Error, did_not_advance, integer_overflow}
use libunwinder.FrameAddress.{FrameAddress, address, address_for_lookup}
use libunwinder.ModuleSet.{ModuleSet}
use libunwinder.UnwindCtx.{UnwindCtx, ReadStack}
use libunwinder.Unwind.{resumed_at}
use libunwinder.Unwind.Total.{NeverPanics}
use libunwinder.Unwind.Errors.{IsExplained}
use libunwinder.Unwind.Promises.{HasTrueErrors, AllSteps}
use libunwinder.X8664
use libunwinder.X8664.{UnwindRegs, sp, bp, fallback_unwind_frame}
use libunwinder.X8664.Fallback.{
  fallback_unwind_frame-keeps, fallback_unwind_frame-ne-panic, fallback_unwind_frame-err,
  fallback_unwind_frame-some,
}
use libunwinder.X8664.Unwind.{RawRegs, step_to, request}

module _ (modules : ModuleSet) (read : ReadStack) (frame : FrameAddress) (regs : UnwindRegs) where
  step_to-err :
      (ctx : UnwindCtx RawRegs) (new_ip : ℕ) (extras : List ℕ) (e : Error)
      → (step_to frame regs ctx new_ip extras).0 ≡ err e
      → ((e ≡ did_not_advance) ⊎ (e ≡ integer_overflow))
        × ((step_to frame regs ctx new_ip extras).1 ≡ regs)
  unfolding resumed_at
  step_to-err ctx new_ip extras e h = (ground arith, ground arith)

  pub request-HasTrueErrors : HasTrueErrors modules read (request read frame regs)
  request-HasTrueErrors = record { step_to = stepping; fallback = falling }
    where
      because :
          {x e : Error}
          → e ≡ x
          → IsExplained modules read (address_for_lookup frame) x
          → IsExplained modules read (address_for_lookup frame) e
      because same h = subst (IsExplained modules read (address_for_lookup frame)) (sym same) h

      stepping :
          (ctx : UnwindCtx RawRegs) (new_ip : ℕ) (extras : List ℕ) (e : Error)
          → (step_to frame regs ctx new_ip extras).0 ≡ err e
          → IsExplained modules read (address_for_lookup frame) e
            × ((step_to frame regs ctx new_ip extras).1 ≡ regs)
      stepping ctx new_ip extras e h =
          let (why, kept) = step_to-err ctx new_ip extras e h in
          (elim why [ inl same ↦ because same tt | inr same ↦ because same tt ], kept)

      falling :
          (e : Error)
          → (fallback_unwind_frame read (address frame) regs).0 ≡ err e
          → IsExplained modules read (address_for_lookup frame) e
            × ((fallback_unwind_frame read (address frame) regs).1 ≡ regs)
      falling e h = (
        elim (fallback_unwind_frame-err read (address frame) regs e h) [
          | inl (same, over) ↦ because same tt
          | inr (inl (same, back)) ↦ because same tt
          | inr (inr (addr, same, unread, at)) ↦ because same unread
        ],
        fallback_unwind_frame-keeps read (address frame) regs e h,
      )

pub request-NeverPanics :
    (read : ReadStack) (frame : FrameAddress) (regs : UnwindRegs)
    → NeverPanics (request read frame regs)
unfolding resumed_at
request-NeverPanics read frame regs = record {
  step_to = λ ctx new_ip extras h. ground arith;
  fallback = fallback_unwind_frame-ne-panic read (address frame) regs;
}

-- A frame that is stepped to is a different one, and its stack and frame pointer are known.
pub record IsAdvance (frame : FrameAddress) (regs : UnwindRegs) (ra : ℕ) (regs' : UnwindRegs)
    : Type 0 where
  pub nonzero : ra ≢ 0
  pub moved : (ra ≢ address frame) ⊎ (sp regs' ≢ sp regs)
  pub at_ra : regs'.ip ≡ ra
  pub known : (i : ℕ) → regs'.valid_regs i ≡ (i == 7 || i == 6)

module _ (read : ReadStack) (frame : FrameAddress) (regs : UnwindRegs) where
  stepped-IsAdvance :
      (ra new_sp new_bp : ℕ)
      → ra ≢ 0
      → (ra ≢ address frame) ⊎ (new_sp ≢ sp regs)
      → IsAdvance frame regs ra (X8664.stepped regs ra new_sp new_bp)
  unfolding X8664.set X8664.clear_unrestored_caller_registers
  stepped-IsAdvance ra new_sp new_bp nz moved = record {
    nonzero = nz;
    moved = moved;
    at_ra = refl;
    known = λ i. ground arith;
  }

  step_to-some :
      (ctx : UnwindCtx RawRegs) (new_ip : ℕ) (extras : List ℕ) (ra : ℕ) (regs' : UnwindRegs)
      → step_to frame regs ctx new_ip extras ≡ (ok (some ra), regs')
      → (ra ≢ 0)
        × ((ra ≢ address frame) ⊎ (get_or extras 0 0 ≢ sp regs))
        × (X8664.stepped regs ra (get_or extras 0 0) (get_or extras 1 0) ≡ regs')
  unfolding resumed_at
  step_to-some ctx new_ip extras ra regs' h = (ground arith, ground arith, ground arith)

  pub request-AllSteps : AllSteps (request read frame regs) (IsAdvance frame regs)
  request-AllSteps = record {
    step_to = λ ctx new_ip extras ra regs' h.
        let (nz, moved, same) = step_to-some ctx new_ip extras ra regs' h in
        subst (IsAdvance frame regs ra) same
          (stepped-IsAdvance ra (get_or extras 0 0) (get_or extras 1 0) nz moved);
    fallback = λ ra regs' h.
        let (new_bp, f, up, small, same) =
          fallback_unwind_frame-some read (address frame) regs ra regs' h in
        subst (IsAdvance frame regs ra) (sym same)
          (stepped-IsAdvance ra (bp regs + 16) new_bp f.nonzero (inr (λ e. omega arith)));
  }
