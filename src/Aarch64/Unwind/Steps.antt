-- ===== src/Aarch64/Unwind/Steps.antt =====
-- What `unwind_frame` of src/aarch64.rs makes of a new instruction pointer, and of the frame pointer.
use mathlib.Core.Path.{subst}
use libunwinder.Prelude.{
  ℕ, ◌+◌, ◌≡◌, ◌≢◌, ◌⊎◌, inl, inr, refl, sym, arith, some, ok, err, get_or, List,
}
use libunwinder.Error.{Error, did_not_advance, integer_overflow}
use libunwinder.FrameAddress.{FrameAddress}
use libunwinder.ModuleSet.{ModuleSet}
use libunwinder.UnwindCtx.{UnwindCtx, ReadStack}
use libunwinder.Unwind.{resumed_at}
use libunwinder.Unwind.Total.{NeverPanics}
use libunwinder.Unwind.Errors.{IsExplained}
use libunwinder.Unwind.Promises.{HasTrueErrors, AllSteps}
use libunwinder.Aarch64.{UnwindRegs, stepped_to, strip_ptr_auth}
use libunwinder.Aarch64.Fallback.{
  fallback_unwind_frame-keeps, fallback_unwind_frame-ne-panic, fallback_unwind_frame-err,
  fallback_unwind_frame-some,
}
use libunwinder.Aarch64.Unwind.{RawRegs, step_to, request, current_ip, lookup_ip}

module _ (modules : ModuleSet) (read : ReadStack) (frame : FrameAddress) (regs : UnwindRegs) where
  step_to-err :
      (ctx : UnwindCtx RawRegs) (new_ip : ℕ) (extras : List ℕ) (e : Error)
      → (step_to frame regs ctx new_ip extras).0 ≡ err e
      → ((e ≡ did_not_advance) ⊎ (e ≡ integer_overflow))
        × ((step_to frame regs ctx new_ip extras).1 ≡ regs)
  unfolding resumed_at
  step_to-err ctx new_ip extras e h = (ground arith, ground arith)

  pub request-HasTrueErrors : HasTrueErrors modules read (request frame regs read)
  request-HasTrueErrors = record {
    step_to = λ ctx new_ip extras e h.
        let (why, kept) = step_to-err ctx new_ip extras e h in
        (
          elim why [
            | inl same ↦ subst (IsExplained modules read (lookup_ip frame regs)) (sym same) tt
            | inr same ↦ subst (IsExplained modules read (lookup_ip frame regs)) (sym same) tt
          ],
          kept,
        );
    fallback = λ e h. (
      elim (fallback_unwind_frame-err read (current_ip frame regs) regs e h) [
        | inl (same, over) ↦ subst (IsExplained modules read (lookup_ip frame regs)) (sym same) tt
        | inr (inl (same, nz)) ↦
            subst (IsExplained modules read (lookup_ip frame regs)) (sym same) tt
        | inr (inr (addr, same, unread, at)) ↦
            subst (IsExplained modules read (lookup_ip frame regs)) (sym same) unread
      ],
      fallback_unwind_frame-keeps read (current_ip frame regs) regs e h,
    );
  }

pub request-NeverPanics :
    (read : ReadStack) (frame : FrameAddress) (regs : UnwindRegs)
    → NeverPanics (request frame regs read)
unfolding resumed_at
request-NeverPanics read frame regs = record {
  step_to = λ ctx new_ip extras h. ground arith;
  fallback = fallback_unwind_frame-ne-panic read (current_ip frame regs) regs;
}

-- A frame that is stepped to is a different one, and its link register is stripped.
pub record IsStripped (frame : FrameAddress) (regs : UnwindRegs) (ra : ℕ) (regs' : UnwindRegs)
    : Type 0 where
  pub nonzero : ra ≢ 0
  pub moved : (ra ≢ current_ip frame regs) ⊎ (regs'.sp ≢ regs.sp)
  pub same_mask : regs'.lr_mask ≡ regs.lr_mask
  pub stripped : (lr : ℕ) × (regs'.lr ≡ strip_ptr_auth regs.lr_mask lr)

module _ (read : ReadStack) (frame : FrameAddress) (regs : UnwindRegs) where
  stepped_to-IsStripped :
      (ra new_lr new_sp new_fp : ℕ)
      → ra ≢ 0
      → (ra ≢ current_ip frame regs) ⊎ (new_sp ≢ regs.sp)
      → IsStripped frame regs ra (stepped_to regs new_lr new_sp new_fp)
  stepped_to-IsStripped ra new_lr new_sp new_fp nz moved = record {
    nonzero = nz;
    moved = moved;
    same_mask = refl;
    stripped = (new_lr, refl);
  }

  step_to-some :
      (ctx : UnwindCtx RawRegs) (new_ip : ℕ) (extras : List ℕ) (ra : ℕ) (regs' : UnwindRegs)
      → step_to frame regs ctx new_ip extras ≡ (ok (some ra), regs')
      → (ra ≢ 0)
        × ((ra ≢ current_ip frame regs) ⊎ (get_or extras 0 0 ≢ regs.sp))
        × (stepped_to regs (get_or extras 2 0) (get_or extras 0 0) (get_or extras 1 0) ≡ regs')
  unfolding resumed_at
  step_to-some ctx new_ip extras ra regs' h = (ground arith, ground arith, ground arith)

  pub request-AllSteps : AllSteps (request frame regs read) (IsStripped frame regs)
  request-AllSteps = record {
    step_to = λ ctx new_ip extras ra regs' h.
        let (nz, moved, same) = step_to-some ctx new_ip extras ra regs' h in
        subst (IsStripped frame regs ra) same (stepped_to-IsStripped ra _ _ _ nz moved);
    fallback = λ ra regs' h.
        let (new_fp, (new_lr, (f, up, small, same))) =
          fallback_unwind_frame-some read (current_ip frame regs) regs ra regs' h in
        subst (IsStripped frame regs ra) (sym same) (
          stepped_to-IsStripped ra new_lr (regs.fp + 16) new_fp f.nonzero (inr (λ e. omega arith)));
  }
