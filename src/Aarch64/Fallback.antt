-- ===== src/Aarch64/Fallback.antt =====
-- What a step of the frame-pointer fallback of src/aarch64.rs returns, and that it is the step of
-- src/x86_64.rs where nothing is stripped.
use libunwinder.Prelude.{
  ℕ, ◌+◌, ◌≤◌, ◌<◌, ◌^◌, ◌≡◌, ◌≢◌, ◌⊎◌, inl, inr, arith, ap, ◌∙◌, Option, none, some, ok, err,
  panic, Option-cases,
}
use libunwinder.Error.{
  Error, could_not_read_stack, framepointer_unwinding_moved_backwards, integer_overflow,
}
use libunwinder.UnwindCtx.{ReadStack}
use libunwinder.X8664
use libunwinder.X8664.{sp, bp}
use libunwinder.Aarch64.{
  UnwindRegs, Step, fallback_unwind_frame, stepped_to, strip_ptr_auth, new_no_strip,
}
use libunwinder.Aarch64.Masks.{strip_ptr_auth-no_strip}

-- A frame record at `fp`: the caller's frame pointer, and above that the signed return address.
pub record IsFrameAt (read : ReadStack) (regs : UnwindRegs) (new_fp new_lr ra : ℕ) : Type 0 where
  pub saved_fp : read regs.fp ≡ some new_fp
  pub saved_lr : read (regs.fp + 8) ≡ some new_lr
  pub grows : (new_fp ≡ 0) ⊎ (regs.fp < new_fp)
  pub stripped : ra ≡ strip_ptr_auth regs.lr_mask new_lr
  pub nonzero : ra ≢ 0

module _ (read : ReadStack) (current_ip : ℕ) (regs : UnwindRegs) where
  -- A fallback step that finds a caller has read its frame record at the frame pointer; the return
  -- address is the saved one without its signature; the stack pointer has grown without
  -- wrap-around, and the registers are those of the caller.
  pub fallback_unwind_frame-some :
      (ra : ℕ) (regs' : UnwindRegs)
      → fallback_unwind_frame read current_ip regs ≡ (ok (some ra), regs')
      → (new_fp : ℕ) × ((new_lr : ℕ) × (IsFrameAt read regs new_fp new_lr ra
            × (regs.sp < regs.fp + 16)
            × (regs.fp + 16 < 2 ^ 64)
            × (regs' ≡ stepped_to regs new_lr (regs.fp + 16) new_fp)))
  unfolding fallback_unwind_frame
  fallback_unwind_frame-some ra regs' h = elim (Option-cases (read regs.fp)) [
    | inl e ↦ ground (arith, e)
    | inr (b, e) ↦ elim (Option-cases (read (regs.fp + 8))) [
      | inl e' ↦ ground (arith, e, e')
      | inr (l, e') ↦ (
        b,
        (
          l,
          (
            record {
              saved_fp = e;
              saved_lr = e';
              grows = ground (arith, e, e');
              stripped = ground (arith, e, e');
              nonzero = ground (arith, e, e');
            },
            ground (arith, e, e'),
            ground (arith, e, e'),
            ground (arith, e, e'),
          ),
        ),
      )
    ]
  ]

  pub fallback_unwind_frame-err :
      (e : Error)
      → (fallback_unwind_frame read current_ip regs).0 ≡ err e
      → ((e ≡ integer_overflow) × (2 ^ 64 ≤ regs.fp + 16))
        ⊎ ((e ≡ framepointer_unwinding_moved_backwards) × (regs.fp ≢ 0))
        ⊎ ((addr : ℕ) × (e ≡ could_not_read_stack addr)
            × (read addr ≡ none)
            × ((addr ≡ regs.fp) ⊎ (addr ≡ regs.fp + 8)))
  unfolding fallback_unwind_frame
  fallback_unwind_frame-err e h = ground arith

  pub fallback_unwind_frame-keeps :
      (e : Error)
      → (fallback_unwind_frame read current_ip regs).0 ≡ err e
      → (fallback_unwind_frame read current_ip regs).1 ≡ regs
  unfolding fallback_unwind_frame
  fallback_unwind_frame-keeps e h = ground arith

  pub fallback_unwind_frame-ne-panic : (fallback_unwind_frame read current_ip regs).0 ≢ panic
  unfolding fallback_unwind_frame
  fallback_unwind_frame-ne-panic h = ground arith

-- The step of the other architecture over the same stack, in the registers of this one.
abbrev pub registers_of : UnwindRegs → Option ℕ → X8664.UnwindRegs → UnwindRegs
registers_of regs none regs' = regs
registers_of regs (some ra) regs' = record regs { lr = ra; sp = sp regs'; fp = bp regs' }

abbrev pub step_of : UnwindRegs → X8664.Step → Step
step_of regs (ok ra, regs') = (ok ra, registers_of regs ra regs')
step_of regs (err e, regs') = (err e, regs)
step_of regs (panic, regs') = (panic, regs)

-- If nothing is stripped and the stack holds words of 64 bits, the fallback of 64-bit ARM is that
-- of x86-64 from the same stack and frame pointer, on every branch.
pub fallback_unwind_frame-same :
    (read : ReadStack) (current_ip : ℕ) (regs : UnwindRegs) (regs' : X8664.UnwindRegs)
    → regs.lr_mask ≡ new_no_strip
    → sp regs' ≡ regs.sp
    → bp regs' ≡ regs.fp
    → ((addr v : ℕ) → read addr ≡ some v → v < 2 ^ 64)
    → fallback_unwind_frame read current_ip regs
      ≡ step_of regs (X8664.fallback_unwind_frame read current_ip regs')
unfolding fallback_unwind_frame X8664.fallback_unwind_frame X8664.set
    X8664.clear_unrestored_caller_registers
fallback_unwind_frame-same read current_ip regs regs' mask same_sp same_fp words =
    elim (Option-cases (read regs.fp)) [
      | inl e ↦ ground (arith, e, same_sp, same_fp)
      | inr (b, e) ↦ elim (Option-cases (read (regs.fp + 8))) [
        | inl e' ↦ ground (arith, e, e', same_sp, same_fp)
        | inr (l, e') ↦ ground (arith, e, e', same_sp, same_fp, kept l e')
      ]
    ]
  where
    kept : (l : ℕ) → read (regs.fp + 8) ≡ some l → strip_ptr_auth regs.lr_mask l ≡ l
    kept l e =
        ap (λ (m : ℕ). strip_ptr_auth m l) mask
        ∙ strip_ptr_auth-no_strip l (words (regs.fp + 8) l e)
