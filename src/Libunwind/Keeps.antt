-- ===== src/Libunwind/Keeps.antt =====
-- A property of the context that each callback keeps is kept by whatever libunwind does.
use libunwinder.Prelude.{ℕ, Option, none, some}
use libunwinder.Prelude.Int.{ℤ}
use libunwinder.UnwindCtx.{UnwindCtx}
use libunwinder.Callbacks.Accessors
use libunwinder.Callbacks.Accessors.{Call, UnwProcInfo}
use libunwinder.Libunwind.{
  Routine, returns, find_proc_info, put_unwind_info, get_dyn_info_list_addr, access_mem, access_reg,
  access_fpreg,
}
use libunwinder.Libunwind.Calls.{run, then_call}

module _ {Regs : Type 0} (Stop : Type 0) (P : UnwindCtx Regs → Type 0) where
  -- `Stop` is what is known where a call does not return.
  abbrev pub After : {A : Type 0} → Option (A × UnwindCtx Regs) → Type 0
  After none = Stop
  After (some (a, ctx)) = P ctx

  pub record IsKeeper {A : Type 0} (m : Call Regs A) : Type 0 where
    pub at : (ctx : UnwindCtx Regs) → P ctx → After (m ctx)

  pub record IsKept (access : ℤ → ℕ → ℤ → Regs → (ℤ × ℕ) × Regs) : Type 0 where
    pub find_proc_info : (pi : UnwProcInfo) → IsKeeper (Accessors.find_proc_info pi)
    pub access_mem : (addr val : ℕ) (write : ℤ) → IsKeeper (Accessors.access_mem addr val write)
    pub access_reg :
        (reg : ℤ) (val : ℕ) (write : ℤ) → IsKeeper (Accessors.access_reg access reg val write)

module _ {Regs : Type 0} (Stop : Type 0) (P : UnwindCtx Regs → Type 0)
    (access : ℤ → ℕ → ℤ → Regs → (ℤ × ℕ) × Regs) (kept : IsKept Stop P access) where
  then_call-After :
      {A B : Type 0} (r : Option (A × UnwindCtx Regs)) (k : A → Call Regs B)
      → After Stop P r
      → ((a : A) (ctx : UnwindCtx Regs) → P ctx → After Stop P (k a ctx))
      → After Stop P (then_call r k)
  then_call-After none k h next = h
  then_call-After (some (a, ctx)) k h next = next a ctx h

  run-After :
      {A : Type 0} (p : Routine A) (ctx : UnwindCtx Regs) → P ctx → After Stop P (run access p ctx)
  unfolding run
  run-After (returns a) ctx h = h
  run-After (find_proc_info ip pi need k) ctx h =
      then_call-After (Accessors.find_proc_info pi ctx) _ ((kept.find_proc_info pi).at ctx h)
        (λ r. run-After (k r))
  run-After (put_unwind_info pi k) ctx h = run-After k ctx h
  run-After (get_dyn_info_list_addr val k) ctx h =
      then_call-After (Accessors.get_dyn_info_list_addr val ctx) _
        (unfold Accessors.get_dyn_info_list_addr in h) (λ r. run-After (k r))
  run-After (access_mem addr val write k) ctx h =
      then_call-After (Accessors.access_mem addr val write ctx) _
        ((kept.access_mem addr val write).at ctx h) (λ r. run-After (k r))
  run-After (access_reg reg val write k) ctx h =
      then_call-After (Accessors.access_reg access reg val write ctx) _
        ((kept.access_reg reg val write).at ctx h) (λ r. run-After (k r))
  run-After (access_fpreg reg val write k) ctx h =
      then_call-After (Accessors.access_fpreg ctx) _ (unfold Accessors.access_fpreg in h)
        (λ r. run-After (k r))

  -- Whatever libunwind does.
  pub run-IsKeeper : {A : Type 0} (p : Routine A) → IsKeeper Stop P (run access p)
  run-IsKeeper p = record { at = run-After p }
