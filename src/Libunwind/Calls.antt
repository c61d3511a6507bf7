-- ===== src/Libunwind/Calls.antt =====
-- A routine of libunwind run on the callbacks of src/callbacks.rs, by the accessor table of
-- src/address_space.rs.
use libunwinder.Prelude.{ℕ, Option, none, some}
use libunwinder.Prelude.Int.{ℤ}
use libunwinder.UnwindCtx.{UnwindCtx}
use libunwinder.Callbacks.Accessors
use libunwinder.Callbacks.Accessors.{Call}
use libunwinder.Libunwind.{
  Routine, returns, find_proc_info, put_unwind_info, get_dyn_info_list_addr, access_mem, access_reg,
  access_fpreg,
}

abbrev pub then_call {ℓ} :
    {Regs A : Type 0} {B : Type ℓ}
    → Option (A × UnwindCtx Regs)
    → (A → UnwindCtx Regs → Option B)
    → Option B
then_call none k = none
then_call (some (a, ctx)) k = k a ctx

-- `put_unwind_info` does nothing.
unfoldable pub run :
    {Regs A : Type 0} → (ℤ → ℕ → ℤ → Regs → (ℤ × ℕ) × Regs) → Routine A → Call Regs A
run access (returns a) ctx = some (a, ctx)
run access (find_proc_info ip pi need k) ctx =
    then_call (Accessors.find_proc_info pi ctx) (λ r. run access (k r))
run access (put_unwind_info pi k) ctx = run access k ctx
run access (get_dyn_info_list_addr val k) ctx =
    then_call (Accessors.get_dyn_info_list_addr val ctx) (λ r. run access (k r))
run access (access_mem addr val write k) ctx =
    then_call (Accessors.access_mem addr val write ctx) (λ r. run access (k r))
run access (access_reg reg val write k) ctx =
    then_call (Accessors.access_reg access reg val write ctx) (λ r. run access (k r))
run access (access_fpreg reg val write k) ctx =
    then_call (Accessors.access_fpreg ctx) (λ r. run access (k r))
