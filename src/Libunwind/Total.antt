-- ===== src/Libunwind/Total.antt =====
-- Calls that return: a routine of libunwind does, if every callback that it makes does.
use libunwinder.Prelude.{ℕ, ◌≡◌, ◌≢◌, Option, none, some}
use libunwinder.Prelude.Int.{ℤ, abs}
use libunwinder.ModuleSet.{ModuleSet}
use libunwinder.UnwindCtx.{UnwindCtx}
use libunwinder.Callbacks.Accessors
use libunwinder.Callbacks.Accessors.{Call, UnwProcInfo}
use libunwinder.Libunwind.{
  Library, Routine, returns, find_proc_info, put_unwind_info, get_dyn_info_list_addr, access_mem,
  access_reg, access_fpreg,
}
use libunwinder.Libunwind.Calls.{run, then_call}

-- What holds of whatever a routine returns, whatever is replied to it.
unfoldable pub AllReturns : {A : Type 0} → (A → Type 0) → Routine A → Type 0
AllReturns Q (returns a) = Q a
AllReturns Q (find_proc_info ip pi need k) = (r : ℤ × UnwProcInfo) → AllReturns Q (k r)
AllReturns Q (put_unwind_info pi k) = AllReturns Q k
AllReturns Q (get_dyn_info_list_addr val k) = (r : ℤ × ℕ) → AllReturns Q (k r)
AllReturns Q (access_mem addr val write k) = (r : ℤ × ℕ) → AllReturns Q (k r)
AllReturns Q (access_reg reg val write k) = (r : ℤ × ℕ) → AllReturns Q (k r)
AllReturns Q (access_fpreg reg val write k) = (r : ℤ) → AllReturns Q (k r)

-- A status of libunwind is none but `i32::MIN`, which has no absolute value.
abbrev pub IsStatus : ℤ → Type 0
IsStatus status = abs status ≢ none

pub record HasStatuses {Cursor : Type 0} (lib : Library Cursor) : Type 0 where
  pub init_remote : (c : Cursor) → AllReturns (λ (r : ℤ × Cursor). IsStatus r.0) (lib.init_remote c)
  pub step : (c : Cursor) → AllReturns (λ (r : ℤ × Cursor). IsStatus r.0) (lib.step c)
  pub get_reg :
      (c : Cursor) (reg : ℤ) (val : ℕ)
      → AllReturns (λ (r : (ℤ × ℕ) × Cursor). IsStatus r.0.0) (lib.get_reg c reg val)

abbrev pub Any : {A : Type 0} → A → Type 0
Any a = Unit

module _ {Regs : Type 0} (modules : ModuleSet) where
  -- A call returned, over the same modules.
  abbrev pub Returns : {A : Type 0} → (A → Type 0) → Option (A × UnwindCtx Regs) → Type 0
  Returns Q none = ⊥
  Returns Q (some (a, ctx)) = (ctx.modules ≡ modules) × Q a

  pub record IsTotal {A : Type 0} (Q : A → Type 0) (m : Call Regs A) : Type 0 where
    pub at : (ctx : UnwindCtx Regs) → ctx.modules ≡ modules → Returns Q (m ctx)

  pub record AreTotal (access : ℤ → ℕ → ℤ → Regs → (ℤ × ℕ) × Regs) : Type 0 where
    pub find_proc_info : (pi : UnwProcInfo) → IsTotal Any (Accessors.find_proc_info pi)
    pub access_mem : (addr val : ℕ) (write : ℤ) → IsTotal Any (Accessors.access_mem addr val write)
    pub access_reg :
        (reg : ℤ) (val : ℕ) (write : ℤ) → IsTotal Any (Accessors.access_reg access reg val write)

module _ {Regs : Type 0} (modules : ModuleSet) (access : ℤ → ℕ → ℤ → Regs → (ℤ × ℕ) × Regs)
    (total : AreTotal modules access) where
  then_call-Returns :
      {A B : Type 0} (Q : B → Type 0) (r : Option (A × UnwindCtx Regs)) (k : A → Call Regs B)
      → Returns modules Any r
      → ((a : A) (ctx : UnwindCtx Regs) → ctx.modules ≡ modules → Returns modules Q (k a ctx))
      → Returns modules Q (then_call r k)
  then_call-Returns Q none k h next = absurd h
  then_call-Returns Q (some (a, ctx)) k h next = next a ctx h.0

  run-Returns :
      {A : Type 0} (Q : A → Type 0) (p : Routine A) (ctx : UnwindCtx Regs)
      → AllReturns Q p
      → ctx.modules ≡ modules
      → Returns modules Q (run access p ctx)
  unfolding run AllReturns
  run-Returns Q (returns a) ctx q h = (h, q)
  run-Returns Q (find_proc_info ip pi need k) ctx q h =
      then_call-Returns Q (Accessors.find_proc_info pi ctx) _ ((total.find_proc_info pi).at ctx h)
        (λ r ctx'. run-Returns Q (k r) ctx' (q r))
  run-Returns Q (put_unwind_info pi k) ctx q h = run-Returns Q k ctx q h
  run-Returns Q (get_dyn_info_list_addr val k) ctx q h =
      then_call-Returns Q (Accessors.get_dyn_info_list_addr val ctx) _
        (unfold Accessors.get_dyn_info_list_addr in (h, tt))
        (λ r ctx'. run-Returns Q (k r) ctx' (q r))
  run-Returns Q (access_mem addr val write k) ctx q h =
      then_call-Returns Q (Accessors.access_mem addr val write ctx) _
        ((total.access_mem addr val write).at ctx h) (λ r ctx'. run-Returns Q (k r) ctx' (q r))
  run-Returns Q (access_reg reg val write k) ctx q h =
      then_call-Returns Q (Accessors.access_reg access reg val write ctx) _
        ((total.access_reg reg val write).at ctx h) (λ r ctx'. run-Returns Q (k r) ctx' (q r))
  run-Returns Q (access_fpreg reg val write k) ctx q h =
      then_call-Returns Q (Accessors.access_fpreg ctx) _ (unfold Accessors.access_fpreg in (h, tt))
        (λ r ctx'. run-Returns Q (k r) ctx' (q r))

  pub run-IsTotal :
      {A : Type 0} (Q : A → Type 0) (p : Routine A)
      → AllReturns Q p
      → IsTotal modules Q (run access p)
  run-IsTotal Q p q = record { at = λ ctx. run-Returns Q p ctx q }
