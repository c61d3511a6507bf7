-- ===== src/AddressSpace.antt =====
-- src/address_space.rs: `init_and_step`. The address space is made once and is constant, so it is left
-- out; `none` is a call that does not return.
pub mod Keeps
pub mod Total
use libunwinder.Prelude.{
  ℕ, zero, suc, ◌+◌, ◌==◌, List, [], ◌∷◌, Bool, true, false, Option, none, some, Result, ok, err,
  panic, if◌then◌else◌, length, take,
}
use libunwinder.Prelude.Int.{ℤ, pos, is_neg, is_zero}
use libunwinder.Error.{
  LibunwindError, LibunwindPhase, init_remote, step, get_instruction_pointer, get_register,
  libunwind_error,
}
use libunwinder.UnwindCtx.{UnwindCtx}
use libunwinder.Callbacks.Accessors.{Call}
use libunwinder.Libunwind.{Library, Routine}
use libunwinder.Libunwind.Calls.{run}

-- `extras: [u64; 4]`
pub data StepOutcome : Type 0 where
  stepped : (new_ip : ℕ) (extras : List ℕ) → StepOutcome
  end_of_stack : StepOutcome

abbrev pub Attempt : Type 0 → Type 0
Attempt A = Result LibunwindError A

-- A call that works on the context and may fail.
infixl 5 ◌>>=◌
abbrev pub ◌>>=◌ : {Regs A B : Type 0} → Call Regs A → (A → Call Regs B) → Call Regs B
◌>>=◌ m f ctx = elim (m ctx) [ none ↦ none | some (a, ctx') ↦ f a ctx' ]

module _ {Regs : Type 0} where
  abbrev pub pure : {A : Type 0} → A → Call Regs A
  pure a ctx = some (a, ctx)

  -- `Err(LibunwindError::new(phase, status))`
  abbrev pub fail : {A : Type 0} → LibunwindPhase → ℤ → Call Regs (Attempt A)
  fail phase status ctx = elim (libunwind_error phase status) [
    | none ↦ none
    | some e ↦ some (err e, ctx)
  ]

-- `extras[index] = val`
abbrev pub set : {A : Type 0} → List A → ℕ → A → List A
set [] i v = []
set (x ∷ xs) zero v = v ∷ xs
set (x ∷ xs) (suc i) v = x ∷ set xs i v

abbrev pub no_extras : List ℕ
no_extras = 0 ∷ 0 ∷ 0 ∷ 0 ∷ []

abbrev pub outcome_of : {Regs : Type 0} → ℕ → Attempt (List ℕ) → Call Regs (Attempt StepOutcome)
outcome_of new_ip (ok extras) = pure (ok (stepped new_ip extras))
outcome_of new_ip (err e) = pure (err e)
outcome_of new_ip panic = λ ctx. none

module _ {Cursor Regs : Type 0} (lib : Library Cursor)
    (access : ℤ → ℕ → ℤ → Regs → (ℤ × ℕ) × Regs) where
  -- A register that is not available is an error only if it is the first.
  unfoldable pub get_extras : Cursor → List ℤ → ℕ → List ℕ → Call Regs (Attempt (List ℕ))
  get_extras cursor [] index extras = pure (ok extras)
  get_extras cursor (reg ∷ regs) index extras = run access (lib.get_reg cursor reg 0) >>= λ got.
      let missing = get_extras got.1 regs (suc index) extras in
      let found = get_extras got.1 regs (suc index) (set extras index got.0.1) in
      if is_neg got.0.0
      then if index == 0 then fail (get_register reg) got.0.0 else missing
      else found

  -- `ip_reg` is `ffi::reg_ip()` of the architecture, and `zeroed` the cursor before `init_remote`.
  unfoldable pub read_step : ℤ → List ℤ → Cursor → Call Regs (Attempt StepOutcome)
  read_step ip_reg extra_regs cursor = run access (lib.get_reg cursor ip_reg 0) >>= λ got.
      if is_neg got.0.0
      then fail get_instruction_pointer got.0.0
      else get_extras got.1 (take 4 extra_regs) 0 no_extras >>= outcome_of got.0.1

  unfoldable pub init_and_step : ℤ → List ℤ → Cursor → Call Regs (Attempt StepOutcome)
  init_and_step ip_reg extra_regs zeroed = run access (lib.init_remote zeroed) >>= λ init.
      if is_neg init.0
      then fail init_remote init.0
      else run access (lib.step init.1) >>= λ moved.
          if is_neg moved.0
          then fail step moved.0
          else if is_zero moved.0
          then pure (ok end_of_stack)
          else read_step ip_reg extra_regs moved.1
