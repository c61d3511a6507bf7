-- ===== src/AddressSpace/Keeps.antt =====
-- A property of the context that the callbacks keep is kept by `init_and_step`.
use libunwinder.Prelude.{
  ℕ, suc, Option, none, some, ok, err, panic, Bool, true, false, if◌then◌else◌, List, [], ◌∷◌, ◌==◌,
  take,
}
use libunwinder.Prelude.Int.{ℤ, is_neg, is_zero}
use libunwinder.Error.{
  LibunwindPhase, LibunwindError, libunwind_error, get_register, get_instruction_pointer,
  init_remote, step,
}
use libunwinder.UnwindCtx.{UnwindCtx}
use libunwinder.Callbacks.Accessors.{Call}
use libunwinder.Libunwind.{Library}
use libunwinder.Libunwind.Calls.{run}
use libunwinder.Libunwind.Keeps.{After, IsKeeper, IsKept, run-IsKeeper}
use libunwinder.AddressSpace.{
  Attempt, pure, fail, ◌>>=◌, set, get_extras, no_extras, outcome_of, read_step, init_and_step,
}

module _ {Regs : Type 0} (P : UnwindCtx Regs → Type 0) where
  IsKeeper-bind :
      {A B : Type 0} (m : Call Regs A) (f : A → Call Regs B)
      → IsKeeper Unit P m
      → ((a : A) → IsKeeper Unit P (f a))
      → IsKeeper Unit P (m >>= f)
  IsKeeper-bind {A} m f km kf = record { at = λ ctx h. by_outcome (m ctx) (km.at ctx h) }
    where
      by_outcome :
          (r : Option (A × UnwindCtx Regs))
          → After Unit P r
          → After Unit P (elim r [ none ↦ none | some (a, ctx') ↦ f a ctx' ])
      by_outcome none h = tt
      by_outcome (some (a, ctx)) h = (kf a).at ctx h

  IsKeeper-pure : {A : Type 0} (a : A) → IsKeeper Unit P (pure a)
  IsKeeper-pure a = record { at = λ ctx h. h }

  IsKeeper-fail :
      {A : Type 0} (phase : LibunwindPhase) (status : ℤ)
      → IsKeeper Unit P (fail {A = A} phase status)
  IsKeeper-fail {A} phase status = record {
    at = λ ctx h. by_error (libunwind_error phase status) ctx h;
  }
    where
      by_error :
          (o : Option LibunwindError) (ctx : UnwindCtx Regs)
          → P ctx
          → After Unit P {A = Attempt A} (elim o [ none ↦ none | some e ↦ some (err e, ctx) ])
      by_error none ctx h = tt
      by_error (some e) ctx h = h

  IsKeeper-if :
      {A : Type 0} (t : Bool) (m n : Call Regs A)
      → IsKeeper Unit P m
      → IsKeeper Unit P n
      → IsKeeper Unit P (if t then m else n)
  IsKeeper-if true m n km kn = km
  IsKeeper-if false m n km kn = kn

  IsKeeper-outcome_of : (new_ip : ℕ) (r : Attempt (List ℕ)) → IsKeeper Unit P (outcome_of new_ip r)
  IsKeeper-outcome_of new_ip (ok extras) = IsKeeper-pure _
  IsKeeper-outcome_of new_ip (err e) = IsKeeper-pure _
  IsKeeper-outcome_of new_ip panic = record { at = λ ctx h. tt }

module _ {Cursor Regs : Type 0} (lib : Library Cursor) (access : ℤ → ℕ → ℤ → Regs → (ℤ × ℕ) × Regs)
    (P : UnwindCtx Regs → Type 0) (kept : IsKept Unit P access) where
  get_extras-IsKeeper :
      (cursor : Cursor) (regs : List ℤ) (index : ℕ) (extras : List ℕ)
      → IsKeeper Unit P (get_extras lib access cursor regs index extras)
  unfolding get_extras
  get_extras-IsKeeper cursor [] index extras = IsKeeper-pure P _
  get_extras-IsKeeper cursor (reg ∷ regs) index extras =
      IsKeeper-bind P (run access (lib.get_reg cursor reg 0)) _
        (run-IsKeeper Unit P access kept (lib.get_reg cursor reg 0))
        λ got.
          IsKeeper-if P (is_neg got.0.0) _ _
            (IsKeeper-if P (index == 0) _ _ (IsKeeper-fail P (get_register reg) got.0.0)
              (get_extras-IsKeeper got.1 regs (suc index) extras))
            (get_extras-IsKeeper got.1 regs (suc index) (set extras index got.0.1))

  read_step-IsKeeper :
      (ip_reg : ℤ) (extra_regs : List ℤ) (cursor : Cursor)
      → IsKeeper Unit P (read_step lib access ip_reg extra_regs cursor)
  unfolding read_step
  read_step-IsKeeper ip_reg extra_regs cursor =
      IsKeeper-bind P (run access (lib.get_reg cursor ip_reg 0)) _
        (run-IsKeeper Unit P access kept (lib.get_reg cursor ip_reg 0))
        λ got.
          IsKeeper-if P (is_neg got.0.0) _ _ (IsKeeper-fail P get_instruction_pointer got.0.0) (
            IsKeeper-bind P (get_extras lib access got.1 (take 4 extra_regs) 0 no_extras) _
              (get_extras-IsKeeper got.1 (take 4 extra_regs) 0 no_extras)
              (IsKeeper-outcome_of P got.0.1))

  pub init_and_step-IsKeeper :
      (ip_reg : ℤ) (extra_regs : List ℤ) (zeroed : Cursor)
      → IsKeeper Unit P (init_and_step lib access ip_reg extra_regs zeroed)
  unfolding init_and_step
  init_and_step-IsKeeper ip_reg extra_regs zeroed =
      IsKeeper-bind P (run access (lib.init_remote zeroed)) _
        (run-IsKeeper Unit P access kept (lib.init_remote zeroed))
        λ init. IsKeeper-if P (is_neg init.0) _ _ (IsKeeper-fail P init_remote init.0) (
          IsKeeper-bind P (run access (lib.step init.1)) _
            (run-IsKeeper Unit P access kept (lib.step init.1))
            λ moved. IsKeeper-if P (is_neg moved.0) _ _ (IsKeeper-fail P step moved.0) (
              IsKeeper-if P (is_zero moved.0) _ _ (IsKeeper-pure P _)
                (read_step-IsKeeper ip_reg extra_regs moved.1)))
