-- ===== src/Unwind/Errors.antt =====
-- Why `unwind_frame` of either architecture fails.
use mathlib.Core.Path.{subst}
use libunwinder.Prelude.{ℕ, ◌≡◌, ◌⊎◌, inr, refl, Option, none, some}
use libunwinder.Error.{
  Error, UnwindInfoError, LibunwindError, could_not_read_stack,
  framepointer_unwinding_moved_backwards, did_not_advance, integer_overflow, unwind_info, libunwind,
  return_address_is_null,
}
use libunwinder.Module.{ModuleData}
use libunwinder.ModuleSet.{ModuleSet, unwind_info_error}
use libunwinder.UnwindCtx.{UnwindCtx, ReadStack}
use libunwinder.Callbacks.Context.{IsSound, IsLookupError}
use libunwinder.Unwind.{error_of, Request, Returned}

-- A failed read failed, and missing unwind information is missing; the other errors say nothing of
-- the stack and the modules. That a return address is null is no error, it ends the stack.
abbrev pub IsExplained : ModuleSet → ReadStack → ℕ → Error → Type 0
IsExplained modules read ip (could_not_read_stack addr) = read addr ≡ none
IsExplained modules read ip framepointer_unwinding_moved_backwards = Unit
IsExplained modules read ip did_not_advance = Unit
IsExplained modules read ip integer_overflow = Unit
IsExplained modules read ip (unwind_info e) =
    (unwind_info_error modules ip ≡ some e) ⊎ IsLookupError modules ip e
IsExplained modules read ip (libunwind e) = Unit
IsExplained modules read ip return_address_is_null = ⊥

-- What `unwind_frame` promises where it fails with `e`: it is true, and the registers are kept.
abbrev pub IsFailure :
    {Raw Regs : Type 0} → ModuleSet → ReadStack → Request Raw Regs → Returned Regs → Error → Type 0
IsFailure modules read r x e = IsExplained modules read r.lookup_ip e × (x.1.0 ≡ r.regs)

module _ {Regs : Type 0} (made : ℕ → ModuleData) (modules : ModuleSet) (read : ReadStack)
    (ip : ℕ) where
  pub error_of-IsExplained :
      (ctx : UnwindCtx Regs) (e : LibunwindError)
      → IsSound made modules read ip ctx
      → IsExplained modules read ip (error_of ctx.last_failed_read_addr ctx.unwind_info_error e)
  error_of-IsExplained ctx e h = by_cases ctx.last_failed_read_addr ctx.unwind_info_error refl refl
    where
      by_cases :
          (failed : Option ℕ) (info : Option UnwindInfoError)
          → ctx.last_failed_read_addr ≡ failed
          → ctx.unwind_info_error ≡ info
          → IsExplained modules read ip (error_of failed info e)
      by_cases (some a) info e1 e2 =
          subst (λ (f : ReadStack). f a ≡ none) h.same_read_fn (h.failed a e1).0
      by_cases none (some x) e1 e2 = inr (
          subst (λ (s : ModuleSet). IsLookupError s ip x) h.same_modules
            (subst (λ (i : ℕ). IsLookupError ctx.modules i x) h.same_lookup_ip (h.info x e2)))
      by_cases none none e1 e2 = tt
