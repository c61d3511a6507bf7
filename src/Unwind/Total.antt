-- ===== src/Unwind/Total.antt =====
-- That `unwind_frame` of either architecture returns, if libunwind does.
use libunwinder.Prelude.{ℕ, ◌≢◌, Option, none, some, ok, err, panic, List, refl}
use libunwinder.ModuleSet.{ModuleSet, CacheStore}
use libunwinder.UnwindCtx.{UnwindCtx, ReadStack}
use libunwinder.Libunwind.{Library}
use libunwinder.Libunwind.Total.{Returns, HasStatuses}
use libunwinder.Callbacks.Total.{IsServable, callbacks-AreTotal}
use libunwinder.AddressSpace.{StepOutcome, stepped, end_of_stack, Attempt}
use libunwinder.AddressSpace.Total.{IsSettled, init_and_step-IsTotal}
use libunwinder.Unwind.{Request, Backend, Returned, conclude, concluded, context, ask, unwind_with}
use libunwinder.Unwind.Promises.{unwind_with-cases}

-- What an architecture adds: that it does not panic by itself.
pub record NeverPanics {Raw Regs : Type 0} (r : Request Raw Regs) : Type 0 where
  pub step_to :
      (ctx : UnwindCtx Raw) (new_ip : ℕ) (extras : List ℕ) → (r.step_to ctx new_ip extras).0 ≢ panic
  pub fallback : r.fallback.0 ≢ panic

module _ {Raw Regs : Type 0} (r : Request Raw Regs) (never : NeverPanics r) where
  conclude-ne-panic :
      (ctx : UnwindCtx Raw) (outcome : Attempt StepOutcome)
      → IsSettled outcome
      → (conclude r ctx outcome).0 ≢ panic
  conclude-ne-panic ctx (ok end_of_stack) s h = cc
  conclude-ne-panic ctx (ok (stepped new_ip extras)) s h = never.step_to ctx new_ip extras h
  conclude-ne-panic ctx (err e) s h = cc
  conclude-ne-panic ctx panic s h = absurd s

  module _ {Cursor : Type 0} (lib : Library Cursor) (zeroed : Cursor) (b : Backend Raw)
      (modules : ModuleSet) (read : ReadStack) (caches : CacheStore) (statuses : HasStatuses lib)
      (servable : IsServable modules) where
    concluded-ne-panic :
        (o : Option (Attempt StepOutcome × UnwindCtx Raw))
        → Returns modules IsSettled o
        → (concluded r caches o).0 ≢ panic
    concluded-ne-panic none h = absurd h
    concluded-ne-panic (some (outcome, ctx)) h = conclude-ne-panic ctx outcome h.1

    pub unwind_with-ne-panic : (unwind_with lib zeroed b modules read r caches).0 ≢ panic
    unwind_with-ne-panic =
        unwind_with-cases lib zeroed b modules read r caches (λ (x : Returned Regs). x.0 ≢ panic)
          (λ e same h. cc)
          (concluded-ne-panic (ask lib zeroed b modules read r caches) (
            (init_and_step-IsTotal lib statuses b.access_reg modules
                (callbacks-AreTotal modules servable b.access_reg) b.ip_reg b.extra_regs zeroed).at
              (context lib zeroed b modules read r caches) refl))
          never.fallback
