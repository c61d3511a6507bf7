-- ===== src/Unwind/Promises.antt =====
-- What `unwind_frame` promises, whatever libunwind does, for both architectures: each adds what it
-- makes of a step to a new instruction pointer, and what its frame pointer gives.
use mathlib.Core.Path.{subst}
use libunwinder.Prelude.{
  ℕ, ◌≡◌, inl, refl, arith, Bool, true, false, Option, none, some, ok, err, panic, List,
}
use libunwinder.Error.{Error, UnwindInfoError, unwind_info}
use libunwinder.Module.{ModuleData}
use libunwinder.ModuleSet.{ModuleSet, CacheStore, has_unwind_info, unwind_info_error}
use libunwinder.ModuleSet.Lookup.{IsWellFormed}
use libunwinder.UnwindCtx.{UnwindCtx, ReadStack}
use libunwinder.Libunwind.{Library}
use libunwinder.Libunwind.Keeps.{After}
use libunwinder.Callbacks.Context.{IsSound, OwnsCaches, AreCachesOf}
use libunwinder.Callbacks.Context.Keeps.{callbacks-IsKept}
use libunwinder.AddressSpace.{StepOutcome, stepped, end_of_stack, Attempt}
use libunwinder.AddressSpace.Keeps.{init_and_step-IsKeeper}
use libunwinder.Unwind.{
  Request, Backend, Returned, commit, conclude, concluded, context, ask, unwind_by, unwind_with,
}
use libunwinder.Unwind.Errors.{IsExplained, IsFailure, error_of-IsExplained}

-- What an architecture adds: that the errors of its own are true, and leave the registers alone.
pub record HasTrueErrors {Raw Regs : Type 0} (modules : ModuleSet) (read : ReadStack)
    (r : Request Raw Regs) : Type 0 where
  pub step_to :
      (ctx : UnwindCtx Raw) (new_ip : ℕ) (extras : List ℕ) (e : Error)
      → (r.step_to ctx new_ip extras).0 ≡ err e
      → IsExplained modules read r.lookup_ip e × ((r.step_to ctx new_ip extras).1 ≡ r.regs)
  pub fallback :
      (e : Error)
      → r.fallback.0 ≡ err e
      → IsExplained modules read r.lookup_ip e × (r.fallback.1 ≡ r.regs)

module _ {Raw Regs : Type 0} (made : ℕ → ModuleData) (modules : ModuleSet) (read : ReadStack)
    (r : Request Raw Regs) where
  conclude-IsExplained :
      (ctx : UnwindCtx Raw) (outcome : Attempt StepOutcome) (e : Error)
      → HasTrueErrors modules read r
      → IsSound made modules read r.lookup_ip ctx
      → (conclude r ctx outcome).0 ≡ err e
      → IsExplained modules read r.lookup_ip e × ((conclude r ctx outcome).1 ≡ r.regs)
  conclude-IsExplained ctx (ok end_of_stack) e true_errors s h = cc
  conclude-IsExplained ctx (ok (stepped new_ip extras)) e true_errors s h =
      true_errors.step_to ctx new_ip extras e h
  conclude-IsExplained ctx (err x) e true_errors s h = (
    subst (IsExplained modules read r.lookup_ip) (ground arith)
        (error_of-IsExplained made modules read r.lookup_ip ctx x s),
    refl,
  )
  conclude-IsExplained ctx panic e true_errors s h = cc

  concluded-IsFailure :
      (caches : CacheStore) (o : Option (Attempt StepOutcome × UnwindCtx Raw)) (e : Error)
      → HasTrueErrors modules read r
      → After Unit (IsSound made modules read r.lookup_ip) o
      → (concluded r caches o).0 ≡ err e
      → IsFailure modules read r (concluded r caches o) e
  concluded-IsFailure caches none e true_errors s h = cc
  concluded-IsFailure caches (some (outcome, ctx)) e true_errors s h =
      conclude-IsExplained ctx outcome e true_errors s h

  concluded-AreCachesOf :
      (caches : CacheStore) (o : Option (Attempt StepOutcome × UnwindCtx Raw))
      → After Unit (IsSound made modules read r.lookup_ip) o
      → AreCachesOf made caches
      → AreCachesOf made (concluded r caches o).1.1
  concluded-AreCachesOf caches none s all = all
  concluded-AreCachesOf caches (some (outcome, ctx)) s all = s.caches

module _ {Raw Regs : Type 0} (r : Request Raw Regs) (P : ℕ → Regs → Type 0) where
  -- What holds of every frame that an architecture steps to by itself.
  pub record AllSteps : Type 0 where
    pub step_to :
        (ctx : UnwindCtx Raw) (new_ip : ℕ) (extras : List ℕ) (ra : ℕ) (regs' : Regs)
        → r.step_to ctx new_ip extras ≡ (ok (some ra), regs')
        → P ra regs'
    pub fallback : (ra : ℕ) (regs' : Regs) → r.fallback ≡ (ok (some ra), regs') → P ra regs'

  conclude-some :
      (ctx : UnwindCtx Raw) (outcome : Attempt StepOutcome) (ra : ℕ) (regs' : Regs)
      → AllSteps
      → conclude r ctx outcome ≡ (ok (some ra), regs')
      → P ra regs'
  conclude-some ctx (ok end_of_stack) ra regs' steps h = cc
  conclude-some ctx (ok (stepped new_ip extras)) ra regs' steps h =
      steps.step_to ctx new_ip extras ra regs' h
  conclude-some ctx (err x) ra regs' steps h = cc
  conclude-some ctx panic ra regs' steps h = cc

  concluded-some :
      (caches : CacheStore) (o : Option (Attempt StepOutcome × UnwindCtx Raw)) (ra : ℕ)
      → AllSteps
      → (concluded r caches o).0 ≡ ok (some ra)
      → P ra (concluded r caches o).1.0
  concluded-some caches none ra steps h = cc
  concluded-some caches (some (outcome, ctx)) ra steps h =
      conclude-some ctx outcome ra _ steps (λ i. (h i, (conclude r ctx outcome).1))

module _ {Cursor Raw Regs : Type 0} (lib : Library Cursor) (zeroed : Cursor) (b : Backend Raw)
    (modules : ModuleSet) (read : ReadStack) (r : Request Raw Regs) (caches : CacheStore) where
  abbrev outcome : Returned Regs
  outcome = unwind_with lib zeroed b modules read r caches

  -- One of three: the modules know why there is no table, libunwind is asked, or the frame pointer.
  pub unwind_with-cases :
      (P : Returned Regs → Type 0)
      → ((e : UnwindInfoError)
          → unwind_info_error modules r.lookup_ip ≡ some e
          → P (err (unwind_info e), (r.regs, caches)))
      → P (concluded r caches (ask lib zeroed b modules read r caches))
      → P (commit caches r.fallback)
      → P outcome
  unwind_with-cases P known asked fallen =
      by_cases (unwind_info_error modules r.lookup_ip) (has_unwind_info modules r.lookup_ip) refl
    where
      by_cases :
          (o : Option UnwindInfoError) (covered : Bool)
          → unwind_info_error modules r.lookup_ip ≡ o
          → P (unwind_by lib zeroed b modules read r o covered caches)
      by_cases (some e) covered same = known e same
      by_cases none true same = asked
      by_cases none false same = fallen

  pub unwind_with-some :
      (P : ℕ → Regs → Type 0) (ra : ℕ) → AllSteps r P → outcome.0 ≡ ok (some ra) → P ra outcome.1.0
  unwind_with-some P ra steps =
      unwind_with-cases (λ (x : Returned Regs). x.0 ≡ ok (some ra) → P ra x.1.0) (λ e same h. cc)
        (concluded-some r P caches (ask lib zeroed b modules read r caches) ra steps)
        (λ h. steps.fallback ra _ (λ i. (h i, r.fallback.1)))

  module _ (made : ℕ → ModuleData) (well_formed : IsWellFormed modules)
      (owns : OwnsCaches made modules) (all : AreCachesOf made caches) where
    through :
        After Unit (IsSound made modules read r.lookup_ip) (ask lib zeroed b modules read r caches)
    through =
        (init_and_step-IsKeeper lib b.access_reg (IsSound made modules read r.lookup_ip)
            (callbacks-IsKept made modules read r.lookup_ip well_formed owns b.access_reg) b.ip_reg
            b.extra_regs zeroed).at
          (context lib zeroed b modules read r caches)
          (record {
            same_modules = refl;
            same_read_fn = refl;
            same_lookup_ip = refl;
            caches = all;
            failed = λ a h. cc;
            info = λ e h. cc;
          })

    pub unwind_with-AreCachesOf : AreCachesOf made outcome.1.1
    unwind_with-AreCachesOf =
        unwind_with-cases (λ (x : Returned Regs). AreCachesOf made x.1.1) (λ e same. all)
          (concluded-AreCachesOf made modules read r caches (ask lib zeroed b modules read r caches)
            through all)
          all

    pub unwind_with-IsFailure :
        (e : Error)
        → HasTrueErrors modules read r
        → outcome.0 ≡ err e
        → IsFailure modules read r outcome e
    unwind_with-IsFailure e true_errors =
        unwind_with-cases (λ (x : Returned Regs). x.0 ≡ err e → IsFailure modules read r x e)
          (λ x same h. (
            subst (IsExplained modules read r.lookup_ip) {x = unwind_info x} (ground arith)
                (inl same),
            refl,
          ))
          (concluded-IsFailure made modules read r caches (ask lib zeroed b modules read r caches) e
            true_errors through)
          (true_errors.fallback e)
