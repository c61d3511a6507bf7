-- ===== src/Arch/Reach.antt =====
-- The states that an unwinder of either architecture comes to: its modules and the function caches
-- behind them, by every sequence of `add_module`, `remove_module` and `unwind_frame`.
use mathlib.Core.Option.{some-injective}
use mathlib.Core.Path.{subst}
use libunwinder.Prelude.{
  ℕ, ◌≡◌, refl, sym, ◌∙◌, false, none, some, [], ◌==◌, if◌then◌else◌, Option-cases, inl, inr, Bool,
  true,
}
use libunwinder.Prelude.BTreeMap.{get}
use libunwinder.Prelude.BTreeMap.Laws.{get-insert, get-remove}
use libunwinder.FrameAddress.{FrameAddress}
use libunwinder.Module.{ModuleData, ModuleParts, from_parts}
use libunwinder.ModuleSet.{ModuleSet, CacheStore, new, add, remove}
use libunwinder.ModuleSet.Lookup.{
  IsWellFormed, new-IsWellFormed, add-IsWellFormed, remove-IsWellFormed,
}
use libunwinder.ModuleSet.Redirects.{
  IsMirrored, add-from_parts-IsMirrored, remove-redirects-IsMirrored,
}
use libunwinder.UnwindCtx.{ReadStack}
use libunwinder.Libunwind.{Library}
use libunwinder.Callbacks.Context.{OwnsCaches, AreCachesOf}
use libunwinder.Arch.{Arch, UnwindRegs, unwinder, unwind_frame-AreCachesOf}

abbrev pub no_functions : CacheStore
no_functions i = record { poisoned = false; functions = [] }

-- Every module is built by `from_parts`, which gives it a cache of its own: `made` is what each was
-- built of. A clone of a module is the module again.
module _ (arch : Arch) {Cursor : Type 0} (lib : Library Cursor) (zeroed : Cursor)
    (made : ℕ → ModuleParts) where
  abbrev pub module_of : ℕ → ModuleData
  module_of i = from_parts i (made i)

  pub data Reachable : ModuleSet → CacheStore → Type 0 where
    started : Reachable new no_functions
    added :
        {s : ModuleSet} {caches : CacheStore} (i : ℕ)
        → Reachable s caches
        → Reachable (add s (module_of i)) caches
    removed :
        {s : ModuleSet} {caches : CacheStore} (avma_start : ℕ)
        → Reachable s caches
        → Reachable (remove s avma_start) caches
    unwound :
        {s : ModuleSet} {caches : CacheStore} (read : ReadStack) (frame : FrameAddress)
        (regs : UnwindRegs arch)
        → Reachable s caches
        → Reachable s ((unwinder arch lib zeroed s read).unwind_frame frame (regs, caches)).1.1

  pub record IsConsistent (s : ModuleSet) (caches : CacheStore) : Type 0 where
    pub well_formed : IsWellFormed s
    pub mirrored : IsMirrored s.redirects
    pub owns : OwnsCaches module_of s
    pub caches_of : AreCachesOf module_of caches

  add-OwnsCaches :
      (s : ModuleSet) (i : ℕ) → OwnsCaches module_of s → OwnsCaches module_of (add s (module_of i))
  unfolding add from_parts
  add-OwnsCaches s i owns k m h =
      by_key ((module_of i).avma_range.start == k)
        (sym (get-insert k (module_of i).avma_range.start (module_of i) s.modules) ∙ h)
    where
      by_key :
          (t : Bool)
          → (if t then some (module_of i) else get k s.modules) ≡ some m
          → module_of m.cache_id ≡ m
      by_key true e =
          subst (λ (x : ModuleData). module_of x.cache_id ≡ x) (some-injective _ _ e) refl
      by_key false e = owns k m e

  remove-OwnsCaches :
      (s : ModuleSet) (avma_start : ℕ)
      → IsWellFormed s
      → OwnsCaches module_of s
      → OwnsCaches module_of (remove s avma_start)
  unfolding remove
  remove-OwnsCaches s avma_start w owns k m h = elim (Option-cases (get avma_start s.modules)) [
    | inl e ↦ owns k m (rw (e, remove) at h)
    | inr (entry, e) ↦
        by_key (avma_start == k)
          (sym (get-remove k avma_start s.modules w.ascending) ∙ rw (e, remove) at h)
  ]
    where
      by_key :
          (t : Bool) → (if t then none else get k s.modules) ≡ some m → module_of m.cache_id ≡ m
      by_key true e = cc
      by_key false e = owns k m e

  -- On either architecture, whatever modules are added and removed and whatever is unwound in
  -- between, through any libunwind: the modules are in order under their own starts, the
  -- redirected sections are mirrors under theirs, each module has the cache it was built with, and
  -- each cache maps the starts of functions to parses of its module.
  pub Reachable-IsConsistent :
      (s : ModuleSet) (caches : CacheStore) → Reachable s caches → IsConsistent s caches
  unfolding get
  Reachable-IsConsistent s caches started = record {
    well_formed = new-IsWellFormed;
    mirrored = record { ascending = tt; keyed = λ k sec h. cc h };
    owns = λ k m h. cc h;
    caches_of = λ i. record { ascending = tt; keyed = λ k d h. cc h; parsed = λ k d h. cc h };
  }
  Reachable-IsConsistent s caches (added {s = s'} i r) =
      let c = Reachable-IsConsistent s' caches r in
      record {
        well_formed = add-IsWellFormed s' (module_of i) c.well_formed;
        mirrored = add-from_parts-IsMirrored s' i (made i) c.mirrored;
        owns = add-OwnsCaches s' i c.owns;
        caches_of = c.caches_of;
      }
  Reachable-IsConsistent s caches (removed {s = s'} avma_start r) =
      let c = Reachable-IsConsistent s' caches r in
      record {
        well_formed = remove-IsWellFormed s' avma_start c.well_formed;
        mirrored = remove-redirects-IsMirrored s' avma_start c.mirrored;
        owns = remove-OwnsCaches s' avma_start c.well_formed c.owns;
        caches_of = c.caches_of;
      }
  Reachable-IsConsistent s caches (unwound {caches = caches'} read frame regs r) =
      let c = Reachable-IsConsistent s caches' r in
      record {
        well_formed = c.well_formed;
        mirrored = c.mirrored;
        owns = c.owns;
        caches_of =
            unwind_frame-AreCachesOf lib zeroed s read module_of c.well_formed c.owns arch frame
              (regs, caches') c.caches_of;
      }
