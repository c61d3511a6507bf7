-- ===== src/Callbacks/Context.antt =====
-- What is true of the context that libunwind passes to the callbacks of src/callbacks.rs.
pub mod Keeps
use mathlib.Core.Option
use mathlib.Core.Path.{subst}
use libunwinder.Prelude.{
  ℕ, ◌≡◌, ◌≢◌, ◌⊎◌, inl, inr, refl, sym, arith, lt_cases, List, Option, none, some, ok, err, panic,
  Bool, true, false, if◌then◌else◌,
}
use libunwinder.Prelude.BTreeMap.{get}
use libunwinder.Prelude.Int.{ℤ, neg, is_zero}
use libunwinder.Error.{UnwindInfoError, module_not_found, function_cache_poisoned}
use libunwinder.Module.{ModuleData, FunctionDetails}
use libunwinder.ModuleSet.{ModuleSet, CacheStore, find_module, lookup_local}
use libunwinder.ModuleSet.Lookup.{IsWellFormed, find_module-some}
use libunwinder.UnwindCtx.{UnwindCtx, ReadStack}
use libunwinder.Callbacks.{
  Lookup, answer, cached, parse_function_details, get_or_parse_function_details,
}
use libunwinder.Callbacks.Cache.{
  IsCacheOf, outcome, after, get_or_parse_function_details-IsCacheOf,
  get_or_parse_function_details-err,
}
use libunwinder.Libunwind.Keeps.{After, IsKeeper, IsKept}
use libunwinder.Callbacks.Accessors.{
  unw_einval, UnwProcInfo, find_proc_info, find_in, reply, access_mem, access_reg, word_at, word_of,
  local_word, stack_word,
}

-- `made` is the module that each function cache was created for. A module set holds modules under
-- their own caches, and each cache holds parses of its module.
abbrev pub OwnsCaches : (ℕ → ModuleData) → ModuleSet → Type 0
OwnsCaches made s = (k : ℕ) (m : ModuleData) → get k s.modules ≡ some m → made m.cache_id ≡ m

abbrev pub AreCachesOf : (ℕ → ModuleData) → CacheStore → Type 0
AreCachesOf made caches = (i : ℕ) → IsCacheOf (made i) (caches i)

-- Why there is no unwind information for an address.
abbrev pub IsLookupError : ModuleSet → ℕ → UnwindInfoError → Type 0
IsLookupError s ip e =
    ((find_module s ip ≡ none) × (e ≡ module_not_found ip))
    ⊎ ((m : ModuleData) × (find_module s ip ≡ some m)
        × ((e ≡ function_cache_poisoned m.name) ⊎ (parse_function_details m ip ≡ err e)))

-- What is true of a context on its way through libunwind, for the call that made it.
pub record IsSound {Regs : Type 0} (made : ℕ → ModuleData) (modules : ModuleSet)
    (read_fn : ReadStack) (lookup_ip : ℕ) (ctx : UnwindCtx Regs) : Type 0 where
  pub same_modules : ctx.modules ≡ modules
  pub same_read_fn : ctx.read_fn ≡ read_fn
  pub same_lookup_ip : ctx.lookup_ip ≡ lookup_ip
  pub caches : AreCachesOf made ctx.caches
  pub failed :
      (a : ℕ)
      → ctx.last_failed_read_addr ≡ some a
      → (ctx.read_fn a ≡ none) × (lookup_local ctx.modules a ≡ none)
  pub info :
      (e : UnwindInfoError)
      → ctx.unwind_info_error ≡ some e
      → IsLookupError ctx.modules ctx.lookup_ip e

module _ (made : ℕ → ModuleData) (store : CacheStore) (m : ModuleData) (ip : ℕ) where
  -- A lookup in one of the modules keeps the caches of them all.
  pub kept_on_ok :
      (d : FunctionDetails)
      → made m.cache_id ≡ m
      → AreCachesOf made store
      → outcome store m ip ≡ ok d
      → AreCachesOf made (after store m ip)
  kept_on_ok d own all h i = elim (lt_cases i m.cache_id) [
    | inl lt ↦ rw (others.1 i (λ same. omega arith)) (all i)
    | inr (inl same) ↦
        subst (λ (x : ℕ). IsCacheOf (made x) (after store m ip x)) (sym same)
          (subst (λ (x : ModuleData). IsCacheOf x (after store m ip m.cache_id)) (sym own) others.0)
    | inr (inr gt) ↦ rw (others.1 i (λ same. omega arith)) (all i)
  ]
    where
      others :
          IsCacheOf m (after store m ip m.cache_id)
          × ((i : ℕ) → i ≢ m.cache_id → after store m ip i ≡ store i)
      others =
          get_or_parse_function_details-IsCacheOf store m ip d
            (subst (λ (x : ModuleData). IsCacheOf x (store m.cache_id)) own (all m.cache_id)) h

  pub kept_on_err :
      (e : UnwindInfoError)
      → AreCachesOf made store
      → outcome store m ip ≡ err e
      → AreCachesOf made (after store m ip)
  kept_on_err e all h =
      subst (AreCachesOf made) (sym (get_or_parse_function_details-err store m ip e h)) all

  pub outcome-err :
      (e : UnwindInfoError)
      → outcome store m ip ≡ err e
      → (e ≡ function_cache_poisoned m.name) ⊎ (parse_function_details m ip ≡ err e)
  unfolding get_or_parse_function_details
  outcome-err e h =
      by_cases (store m.cache_id).poisoned (cached (store m.cache_id) ip)
        (parse_function_details m ip) h
    where
      by_cases :
          (p : Bool) (hit : Option FunctionDetails) (parsed : Lookup FunctionDetails)
          → (answer store m p hit parsed).0 ≡ err e
          → (e ≡ function_cache_poisoned m.name) ⊎ (parsed ≡ err e)
      by_cases true hit parsed h = inl (ground arith)
      by_cases false (some d) parsed h = cc
      by_cases false none (ok d) h = cc
      by_cases false none (err x) h = inr h
      by_cases false none panic h = cc
