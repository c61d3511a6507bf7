-- ===== src/Callbacks/Context/Keeps.antt =====
-- That the callbacks of src/callbacks.rs keep the context sound.
use mathlib.Core.Option
use mathlib.Core.Path.{subst}
use libunwinder.Prelude.{
  ℕ, ◌≡◌, inl, inr, refl, sym, List, Option, none, some, ok, err, panic, Bool, true, false,
  if◌then◌else◌,
}
use libunwinder.Prelude.Int.{ℤ, neg, is_zero}
use libunwinder.Error.{UnwindInfoError, module_not_found}
use libunwinder.Module.{ModuleData, FunctionDetails}
use libunwinder.ModuleSet.{ModuleSet, CacheStore, find_module, lookup_local}
use libunwinder.ModuleSet.Lookup.{IsWellFormed, find_module-some}
use libunwinder.UnwindCtx.{UnwindCtx, ReadStack}
use libunwinder.Callbacks.{Lookup}
use libunwinder.Callbacks.Cache.{outcome, after}
use libunwinder.Libunwind.Keeps.{After, IsKeeper, IsKept}
use libunwinder.Callbacks.Accessors.{
  unw_einval, UnwProcInfo, find_proc_info, find_in, reply, access_mem, access_reg, word_at, word_of,
  local_word, stack_word,
}
use libunwinder.Callbacks.Context.{
  OwnsCaches, AreCachesOf, IsLookupError, IsSound, kept_on_ok, kept_on_err, outcome-err,
}

module _ {Regs : Type 0} (made : ℕ → ModuleData) (modules : ModuleSet) (read_fn : ReadStack)
    (lookup_ip : ℕ) where
  no_info-IsSound :
      (ctx : UnwindCtx Regs) (e : UnwindInfoError)
      → IsLookupError ctx.modules ctx.lookup_ip e
      → IsSound made modules read_fn lookup_ip ctx
      → IsSound made modules read_fn lookup_ip (record ctx { unwind_info_error = some e })
  no_info-IsSound ctx e why h = record {
    same_modules = h.same_modules;
    same_read_fn = h.same_read_fn;
    same_lookup_ip = h.same_lookup_ip;
    caches = h.caches;
    failed = h.failed;
    info = λ x same.
        subst (IsLookupError ctx.modules ctx.lookup_ip) (Option.some-injective _ _ same) why;
  }

  caches-IsSound :
      (ctx : UnwindCtx Regs) (caches : CacheStore)
      → AreCachesOf made caches
      → IsSound made modules read_fn lookup_ip ctx
      → IsSound made modules read_fn lookup_ip (record ctx { caches = caches })
  caches-IsSound ctx caches all h = record {
    same_modules = h.same_modules;
    same_read_fn = h.same_read_fn;
    same_lookup_ip = h.same_lookup_ip;
    caches = all;
    failed = h.failed;
    info = h.info;
  }

  failed-IsSound :
      (ctx : UnwindCtx Regs) (addr : ℕ)
      → ctx.read_fn addr ≡ none
      → lookup_local ctx.modules addr ≡ none
      → IsSound made modules read_fn lookup_ip ctx
      → IsSound made modules read_fn lookup_ip (record ctx { last_failed_read_addr = some addr })
  failed-IsSound ctx addr unread unmapped h = record {
    same_modules = h.same_modules;
    same_read_fn = h.same_read_fn;
    same_lookup_ip = h.same_lookup_ip;
    caches = h.caches;
    failed = λ a same.
        subst (λ (x : ℕ). (ctx.read_fn x ≡ none) × (lookup_local ctx.modules x ≡ none))
          (Option.some-injective _ _ same) (unread, unmapped);
    info = h.info;
  }

  access_reg-IsKeeper :
      (access : ℤ → ℕ → ℤ → Regs → (ℤ × ℕ) × Regs) (reg : ℤ) (val : ℕ) (write : ℤ)
      → IsKeeper Unit (IsSound made modules read_fn lookup_ip) (access_reg access reg val write)
  unfolding access_reg
  access_reg-IsKeeper access reg val write = record {
    at = λ ctx h. record {
      same_modules = h.same_modules;
      same_read_fn = h.same_read_fn;
      same_lookup_ip = h.same_lookup_ip;
      caches = h.caches;
      failed = h.failed;
      info = h.info;
    };
  }

  access_mem-IsKeeper :
      (addr val : ℕ) (write : ℤ)
      → IsKeeper {Regs = Regs} Unit
          (IsSound made modules read_fn lookup_ip)
          (access_mem addr val write)
  unfolding access_mem
  access_mem-IsKeeper addr val write = record { at = λ ctx h. by_kind (is_zero write) ctx h }
    where
      by_word :
          (word : Option ℕ) (ctx : UnwindCtx Regs)
          → IsSound made modules read_fn lookup_ip ctx
          → After Unit (IsSound made modules read_fn lookup_ip) (local_word word ctx)
      by_word none ctx h = tt
      by_word (some v) ctx h = h

      by_stack :
          (word : Option ℕ) (ctx : UnwindCtx Regs)
          → ctx.read_fn addr ≡ word
          → lookup_local ctx.modules addr ≡ none
          → IsSound made modules read_fn lookup_ip ctx
          → After Unit (IsSound made modules read_fn lookup_ip) (stack_word addr val word ctx)
      by_stack none ctx e unmapped h = failed-IsSound ctx addr e unmapped h
      by_stack (some v) ctx e unmapped h = h

      by_section :
          (bytes : Option (List ℕ)) (ctx : UnwindCtx Regs)
          → lookup_local ctx.modules addr ≡ bytes
          → IsSound made modules read_fn lookup_ip ctx
          → After Unit (IsSound made modules read_fn lookup_ip) (word_at addr val bytes ctx)
      by_section none ctx e h = by_stack (ctx.read_fn addr) ctx refl e h
      by_section (some bytes) ctx e h = by_word (word_of bytes) ctx h

      by_kind :
          (reads : Bool) (ctx : UnwindCtx Regs)
          → IsSound made modules read_fn lookup_ip ctx
          → After Unit (IsSound made modules read_fn lookup_ip) (
              if reads
              then word_at addr val (lookup_local ctx.modules addr) ctx
              else some ((neg unw_einval, val), ctx))
      by_kind true ctx h = by_section (lookup_local ctx.modules addr) ctx refl h
      by_kind false ctx h = h

  module _ (well_formed : IsWellFormed modules) (owns : OwnsCaches made modules) where
    find_proc_info-IsKeeper :
        (pi : UnwProcInfo)
        → IsKeeper {Regs = Regs} Unit (IsSound made modules read_fn lookup_ip) (find_proc_info pi)
    unfolding find_proc_info
    find_proc_info-IsKeeper pi = record {
      at = λ ctx h. by_module (find_module ctx.modules ctx.lookup_ip) ctx refl h;
    }
      where
        by_lookup :
            (r : Lookup FunctionDetails) (m : ModuleData) (ctx : UnwindCtx Regs)
            → find_module ctx.modules ctx.lookup_ip ≡ some m
            → outcome ctx.caches m ctx.lookup_ip ≡ r
            → IsSound made modules read_fn lookup_ip ctx
            → After Unit
                (IsSound made modules read_fn lookup_ip)
                (reply pi r (record ctx { caches = after ctx.caches m ctx.lookup_ip }))
        by_lookup (ok d) m ctx found e h =
            caches-IsSound ctx (after ctx.caches m ctx.lookup_ip)
              (kept_on_ok made ctx.caches m ctx.lookup_ip d
                (subst (OwnsCaches made) (sym h.same_modules) owns m.avma_range.start m
                  (find_module-some ctx.modules
                    (subst IsWellFormed (sym h.same_modules) well_formed) ctx.lookup_ip m found).1)
                h.caches e)
              h
        by_lookup (err x) m ctx found e h =
            no_info-IsSound (record ctx { caches = after ctx.caches m ctx.lookup_ip }) x
              (inr (m, found, outcome-err made ctx.caches m ctx.lookup_ip x e))
              (caches-IsSound ctx (after ctx.caches m ctx.lookup_ip)
                (kept_on_err made ctx.caches m ctx.lookup_ip x h.caches e) h)
        by_lookup panic m ctx found e h = tt

        by_module :
            (r : Option ModuleData) (ctx : UnwindCtx Regs)
            → find_module ctx.modules ctx.lookup_ip ≡ r
            → IsSound made modules read_fn lookup_ip ctx
            → After Unit (IsSound made modules read_fn lookup_ip) (find_in r pi ctx)
        by_module none ctx e h =
            no_info-IsSound ctx (module_not_found ctx.lookup_ip) (inl (e, refl)) h
        by_module (some m) ctx e h = by_lookup (outcome ctx.caches m ctx.lookup_ip) m ctx e refl h

    pub callbacks-IsKept :
        (access : ℤ → ℕ → ℤ → Regs → (ℤ × ℕ) × Regs)
        → IsKept Unit (IsSound made modules read_fn lookup_ip) access
    callbacks-IsKept access = record {
      find_proc_info = find_proc_info-IsKeeper;
      access_mem = access_mem-IsKeeper;
      access_reg = access_reg-IsKeeper access;
    }
