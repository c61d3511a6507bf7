-- ===== src/Callbacks/Total.antt =====
-- That the callbacks of src/callbacks.rs return.
use libunwinder.Prelude.{
  ℕ, ◌+◌, ◌-◌, ◌≤◌, ◌<◌, ◌^◌, ◌≡◌, ◌≢◌, inl, inr, refl, arith, List, Option, none, some, ok, err,
  panic, Bool, true, false, if◌then◌else◌, Option-cases, length, leb, ◌&&◌, saturating_add, drop,
}
use mathlib.Core.Path.{subst}
use libunwinder.Prelude.BTreeMap.{get, last_le}
use libunwinder.Prelude.BTreeMap.Laws.{last_le-some}
use libunwinder.Prelude.Int.{ℤ, is_zero, neg}
use libunwinder.Module.{ModuleData, FunctionDetails, LocalSection}
use libunwinder.ModuleSet.{ModuleSet, CacheStore, find_module, lookup_local}
use libunwinder.ModuleSet.Lookup.{IsWellFormed, find_module-some}
use libunwinder.ModuleSet.Redirects.{IsMirrored, lookup_local-some}
use libunwinder.UnwindCtx.{UnwindCtx}
use libunwinder.Callbacks.{
  Lookup, answer, cached, parse_function_details, get_or_parse_function_details,
}
use libunwinder.Callbacks.Cache.{outcome, after}
use libunwinder.Callbacks.Accessors.{
  UnwProcInfo, unw_einval, find_proc_info, find_in, reply, access_mem, access_reg, word_at, word_of,
  local_word, stack_word,
}
use libunwinder.Libunwind.Total.{IsTotal, Returns, Any, AreTotal}

-- Redirected reads stay inside the mirrors, none of which reaches the last address, and no function
-- of a module has entries that stop the parsers.
pub record IsServable (modules : ModuleSet) : Type 0 where
  pub well_formed : IsWellFormed modules
  pub mirrored : IsMirrored modules.redirects
  pub bounded :
      (k : ℕ) (sec : LocalSection) → get k modules.redirects ≡ some sec → sec.avma_end < 2 ^ 64 - 1
  pub parses :
      (k : ℕ) (m : ModuleData) (ip : ℕ)
      → get k modules.modules ≡ some m
      → parse_function_details m ip ≢ panic

module _ (modules : ModuleSet) (w : IsServable modules) where
  lookup_local-small :
      (addr : ℕ) (bytes : List ℕ) → lookup_local modules addr ≡ some bytes → addr + 8 < 2 ^ 64
  unfolding lookup_local
  lookup_local-small addr bytes h = elim (Option-cases (last_le addr modules.redirects)) [
    | inl e ↦ cc (rw (e, lookup_local) at h)
    | inr ((k, sec), e) ↦
        let (low, at, above) = last_le-some addr modules.redirects k sec w.mirrored.ascending e in
        inside sec (w.bounded k sec at) (rw (e, lookup_local) at h)
  ]
    where
      inside :
          (sec : LocalSection)
          → sec.avma_end < 2 ^ 64 - 1
          → (if leb sec.avma_start addr && leb (saturating_add addr 8) sec.avma_end
              then some (drop (addr - sec.avma_start) sec.local_bytes)
              else none)
            ≡ some bytes
          → addr + 8 < 2 ^ 64
      inside sec small e = ground arith

  outcome-ne-panic :
      (store : CacheStore) (m : ModuleData) (ip : ℕ)
      → parse_function_details m ip ≢ panic
      → outcome store m ip ≢ panic
  unfolding get_or_parse_function_details
  outcome-ne-panic store m ip parses =
      by_cases (store m.cache_id).poisoned (cached (store m.cache_id) ip)
        (parse_function_details m ip) parses
    where
      by_cases :
          (p : Bool) (hit : Option FunctionDetails) (parsed : Lookup FunctionDetails)
          → parsed ≢ panic
          → (answer store m p hit parsed).0 ≢ panic
      by_cases true hit parsed n h = cc
      by_cases false (some d) parsed n h = cc
      by_cases false none (ok d) n h = cc
      by_cases false none (err x) n h = cc
      by_cases false none panic n h = n refl

  module _ {Regs : Type 0} where
    reply-Returns :
        (pi : UnwProcInfo) (r : Lookup FunctionDetails) (ctx : UnwindCtx Regs)
        → r ≢ panic
        → ctx.modules ≡ modules
        → Returns modules Any (reply pi r ctx)
    reply-Returns pi (ok d) ctx n h = (h, tt)
    reply-Returns pi (err e) ctx n h = (h, tt)
    reply-Returns pi panic ctx n h = absurd (n refl)

    find_proc_info-IsTotal :
        (pi : UnwProcInfo) → IsTotal {Regs = Regs} modules Any (find_proc_info pi)
    unfolding find_proc_info
    find_proc_info-IsTotal pi = record {
      at = λ ctx h. by_module (find_module ctx.modules ctx.lookup_ip) ctx refl h;
    }
      where
        by_module :
            (r : Option ModuleData) (ctx : UnwindCtx Regs)
            → find_module ctx.modules ctx.lookup_ip ≡ r
            → ctx.modules ≡ modules
            → Returns modules Any (find_in r pi ctx)
        by_module none ctx e h = (h, tt)
        by_module (some m) ctx e h =
            let found : find_module modules ctx.lookup_ip ≡ some m =
              subst (λ (s : ModuleSet). find_module s ctx.lookup_ip ≡ some m) h e in
            reply-Returns pi (outcome ctx.caches m ctx.lookup_ip)
              (record ctx { caches = after ctx.caches m ctx.lookup_ip })
              (outcome-ne-panic ctx.caches m ctx.lookup_ip (
                w.parses m.avma_range.start m ctx.lookup_ip
                  (find_module-some modules w.well_formed ctx.lookup_ip m found).1))
              h

    access_mem-IsTotal :
        (addr val : ℕ) (write : ℤ) → IsTotal {Regs = Regs} modules Any (access_mem addr val write)
    unfolding access_mem
    access_mem-IsTotal addr val write = record { at = λ ctx h. by_kind (is_zero write) ctx h }
      where
        by_stack :
            (v : Option ℕ) (ctx : UnwindCtx Regs)
            → ctx.modules ≡ modules
            → Returns modules Any (stack_word addr val v ctx)
        by_stack none ctx h = (h, tt)
        by_stack (some v) ctx h = (h, tt)

        by_word :
            (v : Option ℕ) (ctx : UnwindCtx Regs)
            → v ≢ none
            → ctx.modules ≡ modules
            → Returns modules Any (local_word v ctx)
        by_word none ctx n h = absurd (n refl)
        by_word (some v) ctx n h = (h, tt)

        enough : (bytes : List ℕ) → 8 ≤ length bytes → word_of bytes ≢ none
        enough bytes le e = ground arith

        by_section :
            (bytes : Option (List ℕ)) (ctx : UnwindCtx Regs)
            → lookup_local ctx.modules addr ≡ bytes
            → ctx.modules ≡ modules
            → Returns modules Any (word_at addr val bytes ctx)
        by_section none ctx e h = by_stack (ctx.read_fn addr) ctx h
        by_section (some bytes) ctx e h =
            let found : lookup_local modules addr ≡ some bytes =
              subst (λ (s : ModuleSet). lookup_local s addr ≡ some bytes) h e in
            let (sec, at, le) =
              lookup_local-some modules addr bytes w.mirrored (lookup_local-small addr bytes found)
                found in
            by_word (word_of bytes) ctx (enough bytes le) h

        by_kind :
            (reads : Bool) (ctx : UnwindCtx Regs)
            → ctx.modules ≡ modules
            → Returns modules Any (
                if reads
                then word_at addr val (lookup_local ctx.modules addr) ctx
                else some ((neg unw_einval, val), ctx))
        by_kind true ctx h = by_section (lookup_local ctx.modules addr) ctx refl h
        by_kind false ctx h = (h, tt)

    pub callbacks-AreTotal : (access : ℤ → ℕ → ℤ → Regs → (ℤ × ℕ) × Regs) → AreTotal modules access
    unfolding access_reg
    callbacks-AreTotal access = record {
      find_proc_info = find_proc_info-IsTotal;
      access_mem = access_mem-IsTotal;
      access_reg = λ reg val write. record { at = λ ctx h. (h, tt) };
    }
