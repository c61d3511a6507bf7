-- ===== src/Callbacks/Replies.antt =====
-- What `find_proc_info` and `access_mem` of src/callbacks.rs reply to libunwind.
use mathlib.Core.Path.{subst}
use libunwinder.Prelude.{
  ℕ, ◌+◌, ◌≤◌, ◌<◌, ◌^◌, ◌≡◌, refl, arith, List, Option, none, some, ok, err, panic, length, take,
  from_le_bytes,
}
use libunwinder.Prelude.Int.{ℤ, pos, neg}
use libunwinder.Module.{ModuleData, FunctionDetails, LocalSection}
use libunwinder.ModuleSet.{ModuleSet, find_module, lookup_local}
use libunwinder.ModuleSet.Lookup.{IsWellFormed, Contains, find_module-some}
use libunwinder.ModuleSet.Redirects.{IsMirrored, IsRedirect, lookup_local-some}
use libunwinder.UnwindCtx.{UnwindCtx}
use libunwinder.Callbacks.{Lookup, parse_function_details}
use libunwinder.Callbacks.Cache.{IsCacheOf, outcome, after, get_or_parse_function_details-ok}
use libunwinder.Callbacks.Context.{OwnsCaches, AreCachesOf}
use libunwinder.Callbacks.Accessors.{
  UnwProcInfo, proc_info_of, unw_esuccess, unw_einval, find_proc_info, find_in, reply, access_mem,
  word_at, word_of, local_word, stack_word,
}

-- The function that covers the looked-up address in the module there, parsed from that module.
pub record IsFunctionAt (s : ModuleSet) (ip : ℕ) (pi : UnwProcInfo) : Type 0 where
  pub entry : ModuleData
  pub found : find_module s ip ≡ some entry
  pub contains : Contains entry ip
  pub covers : (pi.start_ip ≤ ip) × (ip < pi.end_ip)
  pub parsed :
      (at : ℕ) × (d : FunctionDetails) × (parse_function_details entry at ≡ ok d)
      × (pi ≡ proc_info_of d)

module _ {Regs : Type 0} where
  -- If the modules are well-formed and have caches of their own with parses of them, a
  -- `find_proc_info` that succeeds describes a function that covers the context's address,
  -- whatever address it is asked for; the function was parsed from the module that contains the
  -- address.
  pub find_proc_info-ok :
      (made : ℕ → ModuleData) (ctx ctx' : UnwindCtx Regs) (pi pi' : UnwProcInfo)
      → IsWellFormed ctx.modules
      → OwnsCaches made ctx.modules
      → AreCachesOf made ctx.caches
      → find_proc_info pi ctx ≡ some ((unw_esuccess, pi'), ctx')
      → IsFunctionAt ctx.modules ctx.lookup_ip pi'
  unfolding find_proc_info
  find_proc_info-ok made ctx ctx' pi pi' w owns all h =
      by_module (find_module ctx.modules ctx.lookup_ip) refl h
    where
      by_lookup :
          (m : ModuleData) (r : Lookup FunctionDetails)
          → find_module ctx.modules ctx.lookup_ip ≡ some m
          → outcome ctx.caches m ctx.lookup_ip ≡ r
          → reply pi r (record ctx { caches = after ctx.caches m ctx.lookup_ip })
            ≡ some ((unw_esuccess, pi'), ctx')
          → IsFunctionAt ctx.modules ctx.lookup_ip pi'
      by_lookup m (ok d) found e h =
          let (contains, held) = find_module-some ctx.modules w ctx.lookup_ip m found in
          let (covers, (at, parsed)) =
            get_or_parse_function_details-ok ctx.caches m ctx.lookup_ip d
              (subst (λ (x : ModuleData). IsCacheOf x (ctx.caches m.cache_id))
                (owns m.avma_range.start m held) (all m.cache_id))
              e in
          subst (IsFunctionAt ctx.modules ctx.lookup_ip) {x = proc_info_of d} (ground arith)
            (record {
              entry = m;
              found = found;
              contains = contains;
              covers = covers;
              parsed = (at, d, parsed, refl);
            })
      by_lookup m (err x) found e h = cc
      by_lookup m panic found e h = cc

      by_module :
          (r : Option ModuleData)
          → find_module ctx.modules ctx.lookup_ip ≡ r
          → find_in r pi ctx ≡ some ((unw_esuccess, pi'), ctx')
          → IsFunctionAt ctx.modules ctx.lookup_ip pi'
      by_module none e h = cc
      by_module (some m) e h = by_lookup m (outcome ctx.caches m ctx.lookup_ip) e refl h

  -- From a mirror, else from the stack, else a failure that is recorded.
  pub data IsServed (addr val : ℕ) (ctx : UnwindCtx Regs) (r : Option ((ℤ × ℕ) × UnwindCtx Regs))
      : Type 0 where
    by_mirror :
        (sec : LocalSection) (bytes : List ℕ)
        → IsRedirect ctx.modules addr bytes sec
        → r ≡ some ((unw_esuccess, from_le_bytes (take 8 bytes)), ctx)
        → IsServed addr val ctx r
    by_stack :
        (v : ℕ)
        → ctx.read_fn addr ≡ some v
        → lookup_local ctx.modules addr ≡ none
        → r ≡ some ((unw_esuccess, v), ctx)
        → IsServed addr val ctx r
    failed :
        ctx.read_fn addr ≡ none
        → lookup_local ctx.modules addr ≡ none
        → r ≡ some ((neg unw_einval, val), record ctx { last_failed_read_addr = some addr })
        → IsServed addr val ctx r

  -- If every redirected section is a mirror of its addresses, a read below 2 ^ 64 - 8 returns. It
  -- gives the eight bytes of a registered section at the address, little end first; else what the
  -- stack holds there; else it fails, and the address is recorded.
  pub access_mem-IsServed :
      (ctx : UnwindCtx Regs) (addr val : ℕ)
      → IsMirrored ctx.modules.redirects
      → addr + 8 < 2 ^ 64
      → IsServed addr val ctx (access_mem addr val (pos 0) ctx)
  unfolding access_mem
  access_mem-IsServed ctx addr val mirrored small = by_section (lookup_local ctx.modules addr) refl
    where
      enough :
          (bytes : List ℕ) → 8 ≤ length bytes → word_of bytes ≡ some (from_le_bytes (take 8 bytes))
      enough bytes le = ground arith

      by_read :
          (v : Option ℕ)
          → ctx.read_fn addr ≡ v
          → lookup_local ctx.modules addr ≡ none
          → IsServed addr val ctx (stack_word addr val v ctx)
      by_read none e miss = failed e miss refl
      by_read (some v) e miss = by_stack v e miss refl

      by_section :
          (o : Option (List ℕ))
          → lookup_local ctx.modules addr ≡ o
          → IsServed addr val ctx (word_at addr val o ctx)
      by_section none e = by_read (ctx.read_fn addr) refl e
      by_section (some bytes) e =
          let (sec, at, le) = lookup_local-some ctx.modules addr bytes mirrored small e in
          by_mirror sec bytes at (λ i. local_word (enough bytes le i) ctx)
