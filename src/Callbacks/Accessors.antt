-- ===== src/Callbacks/Accessors.antt =====
-- The callbacks of src/callbacks.rs that libunwind is given. A callback returns its status, what it
-- wrote through its out-pointer, and the context behind it; `none` where it does not return: a panic,
-- or a read of eight local bytes where fewer are left.
use libunwinder.Prelude.{
  ℕ, List, Option, none, some, ok, err, panic, leb, if◌then◌else◌, length, take, from_le_bytes,
}
use libunwinder.Prelude.Int.{ℤ, pos, neg, is_zero}
use libunwinder.Error.{UnwindInfoError, module_not_found}
use libunwinder.CieInfo.{DwarfCieInfo}
use libunwinder.Module.{ModuleData, FunctionDetails}
use libunwinder.ModuleSet.{find_module, lookup_local}
use libunwinder.UnwindCtx.{UnwindCtx}
use libunwinder.Callbacks.{Lookup, get_or_parse_function_details}

abbrev pub unw_esuccess : ℤ
unw_esuccess = pos 0

abbrev pub unw_ebadreg : ℕ
unw_ebadreg = 3

abbrev pub unw_einval : ℕ
unw_einval = 8

abbrev pub unw_enoinfo : ℕ
unw_enoinfo = 10

abbrev pub unw_info_format_remote_table : ℤ
unw_info_format_remote_table = pos 2

-- `size_of::<DwarfCieInfo>()`
abbrev pub dwarf_cie_info_size : ℤ
dwarf_cie_info_size = pos 80

-- `unwind_info` is what the pointer points to. `extra` is never written.
pub record UnwProcInfo : Type 0 where
  pub start_ip : ℕ
  pub end_ip : ℕ
  pub lsda : ℕ
  pub handler : ℕ
  pub gp : ℕ
  pub flags : ℕ
  pub format : ℤ
  pub unwind_info_size : ℤ
  pub unwind_info : Option DwarfCieInfo

abbrev pub proc_info_of : FunctionDetails → UnwProcInfo
proc_info_of details = record {
  start_ip = details.start_ip;
  end_ip = details.end_ip;
  lsda = details.lsda;
  handler = details.handler;
  gp = 0;
  flags = 0;
  format = unw_info_format_remote_table;
  unwind_info_size = dwarf_cie_info_size;
  unwind_info = some details.cie_info;
}

-- A call that works on the context, and may not return.
abbrev pub Call : Type 0 → Type 0 → Type 0
Call Regs A = UnwindCtx Regs → Option (A × UnwindCtx Regs)

-- The word that a local pointer points to.
abbrev pub word_of : List ℕ → Option ℕ
word_of bytes = if leb 8 (length bytes) then some (from_le_bytes (take 8 bytes)) else none

module _ {Regs : Type 0} where
  abbrev pub no_info : UnwindInfoError → UnwProcInfo → Call Regs (ℤ × UnwProcInfo)
  no_info e pi ctx = some ((neg unw_enoinfo, pi), record ctx { unwind_info_error = some e })

  -- What `find_proc_info` makes of a lookup in the function cache.
  abbrev pub reply : UnwProcInfo → Lookup FunctionDetails → Call Regs (ℤ × UnwProcInfo)
  reply pi (ok details) ctx = some ((unw_esuccess, proc_info_of details), ctx)
  reply pi (err e) ctx = no_info e pi ctx
  reply pi panic ctx = none

  abbrev pub find_in : Option ModuleData → UnwProcInfo → Call Regs (ℤ × UnwProcInfo)
  find_in none pi ctx = no_info (module_not_found ctx.lookup_ip) pi ctx
  find_in (some m) pi ctx =
      let found = get_or_parse_function_details ctx.caches m ctx.lookup_ip in
      reply pi found.0 (record ctx { caches = found.1 })

  -- The address that libunwind asks for is ignored in favour of the context's.
  unfoldable pub find_proc_info : UnwProcInfo → Call Regs (ℤ × UnwProcInfo)
  find_proc_info pi ctx = find_in (find_module ctx.modules ctx.lookup_ip) pi ctx

  abbrev pub local_word : Option ℕ → Call Regs (ℤ × ℕ)
  local_word none ctx = none
  local_word (some v) ctx = some ((unw_esuccess, v), ctx)

  abbrev pub stack_word : ℕ → ℕ → Option ℕ → Call Regs (ℤ × ℕ)
  stack_word addr val (some v) ctx = some ((unw_esuccess, v), ctx)
  stack_word addr val none ctx =
      some ((neg unw_einval, val), record ctx { last_failed_read_addr = some addr })

  abbrev pub word_at : ℕ → ℕ → Option (List ℕ) → Call Regs (ℤ × ℕ)
  word_at addr val (some bytes) ctx = local_word (word_of bytes) ctx
  word_at addr val none ctx = stack_word addr val (ctx.read_fn addr) ctx

  -- `val` is what the out-pointer holds before the call.
  unfoldable pub access_mem : ℕ → ℕ → ℤ → Call Regs (ℤ × ℕ)
  access_mem addr val write ctx =
      if is_zero write
      then word_at addr val (lookup_local ctx.modules addr) ctx
      else some ((neg unw_einval, val), ctx)

  unfoldable pub get_dyn_info_list_addr : ℕ → Call Regs (ℤ × ℕ)
  get_dyn_info_list_addr val ctx = some ((neg unw_enoinfo, val), ctx)

  unfoldable pub access_fpreg : Call Regs ℤ
  access_fpreg ctx = some (neg unw_ebadreg, ctx)

  -- `access` is the architecture's `access_reg` on its own registers.
  unfoldable pub access_reg : (ℤ → ℕ → ℤ → Regs → (ℤ × ℕ) × Regs) → ℤ → ℕ → ℤ → Call Regs (ℤ × ℕ)
  access_reg access reg val write ctx =
      let done = access reg val write ctx.regs in some (done.0, record ctx { regs = done.1 })
