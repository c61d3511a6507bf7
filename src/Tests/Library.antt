-- ===== src/Tests/Library.antt =====
-- A small library in place of libunwind: it asks for the unwind information and pops one word.
use libunwinder.Prelude.{ℕ, [], ◌+◌, false, none, if◌then◌else◌}
use libunwinder.Prelude.Int.{negsuc, ℤ, pos, is_neg}
use libunwinder.Callbacks.Accessors.{UnwProcInfo}
use libunwinder.Libunwind.{Library, Routine, returns, find_proc_info, access_mem, access_reg}
use libunwinder.ModuleSet.{CacheStore}

abbrev pub blank : UnwProcInfo
blank = record {
  start_ip = 0;
  end_ip = 0;
  lsda = 0;
  handler = 0;
  gp = 0;
  flags = 0;
  format = pos 0;
  unwind_info_size = pos 0;
  unwind_info = none;
}

abbrev pub return_by : ℤ → ℕ → ℤ × ℕ → Routine (ℤ × Unit {0})
return_by ip_reg sp (status, word) =
    if is_neg status
    then returns (negsuc 7, tt)
    else access_reg ip_reg word (pos 1)
        λ _. access_reg (pos 7) (sp + 8) (pos 1) λ _. returns (pos 1, tt)

-- `ip_reg` is the register of the instruction pointer.
abbrev pub popping : ℤ → Library (Unit {0})
popping ip_reg = record {
  init_remote = λ cursor. returns (pos 0, cursor);
  step = λ cursor. find_proc_info 0 blank (pos 1) λ found.
      if is_neg found.0
      then returns (negsuc 9, cursor)
      else access_reg (pos 7) 0 (pos 0) λ sp. access_mem sp.1 0 (pos 0) (return_by ip_reg sp.1);
  get_reg = λ cursor reg val. access_reg reg val (pos 0) λ got.
      if is_neg got.0
      then returns ((negsuc 2, got.1), cursor)
      else returns ((pos 0, got.1), cursor);
}

abbrev pub no_caches : CacheStore
no_caches i = record { poisoned = false; functions = [] }
