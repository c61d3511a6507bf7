-- ===== src/UnwindCtx.antt =====
-- src/unwind_ctx.rs: what one `unwind_frame` call threads through libunwind to its callbacks. The
-- registers that `regs_ptr` points to, and the function caches behind the modules, stand in it.
use libunwinder.Prelude.{ℕ, Option}
use libunwinder.Error.{UnwindInfoError}
use libunwinder.ModuleSet.{ModuleSet, CacheStore}

-- The caller's `read_fn`: the word at an address, or nothing. The stack does not change while it is
-- unwound, so this is a function of the address.
abbrev pub ReadStack : Type 0
ReadStack = ℕ → Option ℕ

pub record UnwindCtx (Regs : Type 0) : Type 0 where
  pub modules : ModuleSet
  pub regs : Regs
  pub lookup_ip : ℕ
  pub read_fn : ReadStack
  pub last_failed_read_addr : Option ℕ
  pub unwind_info_error : Option UnwindInfoError
  pub caches : CacheStore
