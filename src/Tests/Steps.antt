-- ===== src/Tests/Steps.antt =====
-- Steps through the small library over the module of one function, from a full cache.
use libunwinder.Prelude.{
  ℕ, ◌≡◌, refl, arith, [], ◌∷◌, false, none, some, ok, err, ◌==◌, if◌then◌else◌, ◌||◌, inl, take,
  drop, from_le_bytes,
}
use libunwinder.Prelude.Int.{pos}
use libunwinder.Prelude.BTreeMap.{get, last_le}
use libunwinder.Error.{libunwind_error, from_status, could_not_read_stack}
use libunwinder.FrameAddress.{instruction_pointer, address, address_for_lookup, is_return_address}
use libunwinder.Module.{ModuleData}
use libunwinder.ModuleSet.{
  CacheStore, ModuleSet, new, add, find_module, has_unwind_info, unwind_info_error, lookup_local,
}
use libunwinder.UnwindCtx.{ReadStack, UnwindCtx}
use libunwinder.Callbacks.{get_or_parse_function_details, cached}
use libunwinder.Callbacks.Context.{OwnsCaches, AreCachesOf}
use libunwinder.Callbacks.Accessors
use libunwinder.Callbacks.Accessors.{proc_info_of, unw_esuccess, find_proc_info, access_mem}
use libunwinder.Callbacks.Replies.{IsFunctionAt, IsServed, find_proc_info-ok, access_mem-IsServed}
use libunwinder.Libunwind.Calls.{run}
use libunwinder.AddressSpace.{init_and_step, read_step, get_extras}
use libunwinder.Unwind.{resumed_at}
use libunwinder.Unwind.Errors.{IsExplained, IsFailure}
use libunwinder.UnwindIterator.{UnwindIterator, iter_frames, walk, next, failed}
use libunwinder.X8664.{UnwindRegs}
use libunwinder.X8664.Unwind.{RawRegs, access_reg, request, unwind_frame, unwinder}
use libunwinder.X8664.Unwind.Steps.{IsAdvance}
use libunwinder.X8664.Unwind.Promises.{unwind_frame-IsAdvance, unwind_frame-IsFailure}
use libunwinder.X8664.Unwind.Registers.{IsWritten, access_reg-IsWritten}
use libunwinder.Arch.{x86_64}
use libunwinder.Arch.Walk.{walk-failed}
use libunwinder.Arch.Reach.{
  IsConsistent, Reachable-IsConsistent, module_of, started, added, unwound, no_functions,
}
use libunwinder.ModuleSet.Redirects.{IsMirrored}
use libunwinder.ModuleSet.Mirrors.{IsClear}
use libunwinder.Callbacks.Instructions.{frame_section, access_mem-instructions}
use libunwinder.Tests.Entries.{frame_bytes}
use libunwinder.Tests.Library.{popping, blank}
use libunwinder.Tests.Functions.{one_fde, details}
use libunwinder.Tests.Functions
use libunwinder.Tests.Modules.{one, one-IsWellFormed}
use libunwinder.Tests.Sections.{parts, mirrors, mirrors-IsMirrored}

abbrev pub known : CacheStore
known i = record { poisoned = false; functions = (0x1000, details) ∷ [] }

abbrev pub made : ℕ → ModuleData
made i = one_fde

one-OwnsCaches : OwnsCaches made one
unfolding get
one-OwnsCaches k m h = ground arith

pub known-AreCachesOf : AreCachesOf made known
unfolding get
known-AreCachesOf i = record {
  ascending = (tt, tt);
  keyed = λ k d h. ground arith;
  parsed = λ k d h. (0x1008, ground (arith, Functions.run));
}

abbrev pub regs : UnwindRegs
regs = record {
  ip = 0x1008;
  regs = λ i. if i == 6 then 0x7000 else if i == 7 then 0x6ff0 else 0;
  valid_regs = λ i. i == 6 || i == 7;
}

abbrev top : ReadStack
top addr = if addr == 0x6ff0 then some 0x1234 else none

abbrev nothing : ReadStack
nothing addr = none

popped :
    (unwind_frame (popping (pos 16)) tt one top (instruction_pointer 0x1008) regs known).0
    ≡ ok (some 0x1234)
unfolding unwind_frame unwind_info_error has_unwind_info find_module last_le run access_reg
    Accessors.access_reg access_mem find_proc_info lookup_local get_or_parse_function_details cached
    init_and_step read_step get_extras resumed_at address address_for_lookup is_return_address
popped = refl

unwind_frame-IsAdvance_example :
    IsAdvance
      (instruction_pointer 0x1008)
      regs
      0x1234
      (unwind_frame (popping (pos 16)) tt one top (instruction_pointer 0x1008) regs known).1.0
unwind_frame-IsAdvance_example =
    unwind_frame-IsAdvance (popping (pos 16)) tt one top (instruction_pointer 0x1008) regs known
      0x1234 popped

unread :
    (unwind_frame (popping (pos 16)) tt one nothing (instruction_pointer 0x1008) regs known).0
    ≡ err (could_not_read_stack 0x6ff0)
unfolding unwind_frame unwind_info_error has_unwind_info find_module last_le run access_reg
    Accessors.access_reg access_mem find_proc_info lookup_local get_or_parse_function_details cached
    init_and_step read_step get_extras resumed_at address address_for_lookup is_return_address
    libunwind_error from_status
unread = refl

unwind_frame-IsFailure_example :
    IsFailure one nothing
      (request nothing (instruction_pointer 0x1008) regs)
      (unwind_frame (popping (pos 16)) tt one nothing (instruction_pointer 0x1008) regs known)
      (could_not_read_stack 0x6ff0)
unwind_frame-IsFailure_example =
    unwind_frame-IsFailure (popping (pos 16)) tt one nothing (instruction_pointer 0x1008) regs known
      made one-IsWellFormed one-OwnsCaches known-AreCachesOf (could_not_read_stack 0x6ff0) unread

abbrev walked : UnwindIterator (UnwindRegs × CacheStore)
walked = iter_frames 0x1008 (regs, known)

walk_run :
    (walk (unwinder (popping (pos 16)) tt one nothing) 3 walked).1
    ≡ failed (could_not_read_stack 0x6ff0)
unfolding walk next unwind_frame unwind_info_error has_unwind_info find_module last_le run
    access_reg Accessors.access_reg access_mem find_proc_info lookup_local
    get_or_parse_function_details cached init_and_step read_step get_extras resumed_at address
    address_for_lookup is_return_address libunwind_error from_status
walk_run = refl

walk-failed_example : (ip : ℕ) × IsExplained one nothing ip (could_not_read_stack 0x6ff0)
walk-failed_example =
    walk-failed x86_64 (popping (pos 16)) tt one nothing made one-IsWellFormed one-OwnsCaches 3
      walked (could_not_read_stack 0x6ff0) known-AreCachesOf walk_run

abbrev raw : RawRegs
raw = regs

access_reg-IsWritten_example : IsWritten (pos 3) 5 0 raw (access_reg (pos 3) 5 (pos 1) raw)
access_reg-IsWritten_example = access_reg-IsWritten raw 5 0 (pos 1) refl (pos 3)

abbrev looking : UnwindCtx RawRegs
looking = record {
  modules = one;
  regs = raw;
  lookup_ip = 0x1008;
  read_fn = top;
  last_failed_read_addr = none;
  unwind_info_error = none;
  caches = known;
}

described : find_proc_info blank looking ≡ some ((unw_esuccess, proc_info_of details), looking)
unfolding find_proc_info find_module last_le get_or_parse_function_details cached
described = refl

find_proc_info-ok_example : IsFunctionAt one 0x1008 (proc_info_of details)
find_proc_info-ok_example =
    find_proc_info-ok made looking looking blank (proc_info_of details) one-IsWellFormed
      one-OwnsCaches known-AreCachesOf described

abbrev mirroring : UnwindCtx RawRegs
mirroring = record looking { modules = mirrors }

access_mem-IsServed_example : IsServed 0x400c 0 mirroring (access_mem 0x400c 0 (pos 0) mirroring)
access_mem-IsServed_example =
    access_mem-IsServed mirroring 0x400c 0 mirrors-IsMirrored (omega arith)

abbrev framed : ModuleSet
framed = record {
  modules = one.modules;
  redirects = (0x3000, frame_section one_fde frame_bytes) ∷ [];
}

framed-IsMirrored : IsMirrored framed.redirects
unfolding get
framed-IsMirrored = record { ascending = (tt, tt); keyed = λ k sec h. ground arith }

framed-IsClear : IsClear framed (frame_section one_fde frame_bytes)
unfolding get
framed-IsClear = record {
  registered = refl;
  small = omega arith;
  alone = λ k other h lt. ground arith;
}

-- The first instruction of the CIE.
access_mem-instructions_example :
    access_mem 0x3011 0 (pos 0) (record looking { modules = framed })
    ≡ some (
      (unw_esuccess, from_le_bytes (take 8 (drop 0x11 frame_bytes))),
      record looking { modules = framed },
    )
access_mem-instructions_example =
    access_mem-instructions (record looking { modules = framed }) one_fde 0x1008 details frame_bytes
      0x3011 0 Functions.run refl (omega arith) framed-IsMirrored framed-IsClear
      (inl (omega arith, omega arith)) (omega arith)

abbrev grown : ModuleSet
grown = add new (module_of x86_64 (popping (pos 16)) tt (λ i. parts) 0)

abbrev stepped_caches : CacheStore
stepped_caches =
    (unwind_frame (popping (pos 16)) tt grown top (instruction_pointer 0x1008) regs
      no_functions).1.1

Reachable-IsConsistent_example :
    IsConsistent x86_64 (popping (pos 16)) tt (λ i. parts) grown stepped_caches
Reachable-IsConsistent_example =
    Reachable-IsConsistent x86_64 (popping (pos 16)) tt (λ i. parts) grown stepped_caches
      (unwound top (instruction_pointer 0x1008) regs (added 0 started))
