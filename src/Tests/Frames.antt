-- ===== src/Tests/Frames.antt =====
-- A stack with two frame records, and steps of the frame-pointer fallback over it.
use libunwinder.Prelude.{
  ℕ, ◌+◌, ◌≤◌, ◌<◌, ◌^◌, ◌≡◌, ◌⊎◌, refl, arith, [], ◌∷◌, inl, none, some, ok, err, ◌==◌,
  if◌then◌else◌,
}
use libunwinder.Error.{
  could_not_read_stack, framepointer_unwinding_moved_backwards, integer_overflow,
}
use libunwinder.X8664.{
  UnwindRegs, ReadStack, fallback_unwind_frame, stepped, set, clear_unrestored_caller_registers, bp,
}
use libunwinder.FrameAddress.{instruction_pointer, return_address, address, address_for_lookup}
use libunwinder.UnwindIterator.{
  UnwindIterator, unwinding, done, iter_frames, next, walk, finished, Unwinder,
}
use libunwinder.Prelude.Int.{pos}
use libunwinder.ModuleSet.{
  CacheStore, find_module, has_unwind_info, unwind_info_error, is_signal_frame, ModuleSet,
}
use libunwinder.Prelude.BTreeMap.{last_le}
use libunwinder.X8664.Unwind.{unwinder, unwind_frame}
use libunwinder.Tests.Modules.{bare}
use libunwinder.Tests.Library.{popping, no_caches}
use libunwinder.X8664.Walk.{IsBare, IsStack, bottom, record_at, walk-IsStack}
use libunwinder.X8664.Walk.Termination.{HasEnded, walk-HasEnded}
use libunwinder.X8664.Fallback.{
  IsFrameAt, MovesBackwards, fallback_unwind_frame-some, fallback_unwind_frame-err,
}

abbrev stack : ReadStack
stack addr =
    if addr == 0x7000
    then some 0x7040
    else if addr == 0x7008
    then some 0x1234
    else if addr == 0x7040
    then some 0
    else none

abbrev regs : UnwindRegs
regs = record {
  ip = 0x800;
  regs = λ i. if i == 6 then 0x7000 else if i == 7 then 0x6ff0 else 0;
  valid_regs = λ i. i == 6;
}

step_run :
    fallback_unwind_frame stack 0x800 regs ≡ (ok (some 0x1234), stepped regs 0x1234 0x7010 0x7040)
unfolding fallback_unwind_frame
step_run = refl

fallback_unwind_frame-some_example :
    (new_bp : ℕ) × IsFrameAt stack 0x7000 new_bp 0x1234
    × (0x6ff0 < 0x7010)
    × (0x7010 < 2 ^ 64)
    × (stepped regs 0x1234 0x7010 0x7040 ≡ stepped regs 0x1234 0x7010 new_bp)
fallback_unwind_frame-some_example =
    fallback_unwind_frame-some stack 0x800 regs 0x1234 (stepped regs 0x1234 0x7010 0x7040) step_run

abbrev last_regs : UnwindRegs
last_regs = stepped regs 0x1234 0x7010 0x7040

unread : (fallback_unwind_frame stack 0x1234 last_regs).0 ≡ err (could_not_read_stack 0x7048)
unfolding fallback_unwind_frame set clear_unrestored_caller_registers
unread = refl

fallback_unwind_frame-err_example :
    ((could_not_read_stack 0x7048 ≡ integer_overflow) × (2 ^ 64 ≤ bp last_regs + 16))
    ⊎ ((could_not_read_stack 0x7048 ≡ framepointer_unwinding_moved_backwards)
        × MovesBackwards stack 0x1234 last_regs)
    ⊎ ((addr : ℕ) × (could_not_read_stack 0x7048 ≡ could_not_read_stack addr)
        × (stack addr ≡ none)
        × ((addr ≡ bp last_regs) ⊎ (addr ≡ bp last_regs + 8)))
fallback_unwind_frame-err_example =
    fallback_unwind_frame-err stack 0x1234 last_regs (could_not_read_stack 0x7048) unread

-- The whole stack: one frame record, whose caller has no frame pointer.
abbrev whole : ReadStack
whole addr = if addr == 0x7000 then some 0 else if addr == 0x7008 then some 0x1234 else none

whole-IsStack : IsStack whole 0x6ff0 0x7000 (0x1234 ∷ [])
whole-IsStack =
    record_at
      (record { saved_bp = refl; saved_ip = refl; grows = inl refl; nonzero = λ h. omega arith })
      (λ h. omega arith) (omega arith) (omega arith) bottom

-- Addresses inside a module without unwind sections.
abbrev bare_modules : ModuleSet
bare_modules = record { modules = (0x400, bare) ∷ []; redirects = [] }

bare_modules-IsBare : IsBare bare_modules no_caches
unfolding has_unwind_info unwind_info_error is_signal_frame find_module last_le
bare_modules-IsBare = record {
  no_error = λ addr. ground arith;
  no_info = λ addr. ground arith;
  no_signal = λ addr. ground arith;
}

abbrev over : ReadStack → Unwinder (UnwindRegs × CacheStore)
over read = unwinder (popping (pos 16)) tt bare_modules read

walk-IsStack_example :
    walk (over whole) 3 (iter_frames 0x800 (regs, no_caches))
    ≡ (instruction_pointer 0x800 ∷ return_address 0x1234 ∷ [], finished)
walk-IsStack_example =
    walk-IsStack (popping (pos 16)) tt bare_modules whole no_caches bare_modules-IsBare 3 0x800 regs
      (0x1234 ∷ []) whole-IsStack (omega arith)

walk-HasEnded_example :
    HasEnded (walk (over stack) (2 ^ 64) (iter_frames 0x800 (regs, no_caches))).1
walk-HasEnded_example =
    walk-HasEnded (popping (pos 16)) tt bare_modules stack no_caches bare_modules-IsBare (2 ^ 64)
      0x800 regs (omega arith)

abbrev at_bottom : UnwindIterator (UnwindRegs × CacheStore)
at_bottom = record {
  state = unwinding (return_address 0x1234);
  regs = (stepped regs 0x1234 0x7010 0, no_caches);
}

abbrev ended : UnwindIterator (UnwindRegs × CacheStore)
ended = record at_bottom { state = done }

bottom_run : next (over whole) at_bottom ≡ (ok none, ended)
unfolding next unwind_frame fallback_unwind_frame set clear_unrestored_caller_registers address
    address_for_lookup has_unwind_info unwind_info_error is_signal_frame find_module last_le
bottom_run = refl

abbrev at_unread : UnwindIterator (UnwindRegs × CacheStore)
at_unread = record { state = unwinding (return_address 0x1234); regs = (last_regs, no_caches) }

unread_run : next (over stack) at_unread ≡ (err (could_not_read_stack 0x7048), at_unread)
unfolding next unwind_frame fallback_unwind_frame set clear_unrestored_caller_registers address
    address_for_lookup has_unwind_info unwind_info_error is_signal_frame find_module last_le
unread_run = refl
