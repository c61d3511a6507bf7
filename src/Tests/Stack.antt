-- ===== src/Tests/Stack.antt =====
-- The driver's count over the module of one function: two frames, the second by a word of the
-- snapshot's stack.
use libunwinder.Prelude.{ℕ, ◌+◌, ◌≡◌, refl, arith, [], ◌∷◌, Result, ok, drop}
use libunwinder.Prelude.Int.{pos}
use libunwinder.Prelude.BTreeMap.{get, last_le}
use mathlib.Core.Option
use libunwinder.FrameAddress.{
  address, address_for_lookup, is_return_address, from_return_address, instruction_pointer,
}
use libunwinder.ModuleSet.{
  has_unwind_info, unwind_info_error, find_module, lookup_local, is_signal_frame, contains_address,
}
use libunwinder.Callbacks.{get_or_parse_function_details, cached}
use libunwinder.Callbacks.Accessors
use libunwinder.Callbacks.Accessors.{access_mem, find_proc_info}
use libunwinder.Callbacks.Context.{OwnsCaches}
use libunwinder.Libunwind.Calls.{run}
use libunwinder.AddressSpace.{init_and_step, read_step, get_extras}
use libunwinder.Unwind.{resumed_at}
use libunwinder.Unwind.Errors.{IsExplained}
use libunwinder.UnwindIterator.{walk, iter_frames}
use libunwinder.X8664.{new, set}
use libunwinder.X8664.Unwind.{access_reg, unwind_frame, unwinder}
use libunwinder.Benchmark.{Failure}
use libunwinder.Benchmark.Snapshot.{Snapshot, read_stack}
use libunwinder.Benchmark.Loading.{LoadedModule}
use libunwinder.Benchmark.Counting.{count_frames, rounds}
use libunwinder.Benchmark.Counting.Frames.{IsCount, leading}
use libunwinder.Benchmark.Stack.{unwind_stack, unwind_stack-IsCount, unwind_stack-walk}
use libunwinder.Tests.Library.{popping}
use libunwinder.Tests.Returns.{served, served-IsServable, popping-HasStatuses, one_fde-HasNoSignals}
use libunwinder.Tests.Steps.{known, known-AreCachesOf, made}

abbrev program : LoadedModule
program = record { modules = served; avma_range = record { start = 0x1000; end = 0x2000 } }

abbrev pub taken : Snapshot
taken = record {
  ip = 0x1008;
  sp = 0x7000;
  bp = 0;
  stack_start = 0x7000;
  stack = 0x0c ∷ 0x10 ∷ 0 ∷ 0 ∷ 0 ∷ 0 ∷ 0 ∷ 0 ∷ 0 ∷ 0x50 ∷ 0 ∷ 0 ∷ 0 ∷ 0 ∷ 0 ∷ 0 ∷ [];
}

served-OwnsCaches : OwnsCaches made served
unfolding get
served-OwnsCaches k m h = ground arith

two_frames :
    ◌≡◌ {A = Result (Failure (Unit {0}) (Unit {0})) ℕ}
      (unwind_stack (popping (pos 16)) tt program taken known).0
      (ok 2)
unfolding unwind_stack count_frames rounds unwind_frame unwind_info_error has_unwind_info
    find_module last_le run access_reg Accessors.access_reg access_mem find_proc_info lookup_local
    get_or_parse_function_details cached init_and_step read_step get_extras resumed_at address
    address_for_lookup is_return_address from_return_address read_stack new set Option.bind
    is_signal_frame contains_address
two_frames = refl

unwind_stack-IsCount_example :
    IsCount {IoError = Unit {0}} {ObjectError = Unit {0}}
      (unwinder (popping (pos 16)) tt served (read_stack taken))
      program.avma_range
      (λ e. (ip : ℕ) × IsExplained served (read_stack taken) ip e)
      1
      (unwind_frame
        (popping (pos 16))
        tt
        served
        (read_stack taken)
        (instruction_pointer 0x1008)
        (new 0x1008 0x7000 0)
        known)
      (unwind_stack (popping (pos 16)) tt program taken known).0
unwind_stack-IsCount_example =
    unwind_stack-IsCount (Unit {0}) (Unit {0}) (popping (pos 16)) tt program taken known made
      served-IsServable.well_formed served-OwnsCaches known-AreCachesOf popping-HasStatuses
      served-IsServable

unwind_stack-walk_example :
    2
    ≡ 1
      + leading program.avma_range (
          drop 1
            (walk
              (unwinder (popping (pos 16)) tt served (read_stack taken))
              257
              (iter_frames 0x1008 (new 0x1008 0x7000 0, known))).0)
unwind_stack-walk_example =
    unwind_stack-walk (Unit {0}) (Unit {0}) (popping (pos 16)) tt program taken known made
      served-IsServable.well_formed served-OwnsCaches known-AreCachesOf 257 2 one_fde-HasNoSignals
      (omega arith) two_frames
