-- ===== src/Benchmark.antt =====
-- examples/cpp_unwind_bench.rs: the driver that unwinds the snapshot of a C++ program's stack.
pub mod Snapshot
pub mod LoadRange
pub mod Counting
pub mod Loading
pub mod Stack
pub mod Host
pub mod Report
use Prim.Native.String.{String}
use libunwinder.Prelude.{ℕ}
use libunwinder.Error.{Error}
use libunwinder.Module.Mmap.{MmapModuleError}

-- The `Box<dyn Error>` of the driver, by where it comes from.
pub data Failure (IoError ObjectError : Type 0) : Type 0 where
  io : IoError → Failure IoError ObjectError
  missing_u64 : Failure IoError ObjectError
  truncated : (path : String) → Failure IoError ObjectError
  bad_magic : (path : String) → Failure IoError ObjectError
  length_overflow : Failure IoError ObjectError
  missing_stack_bytes : (path : String) → Failure IoError ObjectError
  object_file : ObjectError → Failure IoError ObjectError
  no_loadable_segments : Failure IoError ObjectError
  mapped_module : MmapModuleError IoError ObjectError → Failure IoError ObjectError
  unwinding : Error → Failure IoError ObjectError
  too_many_frames : Failure IoError ObjectError
  not_compiled : (source_name : String) → Failure IoError ObjectError
  exited : (binary : String) (status : ℕ) → Failure IoError ObjectError
