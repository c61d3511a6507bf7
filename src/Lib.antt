-- ===== src/Lib.antt =====
-- A model of libunwinder, a Rust crate that unwinds the stack of another process by handing
-- libunwind its own unwind information.
--
-- The parts, and how they interact. A `Module` (src/module.rs) is built from the sections of an
-- object file: it mirrors `.eh_frame` and `.eh_frame_hdr`, and keeps the parsed header
-- (src/eh_frame_table.rs). A `ModuleSet` (src/module_set.rs) finds the module of an address. The
-- callback that libunwind asks for unwind information (src/callbacks.rs) finds the module, looks the
-- address up in the module's function cache, and on a miss searches the header's table, parses the
-- entries that it names (src/dwarf.rs) and fills the cache. An unwinder (src/x86_64.rs,
-- src/aarch64.rs) steps a frame through libunwind (src/address_space.rs), to which it lends its
-- registers in a context (src/unwind_ctx.rs), or by the frame pointer where a module has no unwind
-- information. An iterator (src/module.rs) walks the stack by such steps; a benchmark driver
-- (examples/cpp_unwind_bench.rs) counts the frames of a recorded stack.
--
-- The files, by the code that they model:
--   Prelude         Rust's integers, slices, `Option`, `Result`, `BTreeMap`, as the code uses them
--   Error           src/error.rs, and `EhFrameHdrError` of src/eh_frame_table.rs; ParserDisplay and
--                   Display (the `Display` texts), Sources (`source`, and the errors of modules)
--   Dwarf           src/dwarf.rs: Cursor (`Cursor`), Leb128 (`read_uleb128`, `read_sleb128`), Encoded
--                   (`read_encoded`), Cie (`parse_cie`), Fde (`parse_fde`), Entry (what the two share)
--   CieInfo         `build_dwarf_cie_info` of src/dwarf.rs, `DwarfCieInfo` of src/ffi/types.rs
--   EhFrameTable    src/eh_frame_table.rs: `parse` and `lookup`
--   FrameAddress    src/frame_address.rs
--   Module          src/module.rs: `ModuleData`, `from_parts`, `validate_module_parts`; Sections (the
--                   adapter of typed sections and the constructors), Explicit (the adapter of a
--                   broader set), Mmap (mapped object files)
--   ModuleSet       src/module_set.rs
--   UnwindCtx       src/unwind_ctx.rs
--   Callbacks       src/callbacks.rs: `parse_function_details`, `get_or_parse_function_details`;
--                   Accessors (the callbacks), Context (what they keep), Replies and Instructions
--                   (what they reply), Total (that they return), Threads (a cache that several
--                   threads look into and fill at once)
--   Libunwind       a routine of libunwind, and its run on the callbacks: the accessor table of
--                   src/address_space.rs
--   AddressSpace    src/address_space.rs: `init_and_step`
--   UnwindIterator  src/module.rs: `Unwinder`, `UnwindIterator`
--   Unwind          what `unwind_frame` of the two architectures has in common
--   X8664           src/x86_64.rs: the registers and `fallback_unwind_frame`; Unwind (`access_reg`,
--                   `unwind_frame`), Walk (it under the iterator, by the frame pointer)
--   Aarch64         src/aarch64.rs: `PtrAuthMask`, the registers and `fallback_unwind_frame`; Unwind
--                   (`unwind_frame`, and `access_reg` of src/callbacks.rs)
--   Arch            the two unwinders as one, by the architecture that src/lib.rs chooses: Reach (the
--                   states of an unwinder), Walk (a walk that fails)
--   Benchmark       examples/cpp_unwind_bench.rs: Snapshot (`Snapshot::read`, `read_stack`, and the
--                   writer in C++), LoadRange (`load_range`), Loading (`load_module`), Counting (the
--                   loop of `unwind_stack`, over any unwinder), Stack (`unwind_stack`), Host (the
--                   workloads and the operating system) and Report (`main` and what it calls to
--                   compile and run a workload)
--   Tests           runs of all of these on concrete inputs
--
-- A machine integer is a natural number with its wrap-around or its check written out. A slice is the
-- list of its bytes. `Result` has a third case, `panic`, for an arithmetic check or a slice index that
-- stops the program. A parser is a function from a cursor to a result and a cursor. State that the
-- source mutates is passed on; a step returns the registers as it leaves them, errors included; the
-- function caches, which the clones of a module share, are a store by the identity of the cache.
--
-- Fuel. The LEB128 readers take ten rounds: the shift grows by seven and stops at 64. The search of the
-- table takes as many rounds as it has entries: each round narrows the range. A walk takes a number of
-- rounds as its argument; by the frame pointer each step moves the stack pointer up. The loop of the driver
-- takes 1,000 rounds, far more than the 256 that its own limit lets through.
--
-- Threads. A call on a function cache takes five turns: a lock, the look into the cache, at whose end
-- the guard is dropped, the parse, the second lock, and the insertion. A schedule is the list of whose
-- turn it is; the turn of a call that waits for a lock that another call holds, or that it holds
-- itself, changes nothing.
--
-- libunwind is a parameter: three routines that issue callbacks, in any order and with any arguments,
-- and return after finitely many. What is said of `unwind_frame` holds for all of them. A routine that
-- a callback stops, by a panic, gives a panic. Errors of libunwind are passed on without a claim.
--
-- The file system, `memmap2` and the `object` crate are parameters too: what they open, map and parse.
-- So is what the driver asks of the operating system.
--
-- Not modelled: libunwind itself, and the FFI layout; the build script, which runs the vendored
-- library's; in the driver, the clock, what is computed in floating point and the printed table.
pub mod Prelude
pub mod Error
pub mod Dwarf
pub mod EhFrameTable
pub mod FrameAddress
pub mod CieInfo
pub mod Module
pub mod ModuleSet
pub mod Callbacks
pub mod UnwindCtx
pub mod Libunwind
pub mod AddressSpace
pub mod UnwindIterator
pub mod Unwind
pub mod Aarch64
pub mod X8664
pub mod Arch
pub mod Benchmark
mod Tests
