-- ===== src/Tests/Driver.antt =====
-- The benchmark driver on a small snapshot, and over the module of one function.
use libunwinder.Prelude.{
  ◌+◌, ◌≤◌, ◌<◌, ◌≡◌, ◌⊎◌, refl, arith, List, [], ◌∷◌, ◌++◌, none, some, Result, ok, take, drop,
  from_le_bytes, All, ap, and_then, map_err,
}
use libunwinder.Module.{Range, ModuleData, from_parts}
use libunwinder.Module.Mmap.{ObjectFile, MmapModuleError}
use libunwinder.Tests.Mapped.{open_file, map_file, parse_file, mapped}
use libunwinder.Tests.Sections.{image, parts}
use libunwinder.Benchmark.{mapped_module}
use libunwinder.Benchmark.Snapshot.{
  Snapshot, IsSized, parse, read_stack, snapshot_bytes, parse-snapshot_bytes, read_stack-IsSlice,
  Read,
}
use libunwinder.Benchmark.LoadRange.{
  Segment, load_range, IsHull, IsVoid, load_range-IsHull, widen_all,
}
use libunwinder.Benchmark.Loading.{load_module, loaded}

abbrev taken : Snapshot
taken = record {
  ip = 0x1008;
  sp = 0x7000;
  bp = 0x7010;
  stack_start = 0x7000;
  stack = 0x34 ∷ 0x12 ∷ 0 ∷ 0 ∷ 0 ∷ 0 ∷ 0 ∷ 0 ∷ 0x99 ∷ [];
}

taken-IsSized : IsSized taken
taken-IsSized = record {
  ip = omega arith;
  sp = omega arith;
  bp = omega arith;
  stack_start = omega arith;
  stack = omega arith;
}

parse-snapshot_bytes_example :
    ◌≡◌ {A = Read (Unit {0}) (Unit {0}) Snapshot}
      (parse "template-recursion.snapshot" (snapshot_bytes taken ++ (0x77 ∷ [])))
      (ok taken)
parse-snapshot_bytes_example =
    parse-snapshot_bytes (Unit {0}) (Unit {0}) "template-recursion.snapshot" taken (0x77 ∷ [])
      taken-IsSized

read_stack-IsSlice_example :
    ((0x7000 ≤ 0x7001)
      × (0x7001 + 8 ≤ 0x7000 + 9)
      × (read_stack taken 0x7001 ≡ some (from_le_bytes (take 8 (drop 1 taken.stack)))))
    ⊎ (((0x7001 < 0x7000) ⊎ (0x7000 + 9 < 0x7001 + 8)) × (read_stack taken 0x7001 ≡ none))
read_stack-IsSlice_example = read_stack-IsSlice taken 0x7001 taken-IsSized

-- An empty segment, and two with a gap.
abbrev some_segments : List Segment
some_segments =
    record { address = 0; size = 0 }
    ∷ record { address = 0x3000; size = 0x20 }
    ∷ record { address = 0x1000; size = 0x800 }
    ∷ []

segments_run : load_range some_segments ≡ some (record { start = 0x1000; end = 0x3020 })
unfolding load_range widen_all
segments_run = refl

load_range-IsHull_example :
    ((r : Range) × (load_range some_segments ≡ some r) × IsHull some_segments r)
    ⊎ ((load_range some_segments ≡ none) × All IsVoid some_segments)
load_range-IsHull_example = load_range-IsHull some_segments

abbrev pub one_segment : ObjectFile → List Segment
one_segment file = record { address = 0x1000; size = 0x1000 } ∷ []

pub load_run :
    load_module open_file map_file parse_file one_segment 0 "one-fde"
    ≡ ok (loaded image (from_parts 0 parts))
unfolding load_module load_range widen_all
load_run =
    ap
      (λ (r : Result (MmapModuleError (Unit {0}) (Unit {0})) ModuleData).
        and_then (map_err mapped_module r) (λ m. ok (loaded image m)))
      mapped
