-- ===== src/Benchmark/Report/Rows.antt =====
-- The rows of the report: one for each workload, with a count within its bounds.
use Prim.Native.String.{String}
use libunwinder.Prelude.{ℕ, ◌≡◌, List, [], ◌∷◌, Result, ok}
use libunwinder.Prelude.Text.{Text, codes, write}
use libunwinder.FrameAddress.{instruction_pointer}
use libunwinder.X8664.{new}
use libunwinder.X8664.Unwind.{unwinder, unwind_frame}
use libunwinder.Libunwind.{Library}
use libunwinder.Benchmark.{Failure}
use libunwinder.Benchmark.Snapshot.{Snapshot, read_stack}
use libunwinder.Benchmark.Snapshot
use libunwinder.Benchmark.Loading.{LoadedModule, load_module}
use libunwinder.Benchmark.Counting.Trails.{IsCounted}
use libunwinder.Benchmark.Host.{Workload, BenchResult, Host, no_functions, binary_name}
use libunwinder.Benchmark.Report.{compile_workload, run_workload}

module _ {Cursor : Type 0} (lib : Library Cursor) (zeroed : Cursor) where
  -- The count of the steps over a snapshot, from the first one on.
  abbrev pub IsCountOf : LoadedModule → Snapshot → ℕ → Type 0
  IsCountOf l s n =
      IsCounted (unwinder lib zeroed l.modules (read_stack s)) l.avma_range 1
        (unwind_frame lib zeroed l.modules (read_stack s) (instruction_pointer s.ip)
          (new s.ip s.sp s.bp) no_functions)
        n

module _ {World File IoError ObjectError Cursor : Type 0}
    (host : Host World File IoError ObjectError) (lib : Library Cursor) (zeroed : Cursor)
    (snapshot_support root : String) where
  abbrev snapshot_path : Workload → String
  snapshot_path workload =
      host.join root (write (binary_name workload.name ∷ codes ".snapshot" ∷ []))

  -- A row for a workload: the program that was compiled of it has run, and left a snapshot whose
  -- frames in the program, as it is loaded from its file, are counted.
  pub record IsRow (cxx : Text) (iterations : ℕ) (workload : Workload) (row : BenchResult)
      : Type 0 where
    pub name : row.workload ≡ workload.name
    pub asked : row.iterations ≡ iterations
    pub before : World
    pub compiled : World
    pub world : World
    pub binary : String
    pub snapshot : Snapshot
    pub l : LoadedModule
    pub compiles :
        compile_workload host lib zeroed snapshot_support root cxx workload before
        ≡ (ok binary, compiled)
    pub runs :
        run_workload host lib zeroed snapshot_support root binary (snapshot_path workload) compiled
        ≡ (ok tt, world)
    pub read :
        ◌≡◌ {A = Result (Failure IoError ObjectError) Snapshot}
          (Snapshot.read (host.read_file world) (snapshot_path workload))
          (ok snapshot)
    pub loaded :
        load_module
          (host.open_file world)
          (host.map_file world)
          host.parse_file
          host.segments
          0
          binary
        ≡ ok l
    pub counted : IsCountOf lib zeroed l snapshot row.frames

  -- A row for each workload, in their order.
  abbrev pub IsReport : Text → ℕ → List Workload → List BenchResult → Type 0
  IsReport cxx iterations [] [] = Unit
  IsReport cxx iterations [] (row ∷ rows) = ⊥
  IsReport cxx iterations (workload ∷ works) [] = ⊥
  IsReport cxx iterations (workload ∷ works) (row ∷ rows) =
      IsRow cxx iterations workload row × IsReport cxx iterations works rows
