-- ===== src/Benchmark/Report.antt =====
-- `main` and what it calls for each workload: compiling it, running it, and counting the frames of
-- its snapshot. The clock and what is printed are left out.
pub mod Rows
use Prim.Native.String.{String}
use Prim.Native.Nat.{min}
use libunwinder.Prelude.{
  ℕ, zero, suc, ◌+◌, ◌≤◌, ◌<◌, ◌≡◌, ◌∙◌, sym, ap, refl, arith, List, [], ◌∷◌, ◌++◌, map, Bool, true,
  false, Option, none, some, Result, ok, err, panic, map_err, and_then, ◌==◌, leb, ◌&&◌,
  if◌then◌else◌, All,
}
use libunwinder.Prelude.Text.{Text, codes, write}
use libunwinder.ModuleSet.{CacheStore}
use libunwinder.Module.Mmap.{ObjectFile}
use libunwinder.Libunwind.{Library}
use libunwinder.X8664.{UnwindRegs}
use libunwinder.Benchmark.{Failure, io, not_compiled, exited}
use libunwinder.Benchmark.Snapshot
use libunwinder.Benchmark.Snapshot.{Snapshot}
use libunwinder.Benchmark.LoadRange.{Segment}
use libunwinder.Benchmark.Loading.{LoadedModule, load_module}
use libunwinder.Benchmark.Stack.{unwind_stack}
use libunwinder.Benchmark.Host.{
  Workload, BenchResult, unwrap_or, binary_name, Host, then_do, lifted, no_functions, compile_flags,
  iterations_of, workloads,
}

module _ {IoError ObjectError Cursor : Type 0} (lib : Library Cursor) (zeroed : Cursor) where
  -- The runs of `unwind_stack` whose results are dropped, up to an error.
  unfoldable pub repeat_unwind :
      ℕ
      → LoadedModule
      → Snapshot
      → CacheStore
      → Result (Failure IoError ObjectError) (Unit {0}) × CacheStore
  repeat_unwind zero l s caches = (ok tt, caches)
  repeat_unwind (suc n) l s caches =
      unwound (unwind_stack lib zeroed l s caches) (repeat_unwind n l s)
    where
      unwound :
          Result (Failure IoError ObjectError) ℕ × (UnwindRegs × CacheStore)
          → (CacheStore → Result (Failure IoError ObjectError) (Unit {0}) × CacheStore)
          → Result (Failure IoError ObjectError) (Unit {0}) × CacheStore
      unwound (ok frames, state) rest = rest state.1
      unwound (err e, state) rest = (err e, state.1)
      unwound (panic, state) rest = (panic, state.1)

  -- The count, and `time_unwind` without its clock: the warm-up and the measured runs.
  unfoldable pub count_and_time :
      ℕ → LoadedModule → Snapshot → Result (Failure IoError ObjectError) ℕ
  count_and_time iterations l s =
      let counted = unwind_stack lib zeroed l s no_functions in
      and_then counted.0 λ frames.
        let warm = repeat_unwind (min 1000 iterations) l s counted.1.1 in
        and_then warm.0 λ _. and_then (repeat_unwind iterations l s warm.1).0 λ _. ok frames

module _ {World File IoError ObjectError Cursor : Type 0}
    (host : Host World File IoError ObjectError) (lib : Library Cursor) (zeroed : Cursor)
    (snapshot_support root : String) where
  abbrev pub Action : Type 0 → Type 0
  Action A = World → Result (Failure IoError ObjectError) A × World

  unfoldable pub compile_workload : Text → Workload → Action String
  compile_workload cxx workload w =
      let source = host.join root (codes workload.source_name) in
      let binary = host.join root (binary_name workload.name) in
      then_do (lifted (host.write_file source (codes snapshot_support ++ codes workload.body) w))
        λ _ w.
          then_do
            (lifted (
              host.status (cxx ∷ compile_flags ++ codes source ∷ codes "-o" ∷ codes binary ∷ []) w))
            λ status w.
              if status == 0 then (ok binary, w) else (err (not_compiled workload.source_name), w)

  unfoldable pub run_workload : String → String → Action (Unit {0})
  run_workload binary snapshot_path w =
      then_do (lifted (host.status (codes binary ∷ codes snapshot_path ∷ []) w))
        λ status w. if status == 0 then (ok tt, w) else (err (exited binary status), w)

  -- One round of `main`'s loop.
  unfoldable pub bench_workload : Text → ℕ → Workload → Action BenchResult
  bench_workload cxx iterations workload w = then_do (compile_workload cxx workload w) λ binary w.
      let snapshot_path =
        host.join root (write (binary_name workload.name ∷ codes ".snapshot" ∷ [])) in
      then_do (run_workload binary snapshot_path w) λ _ w. (
        and_then (Snapshot.read (host.read_file w) snapshot_path) λ snapshot.
            and_then
              (load_module (host.open_file w) (host.map_file w) host.parse_file host.segments 0
                binary)
              λ l. and_then (count_and_time lib zeroed iterations l snapshot) λ frames.
                ok (record { workload = workload.name; frames = frames; iterations = iterations }),
        w,
      )

  unfoldable pub bench_all : Text → ℕ → List Workload → Action (List BenchResult)
  bench_all cxx iterations [] w = (ok [], w)
  bench_all cxx iterations (workload ∷ workloads) w =
      then_do (bench_workload cxx iterations workload w) λ result w.
        then_do (bench_all cxx iterations workloads w) λ results w. (ok (result ∷ results), w)

  -- `cxx` and `iterations` are what the environment says, if it does; the three sources are
  -- constants.
  unfoldable pub main :
      Option Text → Option Text → String → String → String → Action (List BenchResult)
  main cxx iterations template_recursion stl_sort virtual_dispatch w =
      then_do (lifted (host.create_dir_all root w)) λ _ w.
        bench_all (unwrap_or cxx (codes "c++")) (iterations_of iterations)
          (workloads template_recursion stl_sort virtual_dispatch) w
