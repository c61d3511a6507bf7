-- ===== src/Tests/Report.antt =====
-- The benchmark driver's `main` for one workload, over an operating system with the file of one
-- function and a snapshot of two frames.
use Prim.Native.String.{String}
use libunwinder.Prelude.Text.{codes}
use libunwinder.Prelude.{◌≡◌, refl, List, [], ◌∷◌, some, ok}
use libunwinder.Prelude.Int.{pos}
use libunwinder.Libunwind.{Library, access_mem, access_reg}
use mathlib.Core.Option
use libunwinder.Callbacks.Accessors
use libunwinder.X8664.Unwind
use libunwinder.EhFrameTable
use libunwinder.Benchmark.Snapshot.{snapshot_bytes}
use libunwinder.Benchmark.Snapshot
use libunwinder.Benchmark.Host.{parse_u64, iterations_of, Host, BenchResult}
use libunwinder.Tests.Library.{return_by, popping}
use libunwinder.Tests.Mapped.{open_file, map_file, parse_file}
use libunwinder.Tests.Driver.{one_segment}
use libunwinder.Tests.Stack.{taken}

-- It pops a word and asks for no unwind information.
abbrev popping_only : Library (Unit {0})
popping_only = record {
  init_remote = (popping (pos 16)).init_remote;
  step = λ cursor.
      access_reg (pos 7) 0 (pos 0) λ sp. access_mem sp.1 0 (pos 0) (return_by (pos 16) sp.1);
  get_reg = (popping (pos 16)).get_reg;
}

abbrev ready : Host (Unit {0}) (Unit {0}) (Unit {0}) (Unit {0})
ready = record {
  join = λ directory name. "one-fde";
  create_dir_all = λ directory w. (ok tt, w);
  write_file = λ path text w. (ok tt, w);
  status = λ command w. (ok 0, w);
  read_file = λ w path. ok (snapshot_bytes taken);
  open_file = λ w. open_file;
  map_file = λ w. map_file;
  parse_file = parse_file;
  segments = one_segment;
}

abbrev row : String → BenchResult
row name = record { workload = name; frames = 2; iterations = 1 }

abbrev rows : List BenchResult
rows = row "template recursion" ∷ row "STL sort comparator" ∷ row "virtual dispatch" ∷ []

asked : iterations_of (some (codes "1")) ≡ 1
unfolding parse_u64 Option.bind
asked = refl
