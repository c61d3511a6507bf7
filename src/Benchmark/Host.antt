-- ===== src/Benchmark/Host.antt =====
-- What the driver works on: its workloads, and the operating system, which is a parameter: what it
-- does to a file or a program changes `World`. The time that the runs take is left out.
use Prim.Native.String.{String}
use libunwinder.Prelude.{
  ℕ, ◌+◌, ◌-◌, ◌*◌, ◌^◌, ltb, List, [], ◌∷◌, map, false, Option, none, some, Result, ok, err, panic,
  map_err, ◌==◌, leb, ◌&&◌, if◌then◌else◌,
}
use mathlib.Core.Option
use libunwinder.Prelude.Text.{Text, codes}
use libunwinder.ModuleSet.{CacheStore}
use libunwinder.Module.Mmap.{ObjectFile}
use libunwinder.Benchmark.{Failure, io}
use libunwinder.Benchmark.LoadRange.{Segment}

pub record Workload : Type 0 where
  pub name : String
  pub source_name : String
  pub body : String

abbrev pub unwrap_or : {A : Type 0} → Option A → A → A
unwrap_or none a = a
unwrap_or (some b) a = b

-- The timing is left out.
pub record BenchResult : Type 0 where
  pub workload : String
  pub frames : ℕ
  pub iterations : ℕ

abbrev pub to_ascii_lowercase : ℕ → ℕ
to_ascii_lowercase c = if leb b'A' c && leb c b'Z' then c + 32 else c

-- `name.replace(' ', "-").to_ascii_lowercase()`
unfoldable pub binary_name : String → Text
binary_name name = map (λ c. to_ascii_lowercase (if c == b' ' then b'-' else c)) (codes name)

-- The operating system: a program's status is 0 where it succeeds. `join` puts a name behind a
-- directory, and a file is read as the programs before have left it.
pub record Host (World File IoError ObjectError : Type 0) : Type 0 where
  pub join : String → Text → String
  pub create_dir_all : String → World → Result IoError (Unit {0}) × World
  pub write_file : String → Text → World → Result IoError (Unit {0}) × World
  pub status : List Text → World → Result IoError ℕ × World
  pub read_file : World → String → Result IoError (List ℕ)
  pub open_file : World → String → Result IoError File
  pub map_file : World → File → Result IoError (List ℕ)
  pub parse_file : List ℕ → Result ObjectError ObjectFile
  pub segments : ObjectFile → List Segment

module _ {World IoError ObjectError : Type 0} where
  abbrev pub then_do :
      {A B : Type 0}
      → Result (Failure IoError ObjectError) A × World
      → (A → World → Result (Failure IoError ObjectError) B × World)
      → Result (Failure IoError ObjectError) B × World
  then_do (ok a, w) next = next a w
  then_do (err e, w) next = (err e, w)
  then_do (panic, w) next = (panic, w)

  abbrev pub lifted :
      {A : Type 0} → Result IoError A × World → Result (Failure IoError ObjectError) A × World
  lifted (r, w) = (map_err io r, w)

abbrev pub no_functions : CacheStore
no_functions i = record { poisoned = false; functions = [] }

abbrev pub compile_flags : List Text
compile_flags =
    codes "-std=c++20"
    ∷ codes "-O2"
    ∷ codes "-g"
    ∷ codes "-fomit-frame-pointer"
    ∷ codes "-fno-pie"
    ∷ codes "-no-pie"
    ∷ codes "-fasynchronous-unwind-tables"
    ∷ codes "-fno-optimize-sibling-calls"
    ∷ codes "-pthread"
    ∷ []

abbrev pub default_iters : ℕ
default_iters = 20_000

-- The names and sources of the three workloads; what stands in the sources is a parameter.
abbrev pub workloads : String → String → String → List Workload
workloads template_recursion stl_sort virtual_dispatch =
    record {
      name = "template recursion";
      source_name = "template_recursion.cc";
      body = template_recursion;
    }
    ∷ record { name = "STL sort comparator"; source_name = "stl_sort.cc"; body = stl_sort }
    ∷ record {
      name = "virtual dispatch";
      source_name = "virtual_dispatch.cc";
      body = virtual_dispatch;
    }
    ∷ []

-- `str::parse` into a `u64`: decimal digits behind a plus sign or none, with no overflow.
abbrev pub parse_digits : Text → ℕ → Option ℕ
parse_digits [] value = some value
parse_digits (c ∷ cs) value =
    let next = value * 10 + (c - b'0') in
    let rest = parse_digits cs next in
    if leb b'0' c && leb c b'9' && ltb next (2 ^ 64) then rest else none

abbrev pub parse_unsigned : Text → Option ℕ
parse_unsigned [] = none
parse_unsigned (c ∷ cs) = parse_digits (c ∷ cs) 0

unfoldable pub parse_u64 : Text → Option ℕ
parse_u64 [] = none
parse_u64 (c ∷ cs) = if c == b'+' then parse_unsigned cs else parse_unsigned (c ∷ cs)

-- What the environment asks for, where it is a number.
abbrev pub iterations_of : Option Text → ℕ
iterations_of asked = unwrap_or (Option.bind asked parse_u64) default_iters
