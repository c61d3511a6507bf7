-- ===== src/Benchmark/Loading.antt =====
-- `load_module`: the unwinder with the one module of the program. The file system, `memmap2` and the
-- `object` crate are parameters, as for the modules that they make.
use Prim.Native.String.{String}
use libunwinder.Prelude.{ℕ, ◌≡◌, List, some, Result, ok, and_then, map_err, ok_or}
use libunwinder.Module.{ModuleData, Range}
use libunwinder.Module.Mmap.{ObjectFile, try_from_mmap_file}
use libunwinder.ModuleSet.{ModuleSet, new, add, find_module}
use libunwinder.ModuleSet.Lookup.{Contains}
use libunwinder.Benchmark.{Failure, io, object_file, no_loadable_segments, mapped_module}
use libunwinder.Benchmark.LoadRange.{Segment, load_range}

-- The modules are all that the unwinder holds.
pub record LoadedModule : Type 0 where
  pub modules : ModuleSet
  pub avma_range : Range

abbrev pub loaded : Range → ModuleData → LoadedModule
loaded avma_range m = record { modules = add new m; avma_range = avma_range }

module _ {File IoError ObjectError : Type 0} (open_file : String → Result IoError File)
    (map_file : File → Result IoError (List ℕ))
    (parse_file : List ℕ → Result ObjectError ObjectFile) (segments : ObjectFile → List Segment)
    (cache_id : ℕ) where
  unfoldable pub load_module : String → Result (Failure IoError ObjectError) LoadedModule
  load_module binary = and_then (map_err io (open_file binary)) λ file_for_range.
      and_then (map_err io (map_file file_for_range)) λ mmap_for_range.
        and_then (map_err object_file (parse_file mmap_for_range)) λ file.
          and_then (ok_or (load_range (segments file)) no_loadable_segments) λ avma_range.
            and_then
              (map_err mapped_module
                (try_from_mmap_file open_file map_file parse_file cache_id binary avma_range 0))
              λ m. ok (loaded avma_range m)

  -- Every address of the range is one of the module that the file gives, which stands alone.
  pub record IsLoaded (binary : String) (l : LoadedModule) : Type 0 where
    pub m : ModuleData
    pub made :
        try_from_mmap_file open_file map_file parse_file cache_id binary l.avma_range 0 ≡ ok m
    pub range : m.avma_range ≡ l.avma_range
    pub found : (addr : ℕ) → Contains m addr → find_module l.modules addr ≡ some m
    pub only : (addr : ℕ) (n : ModuleData) → find_module l.modules addr ≡ some n → n ≡ m
