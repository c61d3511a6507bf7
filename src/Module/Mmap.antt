-- ===== src/Module/Mmap.antt =====
-- Modules from mapped object files in src/module.rs. A map is the list of its bytes. The file system,
-- `memmap2` and the `object` crate are parameters: what they open, map and parse.
use Prim.Native.String.{String}
use mathlib.Core.Option
use libunwinder.Prelude.{
  ℕ, ◌+◌, ◌≤◌, ◌^◌, ◌≡◌, inl, inr, ap, ◌∙◌, arith, List, Option, none, some, Result, ok, and_then,
  map_err, and_then-eq-ok, map_err-eq-ok, leb, ◌&&◌, if◌then◌else◌, length, take, drop, ◌-◌,
  try_usize, checked_add, saturating_add, length-take, length-drop, lt_cases, lt_cases,
}
use libunwinder.Module.{ModuleData, ModuleError, Range, validate_module_parts}
use libunwinder.Module.Sections
use libunwinder.Module.Sections.{
  ModuleSectionInfo, SectionName, no_segment, module_parts_from_section_info, try_from_section_info,
}

pub record MmapBytes : Type 0 where
  pub mmap : List ℕ
  pub range : Range

unfoldable pub new : List ℕ → Range → Option MmapBytes
new mmap range =
    if leb range.start range.end && leb range.end (length mmap)
    then some (record { mmap = mmap; range = range })
    else none

-- `&self.mmap[self.range.clone()]`, which is inside the map by `new`.
abbrev pub deref : MmapBytes → List ℕ
deref b = take (b.range.end - b.range.start) (drop b.range.start b.mmap)

unfoldable pub from_file_range : List ℕ → ℕ → ℕ → Option MmapBytes
from_file_range mmap offset size = Option.bind (try_usize offset) λ start.
    Option.bind (try_usize size) λ len.
      Option.bind (checked_add start len) λ stop. new mmap (record { start = start; end = stop })

-- `object::Section` and `object::File`, by what is asked of them.
pub record ObjectSection : Type 0 where
  pub address : ℕ
  pub size : ℕ
  pub file_range : Option (ℕ × ℕ)

pub record ObjectFile : Type 0 where
  pub relative_address_base : ℕ
  pub section_by_name_bytes : SectionName → Option ObjectSection

pub record MmapObjectSections : Type 0 where
  pub file : ObjectFile
  pub mmap : List ℕ

abbrev pub object_range : SectionName → MmapObjectSections → Option Range
object_range name s =
    Option.map
      (λ section. record {
        start = section.address;
        end = saturating_add section.address section.size;
      })
      (s.file.section_by_name_bytes name)

abbrev pub object_data : SectionName → MmapObjectSections → Option (List ℕ)
object_data name s =
    Option.bind (s.file.section_by_name_bytes name) λ section.
      Option.bind section.file_range λ r. Option.map deref (from_file_range s.mmap r.0 r.1)

abbrev pub object_sections : ModuleSectionInfo MmapObjectSections
object_sections = record {
  base_svma = λ s. s.file.relative_address_base;
  section_svma_range = λ name s. (object_range name s, s);
  section_data = λ name s. (object_data name s, s);
  segment_svma_range = no_segment;
  segment_data = no_segment;
}

pub data MmapModuleError (IoError ObjectError : Type 0) : Type 0 where
  open_failed : (path : String) (source : IoError) → MmapModuleError IoError ObjectError
  map_failed : (path : String) (source : IoError) → MmapModuleError IoError ObjectError
  parse_failed : (path : String) (source : ObjectError) → MmapModuleError IoError ObjectError
  module_failed : ModuleError → MmapModuleError IoError ObjectError

module _ {File IoError ObjectError : Type 0} (open_file : String → Result IoError File)
    (map_file : File → Result IoError (List ℕ))
    (parse_file : List ℕ → Result ObjectError ObjectFile) where
  unfoldable pub mmap_file : String → Result (MmapModuleError IoError ObjectError) (List ℕ)
  mmap_file path =
      and_then (map_err (open_failed path) (open_file path))
        λ file. map_err (map_failed path) (map_file file)

  -- The map and what `object` makes of it.
  abbrev pub sections_of : String → Result (MmapModuleError IoError ObjectError) MmapObjectSections
  sections_of path = and_then (mmap_file path) λ mmap.
      and_then (map_err (parse_failed path) (parse_file mmap))
        λ file. ok (record { file = file; mmap = mmap })

  module _ (cache_id : ℕ) (path : String) (avma_range : Range) (base_avma : ℕ) where
    unfoldable pub from_mmap_file : Result (MmapModuleError IoError ObjectError) ModuleData
    from_mmap_file =
        and_then (sections_of path)
          λ s. ok (Sections.new object_sections cache_id path avma_range base_avma s)

    unfoldable pub try_from_mmap_file : Result (MmapModuleError IoError ObjectError) ModuleData
    try_from_mmap_file = and_then (sections_of path) λ s.
        map_err module_failed
          (try_from_section_info object_sections cache_id path avma_range base_avma s)

    -- A file that `try_from_mmap_file` makes a module of gives the same module by
    -- `from_mmap_file`.
    pub try_from_mmap_file-ok : (m : ModuleData) → try_from_mmap_file ≡ ok m → from_mmap_file ≡ ok m
    unfolding try_from_mmap_file from_mmap_file try_from_section_info Sections.new
    try_from_mmap_file-ok m h =
        let (s, e1, e2) = and_then-eq-ok (sections_of path) _ h in
        let e3 = map_err-eq-ok module_failed _ m e2 in
        let (u, valid, built) =
          and_then-eq-ok
            (validate_module_parts
              (module_parts_from_section_info object_sections path avma_range base_avma s))
            _ e3 in
        (λ i.
          and_then (e1 i)
            (λ x. ok (Sections.new object_sections cache_id path avma_range base_avma x)))
        ∙ built_again s built
      where
        built_again :
            (s : MmapObjectSections)
            → ◌≡◌ {A = Result ModuleError ModuleData}
                (ok (Sections.new object_sections cache_id path avma_range base_avma s))
                (ok m)
            → ◌≡◌ {A = Result (MmapModuleError IoError ObjectError) ModuleData}
                (ok (Sections.new object_sections cache_id path avma_range base_avma s))
                (ok m)
        built_again s e = ground arith

from_file_range-inside :
    (mmap : List ℕ) (offset size : ℕ) (b : MmapBytes)
    → from_file_range mmap offset size ≡ some b
    → (b ≡ record { mmap = mmap; range = record { start = offset; end = offset + size } })
      × (offset + size ≤ length mmap)
unfolding from_file_range new Option.bind
from_file_range-inside mmap offset size b h = elim (lt_cases offset (2 ^ 64)) [
  | inl lt ↦ (ground arith, ground arith)
  | inr (inl same) ↦ (ground arith, ground arith)
  | inr (inr gt) ↦ (ground arith, ground arith)
]

-- A view of a file's bytes lies inside the map and has the size that was asked for.
pub from_file_range-some :
    (mmap : List ℕ) (offset size : ℕ) (b : MmapBytes)
    → from_file_range mmap offset size ≡ some b
    → (deref b ≡ take size (drop offset mmap))
      × (length (deref b) ≡ size)
      × (offset + size ≤ length mmap)
from_file_range-some mmap offset size b h =
    let (same, fits) = from_file_range-inside mmap offset size b h in
    let view : deref b ≡ take size (drop offset mmap) =
      ap deref same ∙ ap (λ (n : ℕ). take n (drop offset mmap)) (omega arith) in
    (
      view,
      omega (
        arith,
        ap (length {A = ℕ}) view,
        length-take size (drop offset mmap),
        length-drop offset mmap,
      ),
      fits,
    )
