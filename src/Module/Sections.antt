-- ===== src/Module/Sections.antt =====
-- The section adapters of src/module.rs, and the modules built through them. A query of an adapter
-- may take bytes out of it, so it returns the adapter that is left.
use Prim.Native.String.{String}
use libunwinder.Prelude.{ℕ, List, Option, none, some, Result, ok, and_then}
use libunwinder.Module.{
  ModuleData, ModuleParts, ModuleError, Range, from_parts, validate_module_parts,
}

-- The section names that an adapter knows, and every other.
pub data SectionName : Type 0 where
  dot_text text : SectionName
  dot_eh_frame eh_frame : SectionName
  dot_eh_frame_hdr eh_frame_hdr : SectionName
  stubs stub_helper : SectionName
  dot_got got : SectionName
  unwind_info : SectionName
  dot_debug_frame debug_frame : SectionName
  other : SectionName

pub data SegmentName : Type 0 where
  text_segment : SegmentName
  other_segment : SegmentName

-- `ModuleSectionInfo<D>`, with the adapter's state and `D` the bytes.
pub record ModuleSectionInfo (S : Type 0) : Type 0 where
  pub base_svma : S → ℕ
  pub section_svma_range : SectionName → S → Option Range × S
  pub section_data : SectionName → S → Option (List ℕ) × S
  pub segment_svma_range : SegmentName → S → Option Range × S
  pub segment_data : SegmentName → S → Option (List ℕ) × S

-- The segment queries of an adapter that does not define them.
abbrev pub no_segment : {S A : Type 0} → SegmentName → S → Option A × S
no_segment name s = (none, s)

pub record DwarfModuleSections : Type 0 where
  pub base_svma : ℕ
  pub text_svma : Option Range
  pub text : Option (List ℕ)
  pub eh_frame_svma : Option Range
  pub eh_frame : Option (List ℕ)
  pub eh_frame_hdr_svma : Option Range
  pub eh_frame_hdr : Option (List ℕ)

abbrev pub dwarf_range : SectionName → DwarfModuleSections → Option Range
dwarf_range text s = s.text_svma
dwarf_range dot_text s = s.text_svma
dwarf_range eh_frame s = s.eh_frame_svma
dwarf_range dot_eh_frame s = s.eh_frame_svma
dwarf_range eh_frame_hdr s = s.eh_frame_hdr_svma
dwarf_range dot_eh_frame_hdr s = s.eh_frame_hdr_svma
dwarf_range _ s = none

-- `.take()` leaves nothing behind.
abbrev pub dwarf_data : SectionName → DwarfModuleSections → Option (List ℕ) × DwarfModuleSections
dwarf_data text s = (s.text, record s { text = none })
dwarf_data dot_text s = (s.text, record s { text = none })
dwarf_data eh_frame s = (s.eh_frame, record s { eh_frame = none })
dwarf_data dot_eh_frame s = (s.eh_frame, record s { eh_frame = none })
dwarf_data eh_frame_hdr s = (s.eh_frame_hdr, record s { eh_frame_hdr = none })
dwarf_data dot_eh_frame_hdr s = (s.eh_frame_hdr, record s { eh_frame_hdr = none })
dwarf_data _ s = (none, s)

abbrev pub dwarf_sections : ModuleSectionInfo DwarfModuleSections
dwarf_sections = record {
  base_svma = λ s. s.base_svma;
  section_svma_range = λ name s. (dwarf_range name s, s);
  section_data = dwarf_data;
  segment_svma_range = no_segment;
  segment_data = no_segment;
}

module _ {S : Type 0} (info : ModuleSectionInfo S) where
  -- `.or_else(…)` asks again only if the first name gives nothing.
  abbrev pub or_else : {A : Type 0} → Option A × S → (S → Option A × S) → Option A × S
  or_else (some a, s) again = (some a, s)
  or_else (none, s) again = again s

  unfoldable pub section_range : SectionName → SectionName → S → Option Range × S
  section_range primary alternate s =
      or_else (info.section_svma_range primary s) (info.section_svma_range alternate)

  unfoldable pub section_data : SectionName → SectionName → S → Option (List ℕ) × S
  section_data primary alternate s =
      or_else (info.section_data primary s) (info.section_data alternate)

  -- The queries in the order of the source.
  unfoldable pub module_parts_from_section_info : String → Range → ℕ → S → ModuleParts
  module_parts_from_section_info name avma_range base_avma s =
      let text = section_range dot_text text s in
      let frame_svma = section_range dot_eh_frame eh_frame text.1 in
      let frame = section_data dot_eh_frame eh_frame frame_svma.1 in
      let hdr_svma = section_range dot_eh_frame_hdr eh_frame_hdr frame.1 in
      let hdr = section_data dot_eh_frame_hdr eh_frame_hdr hdr_svma.1 in
      record {
        name = name;
        avma_range = avma_range;
        base_avma = base_avma;
        base_svma = info.base_svma s;
        text_svma = text.0;
        eh_frame_svma = frame_svma.0;
        eh_frame = frame.0;
        eh_frame_hdr_svma = hdr_svma.0;
        eh_frame_hdr = hdr.0;
      }

  unfoldable pub new : ℕ → String → Range → ℕ → S → ModuleData
  new cache_id name avma_range base_avma s =
      from_parts cache_id (module_parts_from_section_info name avma_range base_avma s)

  unfoldable pub try_from_section_info : ℕ → String → Range → ℕ → S → Result ModuleError ModuleData
  try_from_section_info cache_id name avma_range base_avma s =
      let parts = module_parts_from_section_info name avma_range base_avma s in
      and_then (validate_module_parts parts) (λ _. ok (from_parts cache_id parts))

abbrev pub parts_of : String → Range → ℕ → DwarfModuleSections → ModuleParts
parts_of name avma_range base_avma s = record {
  name = name;
  avma_range = avma_range;
  base_avma = base_avma;
  base_svma = s.base_svma;
  text_svma = s.text_svma;
  eh_frame_svma = s.eh_frame_svma;
  eh_frame = s.eh_frame;
  eh_frame_hdr_svma = s.eh_frame_hdr_svma;
  eh_frame_hdr = s.eh_frame_hdr;
}

unfoldable pub from_dwarf_sections :
    ℕ → String → Range → ℕ → DwarfModuleSections → Result ModuleError ModuleData
from_dwarf_sections cache_id name avma_range base_avma s =
    let parts = parts_of name avma_range base_avma s in
    and_then (validate_module_parts parts) (λ _. ok (from_parts cache_id parts))

abbrev pub fallback_parts : String → Range → ℕ → ModuleParts
fallback_parts name avma_range base_avma = record {
  name = name;
  avma_range = avma_range;
  base_avma = base_avma;
  base_svma = base_avma;
  text_svma = none;
  eh_frame_svma = none;
  eh_frame = none;
  eh_frame_hdr_svma = none;
  eh_frame_hdr = none;
}

unfoldable pub fallback_only : ℕ → String → Range → ℕ → ModuleData
fallback_only cache_id name avma_range base_avma =
    from_parts cache_id (fallback_parts name avma_range base_avma)
