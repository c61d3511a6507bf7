-- ===== src/Module/Explicit.antt =====
-- The adapter of a broader set of sections in src/module.rs.
use Prim.Native.String.{String}
use libunwinder.Prelude.{ℕ, List, Option, none, some, ◌≡◌, refl, ap, ok, and_then}
use libunwinder.Module.{ModuleParts, Range, from_parts, validate_module_parts}
use libunwinder.Module.Sections.{
  ModuleSectionInfo, SectionName, dot_text, text, dot_eh_frame, eh_frame, dot_eh_frame_hdr,
  eh_frame_hdr, stubs, stub_helper, dot_got, got, unwind_info, dot_debug_frame, debug_frame,
  SegmentName, text_segment, other_segment, DwarfModuleSections, section_range, section_data,
  module_parts_from_section_info, try_from_section_info, from_dwarf_sections, parts_of,
}

pub record ExplicitModuleSectionInfo : Type 0 where
  pub base_svma : ℕ
  pub text_svma : Option Range
  pub text : Option (List ℕ)
  pub stubs_svma : Option Range
  pub stub_helper_svma : Option Range
  pub got_svma : Option Range
  pub unwind_info : Option (List ℕ)
  pub eh_frame_svma : Option Range
  pub eh_frame : Option (List ℕ)
  pub eh_frame_hdr_svma : Option Range
  pub eh_frame_hdr : Option (List ℕ)
  pub debug_frame : Option (List ℕ)
  pub text_segment_svma : Option Range
  pub text_segment : Option (List ℕ)

abbrev pub explicit_range : SectionName → ExplicitModuleSectionInfo → Option Range
explicit_range text s = s.text_svma
explicit_range dot_text s = s.text_svma
explicit_range stubs s = s.stubs_svma
explicit_range stub_helper s = s.stub_helper_svma
explicit_range got s = s.got_svma
explicit_range dot_got s = s.got_svma
explicit_range eh_frame s = s.eh_frame_svma
explicit_range dot_eh_frame s = s.eh_frame_svma
explicit_range eh_frame_hdr s = s.eh_frame_hdr_svma
explicit_range dot_eh_frame_hdr s = s.eh_frame_hdr_svma
explicit_range _ s = none

-- `.take()` leaves nothing behind.
abbrev pub explicit_data :
    SectionName → ExplicitModuleSectionInfo → Option (List ℕ) × ExplicitModuleSectionInfo
explicit_data text s = (s.text, record s { text = none })
explicit_data dot_text s = (s.text, record s { text = none })
explicit_data unwind_info s = (s.unwind_info, record s { unwind_info = none })
explicit_data eh_frame s = (s.eh_frame, record s { eh_frame = none })
explicit_data dot_eh_frame s = (s.eh_frame, record s { eh_frame = none })
explicit_data eh_frame_hdr s = (s.eh_frame_hdr, record s { eh_frame_hdr = none })
explicit_data dot_eh_frame_hdr s = (s.eh_frame_hdr, record s { eh_frame_hdr = none })
explicit_data debug_frame s = (s.debug_frame, record s { debug_frame = none })
explicit_data dot_debug_frame s = (s.debug_frame, record s { debug_frame = none })
explicit_data _ s = (none, s)

abbrev pub explicit_segment_range : SegmentName → ExplicitModuleSectionInfo → Option Range
explicit_segment_range text_segment s = s.text_segment_svma
explicit_segment_range other_segment s = none

abbrev pub explicit_segment_data :
    SegmentName → ExplicitModuleSectionInfo → Option (List ℕ) × ExplicitModuleSectionInfo
explicit_segment_data text_segment s = (s.text_segment, record s { text_segment = none })
explicit_segment_data other_segment s = (none, s)

abbrev pub explicit_sections : ModuleSectionInfo ExplicitModuleSectionInfo
explicit_sections = record {
  base_svma = λ s. s.base_svma;
  section_svma_range = λ name s. (explicit_range name s, s);
  section_data = explicit_data;
  segment_svma_range = λ name s. (explicit_segment_range name s, s);
  segment_data = explicit_segment_data;
}

-- The sections that the constructors use.
abbrev pub dwarf_of : ExplicitModuleSectionInfo → DwarfModuleSections
dwarf_of s = record {
  base_svma = s.base_svma;
  text_svma = s.text_svma;
  text = s.text;
  eh_frame_svma = s.eh_frame_svma;
  eh_frame = s.eh_frame;
  eh_frame_hdr_svma = s.eh_frame_hdr_svma;
  eh_frame_hdr = s.eh_frame_hdr;
}

module _ (s : ExplicitModuleSectionInfo) where
  text_range :
      (o : Option Range)
      → section_range explicit_sections dot_text text (record s { text_svma = o })
        ≡ (o, record s { text_svma = o })
  unfolding section_range
  text_range none = refl
  text_range (some r) = refl

  frame_range :
      (o : Option Range)
      → section_range explicit_sections dot_eh_frame eh_frame (record s { eh_frame_svma = o })
        ≡ (o, record s { eh_frame_svma = o })
  unfolding section_range
  frame_range none = refl
  frame_range (some r) = refl

  hdr_range :
      (o : Option Range)
      → section_range explicit_sections dot_eh_frame_hdr eh_frame_hdr
          (record s { eh_frame_hdr_svma = o })
        ≡ (o, record s { eh_frame_hdr_svma = o })
  unfolding section_range
  hdr_range none = refl
  hdr_range (some r) = refl

  frame_data :
      (o : Option (List ℕ))
      → section_data explicit_sections dot_eh_frame eh_frame (record s { eh_frame = o })
        ≡ (o, record s { eh_frame = none })
  unfolding section_data
  frame_data none = refl
  frame_data (some b) = refl

  hdr_data :
      (o : Option (List ℕ))
      → section_data explicit_sections dot_eh_frame_hdr eh_frame_hdr (record s { eh_frame_hdr = o })
        ≡ (o, record s { eh_frame_hdr = none })
  unfolding section_data
  hdr_data none = refl
  hdr_data (some b) = refl

-- Sections beside the typed ones make no difference: `try_from_section_info` through the adapter
-- of a broader set is `from_dwarf_sections` of the typed sections in it.
pub try_from_section_info-dwarf_of :
    (name : String) (avma_range : Range) (base_avma cache_id : ℕ) (s : ExplicitModuleSectionInfo)
    → try_from_section_info explicit_sections cache_id name avma_range base_avma s
      ≡ from_dwarf_sections cache_id name avma_range base_avma (dwarf_of s)
unfolding try_from_section_info from_dwarf_sections
try_from_section_info-dwarf_of name avma_range base_avma cache_id s =
    ap (λ (p : ModuleParts). and_then (validate_module_parts p) (λ _. ok (from_parts cache_id p)))
      parts
  where
    parts :
        module_parts_from_section_info explicit_sections name avma_range base_avma s
        ≡ parts_of name avma_range base_avma (dwarf_of s)
    parts =
        unfold module_parts_from_section_info in
        rw
          (
            text_range s s.text_svma,
            frame_range s s.eh_frame_svma,
            frame_data s s.eh_frame,
            hdr_range (record s { eh_frame = none }) s.eh_frame_hdr_svma,
            hdr_data (record s { eh_frame = none }) s.eh_frame_hdr,
          )
          refl
