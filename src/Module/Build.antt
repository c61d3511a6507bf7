-- ===== src/Module/Build.antt =====
-- The constructors of src/module.rs agree, and what a validated module has.
use mathlib.Core.Path.{subst}
use Prim.Native.String.{String}
use libunwinder.Prelude.{
  ℕ, ◌<◌, ◌^◌, ◌≡◌, refl, sym, ◌∙◌, ap, arith, List, Option, none, some, ok, and_then, map_err,
  and_then-eq-ok, map_err-eq-ok, length, wrapping_add,
}
use libunwinder.Error.{EhFrameHdrError}
use libunwinder.EhFrameTable
use libunwinder.EhFrameTable.{EhFrameTable}
use libunwinder.EhFrameTable.Search.{Fits}
use libunwinder.EhFrameTable.Header.{parse-Fits}
use libunwinder.Module.{
  ModuleData, ModuleParts, Range, from_parts, validate_module_parts, validate_sections, slide_of,
  mirror, table_of, invalid_eh_frame_hdr,
}
use libunwinder.Module.Sections.{
  dot_text, text, dot_eh_frame, eh_frame, dot_eh_frame_hdr, eh_frame_hdr, DwarfModuleSections,
  dwarf_sections, section_range, section_data, module_parts_from_section_info,
  try_from_section_info, from_dwarf_sections, parts_of,
}

module _ (s : DwarfModuleSections) where
  text_range :
      (o : Option Range)
      → section_range dwarf_sections dot_text text (record s { text_svma = o })
        ≡ (o, record s { text_svma = o })
  unfolding section_range
  text_range none = refl
  text_range (some r) = refl

  frame_range :
      (o : Option Range)
      → section_range dwarf_sections dot_eh_frame eh_frame (record s { eh_frame_svma = o })
        ≡ (o, record s { eh_frame_svma = o })
  unfolding section_range
  frame_range none = refl
  frame_range (some r) = refl

  hdr_range :
      (o : Option Range)
      → section_range dwarf_sections dot_eh_frame_hdr eh_frame_hdr
          (record s { eh_frame_hdr_svma = o })
        ≡ (o, record s { eh_frame_hdr_svma = o })
  unfolding section_range
  hdr_range none = refl
  hdr_range (some r) = refl

  -- The bytes are taken out.
  frame_data :
      (o : Option (List ℕ))
      → section_data dwarf_sections dot_eh_frame eh_frame (record s { eh_frame = o })
        ≡ (o, record s { eh_frame = none })
  unfolding section_data
  frame_data none = refl
  frame_data (some b) = refl

  hdr_data :
      (o : Option (List ℕ))
      → section_data dwarf_sections dot_eh_frame_hdr eh_frame_hdr (record s { eh_frame_hdr = o })
        ≡ (o, record s { eh_frame_hdr = none })
  unfolding section_data
  hdr_data none = refl
  hdr_data (some b) = refl

module _ (name : String) (avma_range : Range) (base_avma : ℕ) where
  module_parts-parts_of :
      (s : DwarfModuleSections)
      → module_parts_from_section_info dwarf_sections name avma_range base_avma s
        ≡ parts_of name avma_range base_avma s
  unfolding module_parts_from_section_info
  module_parts-parts_of s =
      rw
        (
          text_range s s.text_svma,
          frame_range s s.eh_frame_svma,
          frame_data s s.eh_frame,
          hdr_range (record s { eh_frame = none }) s.eh_frame_hdr_svma,
          hdr_data (record s { eh_frame = none }) s.eh_frame_hdr,
        )
        refl

  -- `try_from_section_info` through the adapter of typed sections is `from_dwarf_sections`,
  -- although the adapter gives up its bytes.
  pub try_from_section_info-from_dwarf_sections :
      (cache_id : ℕ) (s : DwarfModuleSections)
      → try_from_section_info dwarf_sections cache_id name avma_range base_avma s
        ≡ from_dwarf_sections cache_id name avma_range base_avma s
  unfolding try_from_section_info from_dwarf_sections
  try_from_section_info-from_dwarf_sections cache_id s =
      ap (λ (p : ModuleParts). and_then (validate_module_parts p) (λ _. ok (from_parts cache_id p)))
        (module_parts-parts_of s)

-- What a validated module has: both sections, and a table inside the header's bytes.
pub record IsComplete (m : ModuleData) : Type 0 where
  pub hdr : List ℕ
  pub frame : List ℕ
  pub has_hdr : m.eh_frame_hdr_local ≡ some hdr
  pub has_frame : m.eh_frame_local ≡ some frame
  pub no_error : m.eh_frame_hdr_error ≡ none
  pub nonempty : m.avma_range.start < m.avma_range.end
  pub fits : Fits m.table hdr

validate_sections-ok :
    (slide : ℕ) (fs : Option Range) (f : Option (List ℕ)) (hs : Option Range) (h : Option (List ℕ))
    → validate_sections slide fs f hs h ≡ ok tt
    → (q : Range) × (frame : List ℕ) × (r : Range) × (hdr : List ℕ) × (t : EhFrameTable) × (fs
        ≡ some q)
      × (f ≡ some frame)
      × (hs ≡ some r)
      × (h ≡ some hdr)
      × (EhFrameTable.parse hdr (wrapping_add r.start slide) ≡ ok t)
validate_sections-ok slide none f hs h e = cc
validate_sections-ok slide (some q) none hs h e = cc
validate_sections-ok slide (some q) (some frame) none h e = cc
validate_sections-ok slide (some q) (some frame) (some r) none e = cc
validate_sections-ok slide (some q) (some frame) (some r) (some hdr) e =
    let (t, e1, e2) =
      and_then-eq-ok
        (map_err invalid_eh_frame_hdr (EhFrameTable.parse hdr (wrapping_add r.start slide))) _ e in
    (q, frame, r, hdr, t, refl, refl, refl, refl, map_err-eq-ok _ _ _ e1)

-- The module of validated parts whose header has fewer than 2 ^ 63 bytes has both sections, no
-- header error, a nonempty range and a table inside the header.
pub from_parts-IsComplete :
    (cache_id : ℕ) (parts : ModuleParts)
    → ((hdr : List ℕ) → parts.eh_frame_hdr ≡ some hdr → length hdr < 2 ^ 63)
    → validate_module_parts parts ≡ ok tt
    → IsComplete (from_parts cache_id parts)
unfolding validate_module_parts from_parts
from_parts-IsComplete cache_id parts small h =
    let slide = slide_of parts in
    let (q, frame, r, hdr, t, e1, e2, e3, e4, p) =
      validate_sections-ok slide parts.eh_frame_svma parts.eh_frame parts.eh_frame_hdr_svma
        parts.eh_frame_hdr (ground arith) in
    let settled = table_settled slide parts.eh_frame_hdr parts.eh_frame_hdr_svma hdr r t e4 e3 p in
    record {
      hdr = hdr;
      frame = frame;
      has_hdr = λ i. (mirror slide (e4 i) (e3 i)).bytes;
      has_frame = λ i. (mirror slide (e2 i) (e1 i)).bytes;
      no_error = ap (λ (x : EhFrameTable × Option EhFrameHdrError). x.1) settled;
      nonempty = ground arith;
      fits =
          subst (λ (x : EhFrameTable × Option EhFrameHdrError). Fits x.0 hdr) (sym settled)
            (parse-Fits hdr (wrapping_add r.start slide) t (small hdr e4) p).0;
    }
  where
    table_settled :
        (slide : ℕ) (o : Option (List ℕ)) (s : Option Range) (hdr : List ℕ) (r : Range)
        (t : EhFrameTable)
        → o ≡ some hdr
        → s ≡ some r
        → EhFrameTable.parse hdr (wrapping_add r.start slide) ≡ ok t
        → table_of (mirror slide o s) ≡ (t, none)
    table_settled slide o s hdr r t e f p =
        (λ i. table_of (mirror slide (e i) (f i))) ∙ rw (p, table_of) refl
