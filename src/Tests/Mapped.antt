-- ===== src/Tests/Mapped.antt =====
-- The module of one function, from a mapped file of its two unwind sections and from an adapter with
-- more sections than are used.
use Prim.Native.String.{String}
use libunwinder.Prelude.{ℕ, ◌≡◌, refl, List, [], ◌∷◌, ◌++◌, Option, none, some, Result, ok}
use mathlib.Core.Option
use libunwinder.EhFrameTable.{parse, parse_count, parse_table, enc_size, read_unsigned}
use libunwinder.Module.{from_parts, validate_module_parts}
use libunwinder.Module.Sections.{
  SectionName, dot_text, dot_eh_frame, dot_eh_frame_hdr, try_from_section_info, section_range,
  section_data, module_parts_from_section_info,
}
use libunwinder.Module.Explicit.{ExplicitModuleSectionInfo}
use libunwinder.Module.Mmap.{
  MmapBytes, ObjectSection, ObjectFile, new, from_file_range, mmap_file, try_from_mmap_file,
}
use libunwinder.Tests.Functions.{hdr}
use libunwinder.Tests.Entries.{frame_bytes}
use libunwinder.Tests.Sections.{image, parts}

abbrev file_bytes : List ℕ
file_bytes = frame_bytes ++ hdr

abbrev section_named : SectionName → Option ObjectSection
section_named dot_text = some (record { address = 0x1000; size = 0x1000; file_range = none })
section_named dot_eh_frame =
    some (record { address = 0x3000; size = 40; file_range = some (0, 40) })
section_named dot_eh_frame_hdr =
    some (record { address = 0x4000; size = 20; file_range = some (40, 20) })
section_named _ = none

abbrev object_file : ObjectFile
object_file = record { relative_address_base = 0; section_by_name_bytes = section_named }

abbrev pub open_file : String → Result (Unit {0}) (Unit {0})
open_file path = ok tt

abbrev pub map_file : Unit {0} → Result (Unit {0}) (List ℕ)
map_file file = ok file_bytes

abbrev pub parse_file : List ℕ → Result (Unit {0}) ObjectFile
parse_file bytes = ok object_file

pub mapped :
    try_from_mmap_file open_file map_file parse_file 0 "one-fde" image 0 ≡ ok (from_parts 0 parts)
unfolding try_from_mmap_file mmap_file try_from_section_info section_range section_data
    module_parts_from_section_info from_file_range new validate_module_parts parse parse_count
    parse_table enc_size read_unsigned Option.bind
mapped = refl

abbrev header_view : MmapBytes
header_view = record { mmap = file_bytes; range = record { start = 40; end = 60 } }

viewed : from_file_range file_bytes 40 20 ≡ some header_view
unfolding from_file_range new Option.bind
viewed = refl

abbrev broad : ExplicitModuleSectionInfo
broad = record {
  base_svma = 0;
  text_svma = some (record { start = 0x1000; end = 0x2000 });
  text = none;
  stubs_svma = some (record { start = 0x2000; end = 0x2010 });
  stub_helper_svma = none;
  got_svma = none;
  unwind_info = some (1 ∷ []);
  eh_frame_svma = some (record { start = 0x3000; end = 0x3028 });
  eh_frame = some frame_bytes;
  eh_frame_hdr_svma = some (record { start = 0x4000; end = 0x4014 });
  eh_frame_hdr = some hdr;
  debug_frame = none;
  text_segment_svma = none;
  text_segment = some (2 ∷ []);
}
