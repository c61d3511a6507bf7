-- ===== src/Error/Sources.antt =====
-- `Display` of the errors of src/module.rs, and `source` of all errors: an error of the operating
-- system or of the `object` crate is foreign, and its text a parameter.
use mathlib.Core.Option.{some-injective}
use libunwinder.Prelude.{[], ◌∷◌, Option, none, some}
use libunwinder.Prelude.Text.{Text, codes, write}
use libunwinder.Error.{
  DwarfParseError, EhFrameHdrError, UnwindInfoError, invalid_eh_frame_hdr, cie_parse, fde_parse,
  LibunwindError, Error, libunwind, unwind_info,
}
use libunwinder.Error.ParserDisplay.{dwarf_parse_error, eh_frame_hdr_error}
use libunwinder.Error.Display.{unwind_info_text, libunwind_text, error_text}
use libunwinder.Module.{
  ModuleError, empty_avma_range, missing_eh_frame, missing_eh_frame_svma, missing_eh_frame_hdr,
  missing_eh_frame_hdr_svma,
}
use libunwinder.Module
use mathlib.Core.Option
use libunwinder.Module.Mmap.{MmapModuleError, open_failed, map_failed, parse_failed, module_failed}

unfoldable pub module_error_text : ModuleError → Text
module_error_text empty_avma_range = codes "module AVMA range is empty"
module_error_text missing_eh_frame = codes "module is missing .eh_frame bytes"
module_error_text missing_eh_frame_svma = codes "module is missing .eh_frame SVMA range"
module_error_text missing_eh_frame_hdr = codes "module is missing .eh_frame_hdr bytes"
module_error_text missing_eh_frame_hdr_svma = codes "module is missing .eh_frame_hdr SVMA range"
module_error_text (Module.invalid_eh_frame_hdr e) =
    write (codes "invalid .eh_frame_hdr: " ∷ eh_frame_hdr_error e ∷ [])

module _ {Foreign : Type 0} (foreign_text : Foreign → Text) where
  unfoldable pub mmap_error_text : MmapModuleError Foreign Foreign → Text
  mmap_error_text (open_failed path source) =
      write (codes "failed to open " ∷ codes path ∷ codes ": " ∷ foreign_text source ∷ [])
  mmap_error_text (map_failed path source) =
      write (codes "failed to mmap " ∷ codes path ∷ codes ": " ∷ foreign_text source ∷ [])
  mmap_error_text (parse_failed path source) = write (
      codes "failed to parse "
      ∷ codes path
      ∷ codes " as an object file: "
      ∷ foreign_text source
      ∷ [])
  mmap_error_text (module_failed e) = module_error_text e

-- `dyn Error`
pub data AnyError (Foreign : Type 0) : Type 0 where
  of_error : Error → AnyError Foreign
  of_libunwind : LibunwindError → AnyError Foreign
  of_unwind_info : UnwindInfoError → AnyError Foreign
  of_dwarf_parse : DwarfParseError → AnyError Foreign
  of_eh_frame_hdr : EhFrameHdrError → AnyError Foreign
  of_module : ModuleError → AnyError Foreign
  of_mmap : MmapModuleError Foreign Foreign → AnyError Foreign
  foreign : Foreign → AnyError Foreign

module _ {Foreign : Type 0} where
  unfoldable pub error_source : Error → Option (AnyError Foreign)
  error_source (libunwind e) = some (of_libunwind e)
  error_source (unwind_info e) = some (of_unwind_info e)
  error_source _ = none

  unfoldable pub unwind_info_source : UnwindInfoError → Option (AnyError Foreign)
  unwind_info_source (invalid_eh_frame_hdr name source) = some (of_eh_frame_hdr source)
  unwind_info_source (cie_parse name cie_offset source) = some (of_dwarf_parse source)
  unwind_info_source (fde_parse name fde_offset source) = some (of_dwarf_parse source)
  unwind_info_source _ = none

  unfoldable pub module_source : ModuleError → Option (AnyError Foreign)
  module_source (Module.invalid_eh_frame_hdr e) = some (of_eh_frame_hdr e)
  module_source _ = none

  unfoldable pub mmap_source : MmapModuleError Foreign Foreign → Option (AnyError Foreign)
  mmap_source (open_failed path source) = some (foreign source)
  mmap_source (map_failed path source) = some (foreign source)
  mmap_source (parse_failed path source) = some (foreign source)
  mmap_source (module_failed e) = some (of_module e)

  -- The sources of a foreign error are foreign too.
  unfoldable pub source_of :
      (Foreign → Option Foreign) → AnyError Foreign → Option (AnyError Foreign)
  source_of foreign_source (of_error e) = error_source e
  source_of foreign_source (of_libunwind e) = none
  source_of foreign_source (of_unwind_info e) = unwind_info_source e
  source_of foreign_source (of_dwarf_parse e) = none
  source_of foreign_source (of_eh_frame_hdr e) = none
  source_of foreign_source (of_module e) = module_source e
  source_of foreign_source (of_mmap e) = mmap_source e
  source_of foreign_source (foreign e) = Option.map foreign (foreign_source e)

  unfoldable pub text_of : (Foreign → Text) → AnyError Foreign → Text
  text_of foreign_text (of_error e) = error_text e
  text_of foreign_text (of_libunwind e) = libunwind_text e
  text_of foreign_text (of_unwind_info e) = unwind_info_text e
  text_of foreign_text (of_dwarf_parse e) = dwarf_parse_error e
  text_of foreign_text (of_eh_frame_hdr e) = eh_frame_hdr_error e
  text_of foreign_text (of_module e) = module_error_text e
  text_of foreign_text (of_mmap e) = mmap_error_text foreign_text e
  text_of foreign_text (foreign e) = foreign_text e
