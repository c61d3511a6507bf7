-- ===== src/Module.antt =====
-- src/module.rs: what a module keeps, and how it is built from its sections. A local pointer with
-- its length is the bytes that it points to, `none` for a null pointer. The mutex-guarded function
-- cache is shared by all clones of a module, so a module holds the cache's identity.
pub mod Sections
pub mod Build
pub mod Explicit
pub mod Mmap
use Prim.Native.String.{String}
use libunwinder.Prelude.{
  ℕ, List, [], ◌∷◌, ◌++◌, Bool, Option, none, some, Result, ok, err, panic, and_then, map_err, leb,
  if◌then◌else◌, length, wrapping_add, wrapping_sub, saturating_add,
}
use libunwinder.Error.{EhFrameHdrError}
use libunwinder.EhFrameTable
use libunwinder.EhFrameTable.{EhFrameTable}
use libunwinder.CieInfo.{DwarfCieInfo}

pub record Range : Type 0 where
  pub start : ℕ
  pub end : ℕ

-- `local_bytes` is the section from `local_ptr` on.
pub record LocalSection : Type 0 where
  pub avma_start : ℕ
  pub avma_end : ℕ
  pub local_bytes : List ℕ

pub record FunctionDetails : Type 0 where
  pub start_ip : ℕ
  pub end_ip : ℕ
  pub cie_info : DwarfCieInfo
  pub lsda : ℕ
  pub handler : ℕ
  pub signal_frame : Bool

pub record ModuleData : Type 0 where
  pub name : String
  pub avma_range : Range
  pub base_avma : ℕ
  pub local_sections : List LocalSection
  pub table : EhFrameTable
  pub eh_frame_hdr_local : Option (List ℕ)
  pub eh_frame_local : Option (List ℕ)
  pub eh_frame_avma : ℕ
  pub eh_frame_hdr_error : Option EhFrameHdrError
  pub cache_id : ℕ
  pub text_base : ℕ
  pub data_base : ℕ

pub data ModuleError : Type 0 where
  empty_avma_range : ModuleError
  missing_eh_frame : ModuleError
  missing_eh_frame_svma : ModuleError
  missing_eh_frame_hdr : ModuleError
  missing_eh_frame_hdr_svma : ModuleError
  invalid_eh_frame_hdr : EhFrameHdrError → ModuleError

pub record ModuleParts : Type 0 where
  pub name : String
  pub avma_range : Range
  pub base_avma : ℕ
  pub base_svma : ℕ
  pub text_svma : Option Range
  pub eh_frame_svma : Option Range
  pub eh_frame : Option (List ℕ)
  pub eh_frame_hdr_svma : Option Range
  pub eh_frame_hdr : Option (List ℕ)

-- What `from_parts` makes of one section: its mirror, its bytes and its address.
pub record Mirror : Type 0 where
  pub sections : List LocalSection
  pub bytes : Option (List ℕ)
  pub avma : ℕ

abbrev pub mirror : ℕ → Option (List ℕ) → Option Range → Mirror
mirror slide (some bytes) (some svma) =
    let avma = wrapping_add svma.start slide in
    record {
      sections =
          record {
            avma_start = avma;
            avma_end = saturating_add avma (length bytes);
            local_bytes = bytes;
          }
          ∷ [];
      bytes = some bytes;
      avma = avma;
    }
mirror slide _ _ = record { sections = []; bytes = none; avma = 0 }

-- The table of the header, empty if it is missing or malformed, and why it is malformed.
abbrev pub table_of : Mirror → EhFrameTable × Option EhFrameHdrError
table_of m = elim m.bytes [
  | none ↦ (EhFrameTable.empty 0, none)
  | some bytes ↦ elim (EhFrameTable.parse bytes m.avma) [
    | ok table ↦ (table, none)
    | err e ↦ (EhFrameTable.empty m.avma, some e)
    | panic ↦ (EhFrameTable.empty m.avma, none)
  ]
]

abbrev pub slide_of : ModuleParts → ℕ
slide_of parts = wrapping_sub parts.base_avma parts.base_svma

-- `cache_id` names the new, empty function cache.
unfoldable pub from_parts : ℕ → ModuleParts → ModuleData
from_parts cache_id parts =
    let slide = slide_of parts in
    let hdr = mirror slide parts.eh_frame_hdr parts.eh_frame_hdr_svma in
    let frame = mirror slide parts.eh_frame parts.eh_frame_svma in
    record {
      name = parts.name;
      avma_range = parts.avma_range;
      base_avma = parts.base_avma;
      local_sections = hdr.sections ++ frame.sections;
      table = (table_of hdr).0;
      eh_frame_hdr_local = hdr.bytes;
      eh_frame_local = frame.bytes;
      eh_frame_avma = frame.avma;
      eh_frame_hdr_error = (table_of hdr).1;
      cache_id = cache_id;
      text_base = elim parts.text_svma [
        | none ↦ parts.avma_range.start
        | some r ↦ wrapping_add r.start slide
      ];
      data_base = hdr.avma;
    }

-- The sections' checks in the order of the source: the `.eh_frame` range and bytes, then the range and
-- bytes of the header, which is parsed at the address that it will have.
abbrev pub validate_sections :
    ℕ
    → Option Range
    → Option (List ℕ)
    → Option Range
    → Option (List ℕ)
    → Result ModuleError (Unit {0})
validate_sections slide none eh_frame hdr_svma hdr = err missing_eh_frame_svma
validate_sections slide (some svma) none hdr_svma hdr = err missing_eh_frame
validate_sections slide (some svma) (some bytes) none hdr = err missing_eh_frame_hdr_svma
validate_sections slide (some svma) (some bytes) (some hdr_svma) none = err missing_eh_frame_hdr
validate_sections slide (some svma) (some bytes) (some hdr_svma) (some hdr) =
    and_then
      (map_err invalid_eh_frame_hdr (EhFrameTable.parse hdr (wrapping_add hdr_svma.start slide)))
      (λ _. ok tt)

unfoldable pub validate_module_parts : ModuleParts → Result ModuleError (Unit {0})
validate_module_parts parts =
    if leb parts.avma_range.end parts.avma_range.start
    then err empty_avma_range
    else validate_sections (slide_of parts) parts.eh_frame_svma parts.eh_frame
        parts.eh_frame_hdr_svma parts.eh_frame_hdr
