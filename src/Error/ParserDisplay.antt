-- ===== src/Error/ParserDisplay.antt =====
-- The `Display` texts of the parsers' errors, in src/error.rs and src/eh_frame_table.rs.
use libunwinder.Prelude.{[], ◌∷◌}
use libunwinder.Prelude.Text.{Text, codes, write, decimal, hex, hex02}
use libunwinder.Error.{
  DwarfParseErrorKind, truncated, leb128_overflow, entry_length_overflow, omitted_pointer_encoding,
  unsupported_pointer_encoding, indirect_pointer_requires_dereference,
  unsupported_pointer_application, bad_cie_id, unsupported_cie_version,
  unsupported_cie_address_size, unterminated_augmentation_string, unsupported_augmentation,
  unsupported_non_z_augmentation, fde_cie_pointer_is_zero, DwarfParseError, EhFrameHdrError,
  fixed_header_truncated, unsupported_version, unsupported_eh_frame_ptr_encoding,
  eh_frame_ptr_truncated, unsupported_fde_count_encoding, fde_count_truncated,
  unsupported_table_encoding, table_truncated,
}

unfoldable pub dwarf_kind : DwarfParseErrorKind → Text
dwarf_kind (truncated needed len) = write (
    codes "truncated read, needed byte offset "
    ∷ decimal needed
    ∷ codes " but buffer length is "
    ∷ decimal len
    ∷ [])
dwarf_kind leb128_overflow = codes "LEB128 value overflowed u64/i64"
dwarf_kind entry_length_overflow = codes "entry length overflows the .eh_frame buffer"
dwarf_kind omitted_pointer_encoding = codes "DW_EH_PE_omit cannot be decoded as a value"
dwarf_kind (unsupported_pointer_encoding encoding) =
    write (codes "unsupported pointer encoding 0x" ∷ hex02 encoding ∷ [])
dwarf_kind (indirect_pointer_requires_dereference encoding) = write (
    codes "pointer encoding 0x"
    ∷ hex02 encoding
    ∷ codes " is indirect and would require tracee memory dereference"
    ∷ [])
dwarf_kind (unsupported_pointer_application encoding) =
    write (codes "unsupported pointer application in encoding 0x" ∷ hex02 encoding ∷ [])
dwarf_kind (bad_cie_id cie_id) = write (codes "expected CIE id 0, found " ∷ decimal cie_id ∷ [])
dwarf_kind (unsupported_cie_version version) =
    write (codes "unsupported CIE version " ∷ decimal version ∷ [])
dwarf_kind (unsupported_cie_address_size address_size segment_size) = write (
    codes "unsupported CIE address_size="
    ∷ decimal address_size
    ∷ codes ", segment_size="
    ∷ decimal segment_size
    ∷ [])
dwarf_kind unterminated_augmentation_string = codes "unterminated CIE augmentation string"
dwarf_kind (unsupported_augmentation byte) =
    write (codes "unsupported CIE augmentation byte 0x" ∷ hex02 byte ∷ [])
dwarf_kind unsupported_non_z_augmentation = codes "unsupported non-z CIE augmentation string"
dwarf_kind fde_cie_pointer_is_zero = codes "FDE CIE pointer is zero, so entry is not an FDE"

unfoldable pub dwarf_parse_error : DwarfParseError → Text
dwarf_parse_error e = write (
    codes "DWARF parse error at .eh_frame offset 0x"
    ∷ hex e.offset
    ∷ codes ": "
    ∷ dwarf_kind e.kind
    ∷ [])

unfoldable pub eh_frame_hdr_error : EhFrameHdrError → Text
eh_frame_hdr_error (fixed_header_truncated len) =
    write
      (codes ".eh_frame_hdr fixed header is truncated: len=" ∷ decimal len ∷ codes ", need 4" ∷ [])
eh_frame_hdr_error (unsupported_version version) =
    write (codes "unsupported .eh_frame_hdr version " ∷ decimal version ∷ [])
eh_frame_hdr_error (unsupported_eh_frame_ptr_encoding encoding) =
    write (codes "unsupported .eh_frame_hdr eh_frame_ptr encoding 0x" ∷ hex02 encoding ∷ [])
eh_frame_hdr_error (eh_frame_ptr_truncated offset size len) = write (
    codes ".eh_frame_hdr eh_frame_ptr at offset 0x"
    ∷ hex offset
    ∷ codes " needs "
    ∷ decimal size
    ∷ codes " bytes but len is "
    ∷ decimal len
    ∷ [])
eh_frame_hdr_error (unsupported_fde_count_encoding encoding) =
    write (codes "unsupported .eh_frame_hdr FDE count encoding 0x" ∷ hex02 encoding ∷ [])
eh_frame_hdr_error (fde_count_truncated offset size len) = write (
    codes ".eh_frame_hdr FDE count at offset 0x"
    ∷ hex offset
    ∷ codes " needs "
    ∷ decimal size
    ∷ codes " bytes but len is "
    ∷ decimal len
    ∷ [])
eh_frame_hdr_error (unsupported_table_encoding encoding) = write (
    codes "unsupported .eh_frame_hdr table encoding 0x"
    ∷ hex02 encoding
    ∷ codes "; expected DW_EH_PE_datarel|DW_EH_PE_sdata4"
    ∷ [])
eh_frame_hdr_error (table_truncated offset entry_count len) = write (
    codes ".eh_frame_hdr table at offset 0x"
    ∷ hex offset
    ∷ codes " has "
    ∷ decimal entry_count
    ∷ codes " entries but len is "
    ∷ decimal len
    ∷ [])
