-- ===== src/Dwarf/Fde.antt =====
-- `parse_fde` of src/dwarf.rs. `fde_fields` is its body up to the instructions; `parse_fde` ends it.
pub mod Bounds
use libunwinder.Prelude.{
  ℕ, ◌≤◌, List, Bool, true, false, Result, ok, err, and_then, checked_add, try_usize, ltb, ◌==◌,
  if◌then◌else◌, bit_and,
}
use libunwinder.Error.{DwarfParseError, entry_length_overflow, truncated, fde_cie_pointer_is_zero}
use libunwinder.Dwarf.Cursor.{Cursor, Parser, pure, fail_at, here, seek, ◌>>=◌, ◌>>◌}
use libunwinder.Dwarf.Leb128.{read_uleb128}
use libunwinder.Dwarf.Encoded.{dw_eh_pe_omit, dw_eh_pe_format_mask, read_encoded}
use libunwinder.Dwarf.Entry.{expect, Extent, read_extent, read_id, InstrRange, instr_range}

pub record ParsedFde : Type 0 where
  pub initial_pc : ℕ
  pub address_range : ℕ
  pub fde_instr_offset_in_eh_frame : ℕ
  pub fde_instr_len : ℕ
  pub lsda : ℕ

pub record FdeParseConfig : Type 0 where
  pub fde_encoding : ℕ
  pub lsda_encoding : ℕ
  pub has_z : Bool
  pub text_base : ℕ
  pub data_base : ℕ

pub record FdeFields : Type 0 where
  pub entry_end : ℕ
  pub initial_pc : ℕ
  pub address_range : ℕ
  pub lsda : ℕ

abbrev pub fde_record : ℕ → ℕ → ℕ → ℕ → FdeFields
fde_record entry_end initial_pc address_range lsda = record {
  entry_end = entry_end;
  initial_pc = initial_pc;
  address_range = address_range;
  lsda = lsda;
}

abbrev pub fde_of : FdeFields → InstrRange → ParsedFde
fde_of f r = record {
  initial_pc = f.initial_pc;
  address_range = f.address_range;
  fde_instr_offset_in_eh_frame = r.offset;
  fde_instr_len = r.len;
  lsda = f.lsda;
}

-- `DwarfError::new(aug_data_start, Truncated { needed, len })` unless `needed <= len`
abbrev pub ends_by : ℕ → ℕ → ℕ → Parser (Unit {0})
ends_by aug_data_start needed len =
    if ltb len needed then fail_at aug_data_start (truncated needed len) else pure tt

-- A zero pointer marks a CIE.
abbrev pub check_pointer : ℕ → ℕ → Parser (Unit {0})
check_pointer cie_ptr_pos cie_ptr =
    if cie_ptr == 0 then fail_at cie_ptr_pos fde_cie_pointer_is_zero else pure tt

module _ (config : FdeParseConfig) where
  abbrev pub lsda_pointer : ℕ → Parser ℕ
  lsda_pointer initial_pc =
      if config.lsda_encoding == dw_eh_pe_omit
      then pure 0
      else read_encoded config.lsda_encoding config.text_base config.data_base initial_pc

  -- The sized augmentation data: its length, and the LSDA pointer unless that is omitted. The
  -- cursor moves to its end.
  unfoldable pub read_lsda : ℕ → ℕ → Parser ℕ
  read_lsda entry_end initial_pc = do
    len ← read_uleb128
    aug_data_len ← expect (try_usize len) entry_length_overflow
    aug_data_start ← here
    aug_data_end ← expect (checked_add aug_data_start aug_data_len) entry_length_overflow
    ends_by aug_data_start aug_data_end entry_end
    lsda ← lsda_pointer initial_pc
    pos ← here
    ends_by aug_data_start pos aug_data_end
    seek aug_data_end
    pure lsda

  abbrev pub sized_lsda : ℕ → ℕ → Parser ℕ
  sized_lsda entry_end initial_pc = if config.has_z then read_lsda entry_end initial_pc else pure 0

  -- The range has the format of the encoding and no base.
  abbrev pub range_encoding : ℕ
  range_encoding = bit_and config.fde_encoding dw_eh_pe_format_mask

  unfoldable pub fde_fields : Parser FdeFields
  fde_fields = do
    extent ← read_extent
    cie_ptr_pos ← here
    cie_ptr ← read_id extent.is_dwarf64
    check_pointer cie_ptr_pos cie_ptr
    initial_pc ← read_encoded config.fde_encoding config.text_base config.data_base 0
    address_range ← read_encoded range_encoding 0 0 0
    lsda ← sized_lsda extent.entry_end initial_pc
    pure (fde_record extent.entry_end initial_pc address_range lsda)

  unfoldable pub fde_parser : Parser ParsedFde
  fde_parser = do
    fields ← fde_fields
    range ← instr_range fields.entry_end
    pure (fde_of fields range)

unfoldable pub parse_fde : List ℕ → ℕ → ℕ → FdeParseConfig → Result DwarfParseError ParsedFde
parse_fde eh_frame_bytes fde_offset eh_frame_avma_base config =
    and_then
      (fde_parser config
        (record { bytes = eh_frame_bytes; pos = fde_offset; avma_base = eh_frame_avma_base }))
      (λ r. ok r.0)
