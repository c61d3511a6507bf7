-- ===== src/CieInfo.antt =====
-- `DwarfCieInfo` of src/ffi/types.rs and `build_dwarf_cie_info` of src/dwarf.rs.
use libunwinder.Prelude.{ℕ, Bool, bit_or, if◌then◌else◌, wrapping_add}
use libunwinder.Dwarf.Cie.{ParsedCie}
use libunwinder.Dwarf.Fde.{ParsedFde}

-- `abi` and `tag` are always 0.
pub record DwarfCieInfo : Type 0 where
  pub cie_instr_start : ℕ
  pub cie_instr_end : ℕ
  pub fde_instr_start : ℕ
  pub fde_instr_end : ℕ
  pub code_align : ℕ
  pub data_align : ℕ
  pub ret_addr_column : ℕ
  pub handler : ℕ
  pub abi : ℕ
  pub tag : ℕ
  pub fde_encoding : ℕ
  pub lsda_encoding : ℕ
  pub flags : ℕ

abbrev pub flag_sized_augmentation : ℕ
flag_sized_augmentation = 1

abbrev pub flag_signal_frame : ℕ
flag_signal_frame = 4

-- `flags` starts at 0 and has a bit for each of the two.
abbrev pub cie_flags : Bool → Bool → ℕ
cie_flags has_z signal_frame =
    let sized = bit_or 0 (if has_z then flag_sized_augmentation else 0) in
    bit_or sized (if signal_frame then flag_signal_frame else 0)

unfoldable pub build_dwarf_cie_info : ParsedCie → ParsedFde → ℕ → DwarfCieInfo
build_dwarf_cie_info cie fde base =
    let cie_start = wrapping_add base cie.cie_instr_offset_in_eh_frame in
    let fde_start = wrapping_add base fde.fde_instr_offset_in_eh_frame in
    record {
      cie_instr_start = cie_start;
      cie_instr_end = wrapping_add cie_start cie.cie_instr_len;
      fde_instr_start = fde_start;
      fde_instr_end = wrapping_add fde_start fde.fde_instr_len;
      code_align = cie.code_align;
      data_align = cie.data_align;
      ret_addr_column = cie.ret_addr_column;
      handler = cie.personality;
      abi = 0;
      tag = 0;
      fde_encoding = cie.fde_encoding;
      lsda_encoding = cie.lsda_encoding;
      flags = cie_flags cie.has_z cie.signal_frame;
    }
