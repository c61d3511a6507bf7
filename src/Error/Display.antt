-- ===== src/Error/Display.antt =====
-- The `Display` texts of the other errors of src/error.rs.
use libunwinder.Prelude.{[], ◌∷◌}
use libunwinder.Prelude.Text.{Text, codes, write, hex, signed}
use libunwinder.Error.{
  UnwindInfoError, module_not_found, missing_local_unwind_sections, function_cache_poisoned,
  eh_frame_header_lookup_miss, invalid_eh_frame_hdr, fde_offset_before_eh_frame,
  fde_offset_out_of_range, fde_length_prefix_truncated, cie_pointer_truncated,
  cie_pointer_underflow, cie_parse, fde_parse, LibunwindPhase, init_remote, step,
  get_instruction_pointer, get_register, LibunwindErrorCode, unspecified, no_memory, bad_register,
  read_only_register, stop_unwind, invalid_instruction_pointer, bad_frame, invalid_operation,
  bad_version, no_info, unknown, LibunwindError, Error, could_not_read_stack,
  framepointer_unwinding_moved_backwards, did_not_advance, integer_overflow, return_address_is_null,
  libunwind, unwind_info,
}
use libunwinder.Error.ParserDisplay.{dwarf_parse_error, eh_frame_hdr_error}

unfoldable pub unwind_info_text : UnwindInfoError → Text
unwind_info_text (module_not_found ip) =
    write (codes "no registered module contains IP 0x" ∷ hex ip ∷ [])
unwind_info_text (missing_local_unwind_sections name ip) = write (
    codes "module "
    ∷ codes name
    ∷ codes " has no local .eh_frame/.eh_frame_hdr data for IP 0x"
    ∷ hex ip
    ∷ [])
unwind_info_text (function_cache_poisoned name) =
    write (codes "function-details cache for module " ∷ codes name ∷ codes " is poisoned" ∷ [])
unwind_info_text (eh_frame_header_lookup_miss name ip) =
    write
      (codes ".eh_frame_hdr in module " ∷ codes name ∷ codes " has no FDE for IP 0x" ∷ hex ip ∷ [])
unwind_info_text (invalid_eh_frame_hdr name source) = write (
    codes "module "
    ∷ codes name
    ∷ codes " has malformed .eh_frame_hdr: "
    ∷ eh_frame_hdr_error source
    ∷ [])
unwind_info_text (fde_offset_before_eh_frame name fde_avma eh_frame_avma) = write (
    codes "module "
    ∷ codes name
    ∷ codes " FDE address 0x"
    ∷ hex fde_avma
    ∷ codes " is before .eh_frame at 0x"
    ∷ hex eh_frame_avma
    ∷ [])
unwind_info_text (fde_offset_out_of_range name fde_offset eh_frame_len) = write (
    codes "module "
    ∷ codes name
    ∷ codes " FDE offset 0x"
    ∷ hex fde_offset
    ∷ codes " is outside .eh_frame length 0x"
    ∷ hex eh_frame_len
    ∷ [])
unwind_info_text (fde_length_prefix_truncated name fde_offset eh_frame_len) = write (
    codes "module "
    ∷ codes name
    ∷ codes " FDE length prefix at 0x"
    ∷ hex fde_offset
    ∷ codes " exceeds .eh_frame length 0x"
    ∷ hex eh_frame_len
    ∷ [])
unwind_info_text (cie_pointer_truncated name cie_ptr_offset eh_frame_len) = write (
    codes "module "
    ∷ codes name
    ∷ codes " CIE pointer at 0x"
    ∷ hex cie_ptr_offset
    ∷ codes " exceeds .eh_frame length 0x"
    ∷ hex eh_frame_len
    ∷ [])
unwind_info_text (cie_pointer_underflow name cie_ptr_offset cie_ptr) = write (
    codes "module "
    ∷ codes name
    ∷ codes " CIE pointer 0x"
    ∷ hex cie_ptr
    ∷ codes " at 0x"
    ∷ hex cie_ptr_offset
    ∷ codes " points before .eh_frame"
    ∷ [])
unwind_info_text (cie_parse name cie_offset source) = write (
    codes "failed to parse CIE at .eh_frame offset 0x"
    ∷ hex cie_offset
    ∷ codes " in module "
    ∷ codes name
    ∷ codes ": "
    ∷ dwarf_parse_error source
    ∷ [])
unwind_info_text (fde_parse name fde_offset source) = write (
    codes "failed to parse FDE at .eh_frame offset 0x"
    ∷ hex fde_offset
    ∷ codes " in module "
    ∷ codes name
    ∷ codes ": "
    ∷ dwarf_parse_error source
    ∷ [])

unfoldable pub phase_text : LibunwindPhase → Text
phase_text init_remote = codes "unw_init_remote"
phase_text step = codes "unw_step"
phase_text get_instruction_pointer = codes "unw_get_reg(IP)"
phase_text (get_register reg) = write (codes "unw_get_reg(" ∷ signed reg ∷ codes ")" ∷ [])

unfoldable pub code_text : LibunwindErrorCode → Text
code_text unspecified = codes "unspecified error"
code_text no_memory = codes "out of memory"
code_text bad_register = codes "bad register"
code_text read_only_register = codes "read-only register"
code_text stop_unwind = codes "forced stop"
code_text invalid_instruction_pointer = codes "invalid instruction pointer"
code_text bad_frame = codes "bad frame"
code_text invalid_operation = codes "invalid operation"
code_text bad_version = codes "bad version"
code_text no_info = codes "no unwind info"
code_text (unknown code) = write (codes "unknown libunwind error code " ∷ signed code ∷ [])

unfoldable pub libunwind_text : LibunwindError → Text
libunwind_text e = write (
    phase_text e.phase
    ∷ codes " failed: "
    ∷ code_text e.code
    ∷ codes " (raw status "
    ∷ signed e.raw_status
    ∷ codes ")"
    ∷ [])

unfoldable pub error_text : Error → Text
error_text (could_not_read_stack addr) =
    write (codes "could not read stack memory at 0x" ∷ hex addr ∷ [])
error_text framepointer_unwinding_moved_backwards = codes "frame pointer unwinding moved backwards"
error_text did_not_advance = codes "neither the code address nor the stack pointer changed"
error_text integer_overflow = codes "unwinding caused integer overflow"
error_text return_address_is_null = codes "return address was null"
error_text (libunwind e) = libunwind_text e
error_text (unwind_info e) = unwind_info_text e
