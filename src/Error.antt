-- ===== src/Error.antt =====
-- src/error.rs and the error type of src/eh_frame_table.rs: the errors of the parsers, of the
-- unwind-info lookup, of libunwind and of the unwinders. Their
-- texts and sources are in the modules below.
pub mod ParserDisplay
pub mod Display
pub mod Distinct
pub mod Sources
use Prim.Native.String.{String}
use libunwinder.Prelude.Int.{ℤ, pos, abs}
use mathlib.Core.Option
use libunwinder.Prelude.{Option, ◌==◌, if◌then◌else◌, ℕ}

pub data DwarfParseErrorKind : Type 0 where
  truncated : (needed len : ℕ) → DwarfParseErrorKind
  leb128_overflow : DwarfParseErrorKind
  entry_length_overflow : DwarfParseErrorKind
  omitted_pointer_encoding : DwarfParseErrorKind
  unsupported_pointer_encoding : (encoding : ℕ) → DwarfParseErrorKind
  indirect_pointer_requires_dereference : (encoding : ℕ) → DwarfParseErrorKind
  unsupported_pointer_application : (encoding : ℕ) → DwarfParseErrorKind
  bad_cie_id : (cie_id : ℕ) → DwarfParseErrorKind
  unsupported_cie_version : (version : ℕ) → DwarfParseErrorKind
  unsupported_cie_address_size : (address_size segment_size : ℕ) → DwarfParseErrorKind
  unterminated_augmentation_string : DwarfParseErrorKind
  unsupported_augmentation : (byte : ℕ) → DwarfParseErrorKind
  unsupported_non_z_augmentation : DwarfParseErrorKind
  fde_cie_pointer_is_zero : DwarfParseErrorKind

pub record DwarfParseError : Type 0 where
  pub offset : ℕ
  pub kind : DwarfParseErrorKind

pub data EhFrameHdrError : Type 0 where
  fixed_header_truncated : (len : ℕ) → EhFrameHdrError
  unsupported_version : (version : ℕ) → EhFrameHdrError
  unsupported_eh_frame_ptr_encoding : (encoding : ℕ) → EhFrameHdrError
  eh_frame_ptr_truncated : (offset size len : ℕ) → EhFrameHdrError
  unsupported_fde_count_encoding : (encoding : ℕ) → EhFrameHdrError
  fde_count_truncated : (offset size len : ℕ) → EhFrameHdrError
  unsupported_table_encoding : (encoding : ℕ) → EhFrameHdrError
  table_truncated : (offset entry_count len : ℕ) → EhFrameHdrError

pub data UnwindInfoError : Type 0 where
  module_not_found : (ip : ℕ) → UnwindInfoError
  missing_local_unwind_sections : (name : String) (ip : ℕ) → UnwindInfoError
  function_cache_poisoned : (name : String) → UnwindInfoError
  eh_frame_header_lookup_miss : (name : String) (ip : ℕ) → UnwindInfoError
  invalid_eh_frame_hdr : (name : String) (source : EhFrameHdrError) → UnwindInfoError
  fde_offset_before_eh_frame : (name : String) (fde_avma eh_frame_avma : ℕ) → UnwindInfoError
  fde_offset_out_of_range : (name : String) (fde_offset eh_frame_len : ℕ) → UnwindInfoError
  fde_length_prefix_truncated : (name : String) (fde_offset eh_frame_len : ℕ) → UnwindInfoError
  cie_pointer_truncated : (name : String) (cie_ptr_offset eh_frame_len : ℕ) → UnwindInfoError
  cie_pointer_underflow : (name : String) (cie_ptr_offset cie_ptr : ℕ) → UnwindInfoError
  cie_parse : (name : String) (cie_offset : ℕ) (source : DwarfParseError) → UnwindInfoError
  fde_parse : (name : String) (fde_offset : ℕ) (source : DwarfParseError) → UnwindInfoError

pub data LibunwindPhase : Type 0 where
  init_remote : LibunwindPhase
  step : LibunwindPhase
  get_instruction_pointer : LibunwindPhase
  get_register : (reg : ℤ) → LibunwindPhase

pub data LibunwindErrorCode : Type 0 where
  unspecified : LibunwindErrorCode
  no_memory : LibunwindErrorCode
  bad_register : LibunwindErrorCode
  read_only_register : LibunwindErrorCode
  stop_unwind : LibunwindErrorCode
  invalid_instruction_pointer : LibunwindErrorCode
  bad_frame : LibunwindErrorCode
  invalid_operation : LibunwindErrorCode
  bad_version : LibunwindErrorCode
  no_info : LibunwindErrorCode
  unknown : (code : ℤ) → LibunwindErrorCode

pub record LibunwindError : Type 0 where
  pub phase : LibunwindPhase
  pub code : LibunwindErrorCode
  pub raw_status : ℤ

-- `UNW_EUNSPEC` to `UNW_ENOINFO` of src/ffi/consts.rs, in the order of their numbers.
unfoldable pub code_of : ℕ → LibunwindErrorCode
code_of n =
    if n == 1
    then unspecified
    else if n == 2
    then no_memory
    else if n == 3
    then bad_register
    else if n == 4
    then read_only_register
    else if n == 5
    then stop_unwind
    else if n == 6
    then invalid_instruction_pointer
    else if n == 7
    then bad_frame
    else if n == 8
    then invalid_operation
    else if n == 9
    then bad_version
    else if n == 10
    then no_info
    else unknown (pos n)

-- `status.abs()` overflows at the least `i32`, where a checked build panics.
unfoldable pub from_status : ℤ → Option LibunwindErrorCode
from_status status = Option.map code_of (abs status)

-- `LibunwindError::new`
unfoldable pub libunwind_error : LibunwindPhase → ℤ → Option LibunwindError
libunwind_error phase raw_status =
    Option.map (λ code. record { phase = phase; code = code; raw_status = raw_status })
      (from_status raw_status)

pub data Error : Type 0 where
  could_not_read_stack : (addr : ℕ) → Error
  framepointer_unwinding_moved_backwards : Error
  did_not_advance : Error
  integer_overflow : Error
  return_address_is_null : Error
  libunwind : LibunwindError → Error
  unwind_info : UnwindInfoError → Error
