-- ===== src/Dwarf/Encoded.antt =====
-- The `DW_EH_PE_*` pointer encodings of src/dwarf.rs and `Cursor::read_encoded`.
pub mod Total
use libunwinder.Prelude.{
  ℕ, ◌-◌, ◌*◌, Bool, true, false, not, ◌&&◌, bit_and, ◌==◌, if◌then◌else◌, wrapping_add,
  sign_extend16, sign_extend32,
}
use libunwinder.Error.{
  omitted_pointer_encoding, unsupported_pointer_encoding, indirect_pointer_requires_dereference,
  unsupported_pointer_application,
}
use libunwinder.Dwarf.Cursor.{
  Parser, Cursor, pure, fail, ◌>>=◌, read_u16, read_u32, read_u64, avma_here,
}
use libunwinder.Dwarf.Leb128.{read_uleb128, read_sleb128}

abbrev pub dw_eh_pe_omit : ℕ
dw_eh_pe_omit = 0xff

abbrev pub dw_eh_pe_format_mask : ℕ
dw_eh_pe_format_mask = 0x0f

abbrev pub dw_eh_pe_app_mask : ℕ
dw_eh_pe_app_mask = 0x70

abbrev pub dw_eh_pe_indirect : ℕ
dw_eh_pe_indirect = 0x80

-- `enc & !DW_EH_PE_INDIRECT` on a byte
abbrev pub direct_encoding : ℕ → ℕ
direct_encoding enc = bit_and enc 0x7f

-- The value as it stands, by the format in the low four bits; `enc` is for the error alone.
unfoldable pub read_raw : ℕ → ℕ → Parser ℕ
read_raw format enc =
    if format == 0x00
    then read_u64
    else if format == 0x02
    then read_u16
    else if format == 0x03
    then read_u32
    else if format == 0x04
    then read_u64
    else if format == 0x0a
    then (do v ← read_u16; pure (sign_extend16 v))
    else if format == 0x0b
    then (do v ← read_u32; pure (sign_extend32 v))
    else if format == 0x0c
    then read_u64
    else if format == 0x01
    then read_uleb128
    else if format == 0x09
    then read_sleb128
    else fail (unsupported_pointer_encoding enc)

-- The base that the three application bits name.
unfoldable pub apply_base : ℕ → ℕ → ℕ → ℕ → ℕ → ℕ → ℕ → Parser ℕ
apply_base app enc raw pcrel_base text_base data_base func_base =
    if app == 0
    then pure raw
    else if app == 0x10
    then pure (wrapping_add raw pcrel_base)
    else if app == 0x20
    then pure (wrapping_add raw text_base)
    else if app == 0x30
    then pure (wrapping_add raw data_base)
    else if app == 0x40
    then pure (wrapping_add raw func_base)
    else fail (unsupported_pointer_application enc)

abbrev pub is_indirect : ℕ → Bool
is_indirect enc = not (bit_and enc dw_eh_pe_indirect == 0)

module _ (enc text_base data_base func_base : ℕ) where
  unfoldable pub read_encoded_impl : Bool → Parser ℕ
  read_encoded_impl allow_indirect_without_deref =
      if enc == dw_eh_pe_omit
      then fail omitted_pointer_encoding
      else if is_indirect enc && not allow_indirect_without_deref
      then fail (indirect_pointer_requires_dereference enc)
      else (do
        pcrel_base ← avma_here
        raw ← read_raw (bit_and (direct_encoding enc) dw_eh_pe_format_mask) enc
        if is_indirect enc
            then pure 0
            else if raw == 0
            then pure 0
            else apply_base (bit_and (direct_encoding enc) dw_eh_pe_app_mask) enc raw pcrel_base
                text_base data_base func_base)

  unfoldable pub read_encoded : Parser ℕ
  read_encoded = read_encoded_impl false

  unfoldable pub read_encoded_personality : Parser ℕ
  read_encoded_personality = read_encoded_impl true
