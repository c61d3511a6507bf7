-- ===== src/Dwarf/Cie.antt =====
-- `parse_cie` of src/dwarf.rs. `cie_fields` is its body up to the instructions; `parse_cie` ends it.
pub mod Bounds
use libunwinder.Prelude.{
  ℕ, ◌+◌, ◌-◌, List, [], ◌∷◌, Bool, true, false, not, ◌&&◌, ◌||◌, Option, none, some, Result, ok,
  err, panic, and_then, usize_add, ltb, ◌==◌, if◌then◌else◌, length, take, drop, position,
}
use libunwinder.Error.{
  DwarfParseError, bad_cie_id, unsupported_cie_version, unterminated_augmentation_string,
  unsupported_cie_address_size, unsupported_augmentation, unsupported_non_z_augmentation,
}
use libunwinder.Dwarf.Cursor.{
  Cursor, Parser, pure, fail, fail_at, lift, here, seek, ◌>>=◌, ◌>>◌, read_u8,
}
use libunwinder.Dwarf.Leb128.{read_uleb128, read_sleb128}
use libunwinder.Dwarf.Encoded.{dw_eh_pe_omit, read_encoded_personality}
use libunwinder.Dwarf.Entry.{Extent, read_extent, read_id, InstrRange, instr_range}

pub record ParsedCie : Type 0 where
  pub code_align : ℕ
  pub data_align : ℕ
  pub ret_addr_column : ℕ
  pub fde_encoding : ℕ
  pub lsda_encoding : ℕ
  pub personality : ℕ
  pub has_z : Bool
  pub signal_frame : Bool
  pub cie_instr_offset_in_eh_frame : ℕ
  pub cie_instr_len : ℕ

-- The bytes up to the next NUL; the cursor moves behind that. `bytes[start..]` panics past the end.
unfoldable pub read_augmentation : Parser (List ℕ)
read_augmentation c =
    if ltb (length c.bytes) c.pos
    then panic
    else elim (position (λ b. b == 0) (drop c.pos c.bytes)) [
      | none ↦ fail unterminated_augmentation_string c
      | some n ↦
          (do
            aug_end ← lift (usize_add c.pos n)
            behind ← lift (usize_add aug_end 1)
            seek behind
            pure (take n (drop c.pos c.bytes)))
            c
    ]

-- Version 4 has an address size and a segment size, which must be 8 and 0.
unfoldable pub check_address_size : Parser (Unit {0})
check_address_size = do
  address_size ← read_u8
  segment_size ← read_u8
  pos ← here
  if not (address_size == 8) || not (segment_size == 0)
      then fail_at (pos - 2) (unsupported_cie_address_size address_size segment_size)
      else pure tt

-- What the augmentation sets.
pub record Augmentation : Type 0 where
  pub has_z : Bool
  pub fde_encoding : ℕ
  pub lsda_encoding : ℕ
  pub personality : ℕ
  pub signal_frame : Bool

abbrev pub no_augmentation : Augmentation
no_augmentation = record {
  has_z = false;
  fde_encoding = 0;
  lsda_encoding = dw_eh_pe_omit;
  personality = 0;
  signal_frame = false;
}

-- `for &ch in &aug[1..]`
unfoldable pub augmentation_loop : List ℕ → Augmentation → Parser Augmentation
augmentation_loop [] a = pure a
augmentation_loop (ch ∷ chs) a =
    let rest = augmentation_loop chs in
    if ch == b'R'
    then (do e ← read_u8; rest (record a { fde_encoding = e }))
    else if ch == b'L'
    then (do e ← read_u8; rest (record a { lsda_encoding = e }))
    else if ch == b'P'
    then (do e ← read_u8; p ← read_encoded_personality e 0 0 0; rest (record a { personality = p }))
    else if ch == b'S'
    then rest (record a { signal_frame = true })
    else if ch == b'B' || ch == b'G'
    then rest a
    else fail (unsupported_augmentation ch)

unfoldable pub read_augmentation_data : ℕ → List ℕ → Parser Augmentation
read_augmentation_data aug_start [] = pure no_augmentation
read_augmentation_data aug_start (ch ∷ chs) =
    if ch == b'z'
    then (do
      _aug_data_len ← read_uleb128
      augmentation_loop chs (record no_augmentation { has_z = true }))
    else fail_at aug_start unsupported_non_z_augmentation

pub record CieFields : Type 0 where
  pub entry_end : ℕ
  pub code_align : ℕ
  pub data_align : ℕ
  pub ret_addr_column : ℕ
  pub augmentation : Augmentation

unfoldable pub cie_fields : Parser CieFields
cie_fields = do
  extent ← read_extent
  cie_id_pos ← here
  cie_id ← read_id extent.is_dwarf64
  (if cie_id == 0 then pure tt else fail_at cie_id_pos (bad_cie_id cie_id))
  version ← read_u8
  pos ← here
  (if not (version == 1) && not (version == 3) && not (version == 4)
      then fail_at (pos - 1) (unsupported_cie_version version)
      else pure tt)
  aug_start ← here
  aug ← read_augmentation
  (if version == 4 then check_address_size else pure tt)
  code_align ← read_uleb128
  data_align ← read_sleb128
  ret_addr_column ← (if version == 1 then read_u8 else read_uleb128)
  augmentation ← read_augmentation_data aug_start aug
  pure (record {
    entry_end = extent.entry_end;
    code_align = code_align;
    data_align = data_align;
    ret_addr_column = ret_addr_column;
    augmentation = augmentation;
  })

abbrev pub cie_of : CieFields → InstrRange → ParsedCie
cie_of f r = record {
  code_align = f.code_align;
  data_align = f.data_align;
  ret_addr_column = f.ret_addr_column;
  fde_encoding = f.augmentation.fde_encoding;
  lsda_encoding = f.augmentation.lsda_encoding;
  personality = f.augmentation.personality;
  has_z = f.augmentation.has_z;
  signal_frame = f.augmentation.signal_frame;
  cie_instr_offset_in_eh_frame = r.offset;
  cie_instr_len = r.len;
}

unfoldable pub cie_parser : Parser ParsedCie
cie_parser = do
  fields ← cie_fields
  range ← instr_range fields.entry_end
  pure (cie_of fields range)

unfoldable pub parse_cie : List ℕ → ℕ → ℕ → Result DwarfParseError ParsedCie
parse_cie eh_frame_bytes cie_offset eh_frame_avma_base =
    and_then
      (cie_parser
        (record { bytes = eh_frame_bytes; pos = cie_offset; avma_base = eh_frame_avma_base }))
      (λ r. ok r.0)
