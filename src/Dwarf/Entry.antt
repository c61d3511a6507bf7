-- ===== src/Dwarf/Entry.antt =====
-- What `parse_cie` and `parse_fde` of src/dwarf.rs both spell out: the length of an entry at its
-- start, its id or CIE pointer, and the instructions that fill its end.
pub mod Bounds
use libunwinder.Prelude.{
  ℕ, Bool, Option, Result, ok, err, ◌==◌, if◌then◌else◌, ok_or, checked_add, try_usize, usize_sub,
  ltb, length,
}
use libunwinder.Error.{DwarfParseError, DwarfParseErrorKind, entry_length_overflow, truncated}
use libunwinder.Dwarf.Cursor.{
  Cursor, Parser, pure, fail, lift, here, ◌>>=◌, ◌>>◌, read_u32, read_u64,
}

-- `option.ok_or_else(|| DwarfError::new(c.pos, kind))?`
abbrev pub expect : {A : Type 0} → Option A → DwarfParseErrorKind → Parser A
expect o kind c = lift (ok_or o (record { offset = c.pos; kind = kind })) c

pub record Extent : Type 0 where
  pub is_dwarf64 : Bool
  pub entry_end : ℕ

-- The length, with the 64-bit extension behind `0xffff_ffff`.
unfoldable pub read_extent : Parser Extent
read_extent = do
  len32 ← read_u32
  let is_dwarf64 = len32 == 0xffff_ffff
  entry_len ←
      (if is_dwarf64
        then (do v ← read_u64; expect (try_usize v) entry_length_overflow)
        else pure len32)
  pos ← here
  entry_end ← expect (checked_add pos entry_len) entry_length_overflow
  pure (record { is_dwarf64 = is_dwarf64; entry_end = entry_end })

-- The CIE id of a CIE, the CIE pointer of an FDE.
unfoldable pub read_id : Bool → Parser ℕ
read_id is_dwarf64 = if is_dwarf64 then read_u64 else read_u32

pub record InstrRange : Type 0 where
  pub offset : ℕ
  pub len : ℕ

-- The instructions run from the cursor to the end of the entry. The subtraction is unchecked in
-- the source: an entry that ends before the cursor stops a build with overflow checks.
unfoldable pub instr_range : ℕ → Parser InstrRange
instr_range entry_end c =
    if ltb (length c.bytes) entry_end
    then fail (truncated entry_end (length c.bytes)) c
    else (do len ← lift (usize_sub entry_end c.pos); pure (record { offset = c.pos; len = len })) c
