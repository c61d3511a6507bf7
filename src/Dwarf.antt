-- ===== src/Dwarf.antt =====
-- src/dwarf.rs: the byte parser of `.eh_frame` entries. `Cursor` has the reads, `Leb128` and
-- `Encoded` the variable-length and encoded values, `Cie`, `Fde` and `CieInfo` the entries.
pub mod Cursor
pub mod Leb128
pub mod Encoded
pub mod Entry
pub mod Cie
pub mod Fde
