-- ===== src/Dwarf/Entry/Bounds.antt =====
-- The head of an entry is read inside the bytes, and the one place where an entry can panic.
use libunwinder.Prelude.{
  ℕ, ◌+◌, ◌≤◌, ◌<◌, ◌≡◌, ◌↔◌, refl, Bool, Option, none, some, ok, panic, arith, length,
}
use libunwinder.Error.{DwarfParseErrorKind}
use libunwinder.Dwarf.Cursor.{Cursor}
use libunwinder.Dwarf.Cursor.Reads.{IsReader, reader_rules}
use libunwinder.Dwarf.Entry.{expect, read_extent, read_id, InstrRange, instr_range}

pub IsReader-expect :
    {A : Type 0} (o : Option A) (kind : DwarfParseErrorKind) → IsReader (expect o kind)
IsReader-expect none kind = record { at = λ c b. tt }
IsReader-expect (some a) kind = record {
  at = λ c b. record {
    same_bytes = refl;
    same_base = refl;
    forward = omega arith;
    within = b.within;
  };
}

pub read_extent-IsReader : IsReader read_extent
unfolding read_extent
read_extent-IsReader = search (reader_rules, IsReader-expect) depth 10

pub read_id-IsReader : (is_dwarf64 : Bool) → IsReader (read_id is_dwarf64)
unfolding read_id
read_id-IsReader is_dwarf64 = search reader_rules

-- The end of an entry stops a checked build exactly when the entry fits the bytes and ends before
-- the cursor.
pub instr_range-panic :
    (entry_end : ℕ) (c : Cursor)
    → (instr_range entry_end c ≡ panic) ↔ ((entry_end ≤ length c.bytes) × (entry_end < c.pos))
unfolding instr_range
instr_range-panic entry_end c = ground arith

-- The range that it returns ends where the entry ends, inside the bytes.
pub instr_range-ok :
    (entry_end : ℕ) (c d : Cursor) (r : InstrRange)
    → instr_range entry_end c ≡ ok (r, d)
    → (r.offset ≡ c.pos) × (r.offset + r.len ≡ entry_end) × (entry_end ≤ length c.bytes)
unfolding instr_range
instr_range-ok entry_end c d r h = ground arith
