-- ===== src/Dwarf/Cursor.antt =====
-- `Cursor` of src/dwarf.rs: fixed-width reads. A read returns its value and the cursor behind it.
-- The cursor is local to `parse_cie` and `parse_fde`, which drop it when a read fails.
pub mod Reads
pub mod Consumes
pub mod Stands
pub mod Seeks
use libunwinder.Prelude.{
  ℕ, zero, ◌+◌, ◌*◌, ◌^◌, List, Option, none, some, Result, ok, err, panic, and_then, ok_or,
  usize_add, ◌≤◌, ◌<◌, length, get_elem?, get_range, from_le_bytes, wrapping_add, if◌then◌else◌,
  ltb,
}
use libunwinder.Error.{DwarfParseError, DwarfParseErrorKind, truncated}

pub record Cursor : Type 0 where
  pub bytes : List ℕ
  pub pos : ℕ
  pub avma_base : ℕ

abbrev pub Parser {ℓ} : Type ℓ → Type ℓ
Parser A = Cursor → Result DwarfParseError (A × Cursor)

module _ {ℓ} {A : Type ℓ} where
  abbrev pub pure : A → Parser A
  pure a c = ok (a, c)

  -- `Err(DwarfError::new(offset, kind))`
  abbrev pub fail_at : ℕ → DwarfParseErrorKind → Parser A
  fail_at offset kind c = err (record { offset = offset; kind = kind })

  -- `Err(DwarfError::new(self.pos, kind))`
  abbrev pub fail : DwarfParseErrorKind → Parser A
  fail kind c = fail_at c.pos kind c

  abbrev pub lift : Result DwarfParseError A → Parser A
  lift r c = and_then r (λ a. ok (a, c))

  infixl 5 ◌>>=◌
  abbrev pub ◌>>=◌ {κ} : {B : Type κ} → Parser A → (A → Parser B) → Parser B
  ◌>>=◌ m f c = and_then (m c) (λ r. f r.0 r.1)

infixl 5 ◌>>◌
abbrev pub ◌>>◌ {ℓ} : {B : Type ℓ} → Parser (Unit {0}) → Parser B → Parser B
m >> k = m >>= λ _. k

unfoldable pub current_avma : Cursor → ℕ
current_avma c = wrapping_add c.avma_base c.pos

-- `self.pos`
abbrev pub here : Parser ℕ
here c = ok (c.pos, c)

-- `self.current_avma()` in a chain of reads
abbrev pub avma_here : Parser ℕ
avma_here c = ok (current_avma c, c)

abbrev pub seek : ℕ → Parser (Unit {0})
seek pos c = ok (tt, record c { pos = pos })

unfoldable pub read_u8 : Parser ℕ
read_u8 c = elim (get_elem? c.bytes c.pos) [
  | some v ↦ and_then (usize_add c.pos 1) (λ end. ok (v, record c { pos = end }))
  | none ↦ and_then (usize_add c.pos 1) (λ needed. fail (truncated needed (length c.bytes)) c)
]

-- The common body of `read_u16`, `read_u32` and `read_u64`.
unfoldable pub read_slice : ℕ → Parser (List ℕ)
read_slice n c = and_then (usize_add c.pos n) λ end. elim (get_range c.bytes c.pos end) [
  | some slice ↦ ok (slice, record c { pos = end })
  | none ↦ fail (truncated end (length c.bytes)) c
]

unfoldable pub read_u16 : Parser ℕ
read_u16 = do slice ← read_slice 2; pure (from_le_bytes slice)

unfoldable pub read_u32 : Parser ℕ
read_u32 = do slice ← read_slice 4; pure (from_le_bytes slice)

unfoldable pub read_u64 : Parser ℕ
read_u64 = do slice ← read_slice 8; pure (from_le_bytes slice)

-- A Rust slice has fewer than 2 ^ 63 bytes.
pub record IsInBounds (c : Cursor) : Type 0 where
  pub within : c.pos ≤ length c.bytes
  pub small : length c.bytes < 2 ^ 63
