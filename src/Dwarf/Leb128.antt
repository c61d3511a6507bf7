-- ===== src/Dwarf/Leb128.antt =====
-- `Cursor::read_uleb128` and `Cursor::read_sleb128` of src/dwarf.rs. A loop has a byte for each
-- seven bits of the shift, so ten rounds of fuel reach the shift of 70 at which it gives up. An
-- `i64` is its bit pattern, below 2 ^ 64.
pub mod Decode
pub mod Signed
pub mod Overflow
pub mod Total
mod Groups
use libunwinder.Prelude.{
  ℕ, zero, suc, ◌+◌, ◌-◌, ◌*◌, ◌%◌, ◌^◌, bit_and, bit_or, Bool, ◌&&◌, not, panic, ltb, leb, ◌==◌,
  if◌then◌else◌,
}
use libunwinder.Error.{leb128_overflow}
use libunwinder.Dwarf.Cursor.{Parser, pure, fail, ◌>>=◌, read_u8}

-- `acc | (((byte & 0x7f) as u64) << shift)`: bits shifted past the top are lost.
abbrev pub or_group : ℕ → ℕ → ℕ → ℕ
or_group acc byte shift = bit_or acc (bit_and byte 0x7f * 2 ^ shift % 2 ^ 64)

unfoldable pub uleb128_loop : ℕ → ℕ → ℕ → Parser ℕ
uleb128_loop zero acc shift = λ c. panic
uleb128_loop (suc fuel) acc shift = do
  byte ← read_u8
  let acc' = or_group acc byte shift
  let more = uleb128_loop fuel acc' (shift + 7)
  if bit_and byte 0x80 == 0
      then pure acc'
      else if leb 64 (shift + 7)
      then fail leb128_overflow
      else more

unfoldable pub read_uleb128 : Parser ℕ
read_uleb128 = uleb128_loop 10 0 0

-- `acc | (-1i64 << shift)`
abbrev pub or_sign : ℕ → ℕ → ℕ
or_sign acc shift = bit_or acc (2 ^ 64 - 2 ^ shift)

unfoldable pub sleb128_loop : ℕ → ℕ → ℕ → Parser ℕ
sleb128_loop zero acc shift = λ c. panic
sleb128_loop (suc fuel) acc shift = do
  byte ← read_u8
  let acc' = or_group acc byte shift
  let shift' = shift + 7
  let more = sleb128_loop fuel acc' shift'
  if bit_and byte 0x80 == 0
      then pure
          (if ltb shift' 64 && not (bit_and byte 0x40 == 0) then or_sign acc' shift' else acc')
      else if leb 64 shift'
      then fail leb128_overflow
      else more

unfoldable pub read_sleb128 : Parser ℕ
read_sleb128 = sleb128_loop 10 0 0
