-- ===== src/Tests/Leb128.antt =====
-- The LEB128 readers on the bytes of small values.
use libunwinder.Prelude.{◌≡◌, refl, arith, [], ◌∷◌, ok}
use libunwinder.Dwarf.Cursor.{Cursor, IsInBounds}
use libunwinder.Dwarf.Leb128.{read_uleb128, read_sleb128}
use libunwinder.Dwarf.Leb128.Decode.{read_uleb128-leb128_bytes}
use libunwinder.Dwarf.Leb128.Signed.{read_sleb128-leb128_bytes}

-- `0xe5 0x8e 0x26` is 624485.
abbrev unsigned : Cursor
unsigned = record { bytes = 0xe5 ∷ 0x8e ∷ 0x26 ∷ 9 ∷ []; pos = 0; avma_base = 0 }

unsigned-IsInBounds : IsInBounds unsigned
unsigned-IsInBounds = record { within = omega arith; small = omega arith }

read_uleb128-leb128_bytes_example : read_uleb128 unsigned ≡ ok (624485, record unsigned { pos = 3 })
read_uleb128-leb128_bytes_example =
    read_uleb128-leb128_bytes (0x65 ∷ 0x0e ∷ []) 0x26 unsigned (9 ∷ [])
      (omega arith, (omega arith, tt)) (omega arith) (omega arith) unsigned-IsInBounds refl

-- `0xc0 0xbb 0x78` is -123456.
abbrev signed : Cursor
signed = record { bytes = 0xc0 ∷ 0xbb ∷ 0x78 ∷ 9 ∷ []; pos = 0; avma_base = 0 }

signed-IsInBounds : IsInBounds signed
signed-IsInBounds = record { within = omega arith; small = omega arith }

read_sleb128-leb128_bytes_example :
    read_sleb128 signed ≡ ok (18446744073709428160, record signed { pos = 3 })
read_sleb128-leb128_bytes_example =
    read_sleb128-leb128_bytes (0x40 ∷ 0x3b ∷ []) 0x78 signed (9 ∷ [])
      (omega arith, (omega arith, tt)) (omega arith) (omega arith) signed-IsInBounds refl

abbrev long : Cursor
long = record {
  bytes = 128 ∷ 129 ∷ 130 ∷ 131 ∷ 132 ∷ 133 ∷ 134 ∷ 135 ∷ 136 ∷ 137 ∷ 1 ∷ [];
  pos = 0;
  avma_base = 0;
}

long-IsInBounds : IsInBounds long
long-IsInBounds = record { within = omega arith; small = omega arith }
