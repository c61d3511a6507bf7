-- ===== src/Dwarf/Leb128/Total.antt =====
-- Ten rounds are enough: the LEB128 readers return or fail on every input, inside the bytes, and
-- behind the first byte.
use libunwinder.Prelude.{ℕ, zero, suc, ◌+◌, ◌*◌, ◌≤◌, ◌<◌, arith, bit_and, leb, ◌==◌}
use libunwinder.Error.{leb128_overflow}
use libunwinder.Dwarf.Cursor.{read_u8}
use libunwinder.Dwarf.Cursor.Reads.{IsReader, IsReader-pure, IsReader-fail, IsReader-if}
use libunwinder.Dwarf.Cursor.Consumes.{IsConsumer, IsConsumer-bind, read_u8-IsConsumer}
use libunwinder.Dwarf.Leb128.{uleb128_loop, read_uleb128, sleb128_loop, read_sleb128, or_group}

uleb128_loop-IsConsumer :
    (fuel acc shift : ℕ)
    → shift < 64
    → 64 ≤ shift + 7 * fuel
    → IsConsumer (uleb128_loop fuel acc shift)
unfolding uleb128_loop
uleb128_loop-IsConsumer zero acc shift h k = absurd (omega arith)
uleb128_loop-IsConsumer (suc fuel) acc shift h k =
    IsConsumer-bind read_u8 _ read_u8-IsConsumer λ byte.
      IsReader-if (bit_and byte 0x80 == 0) _ _ (λ _. IsReader-pure _)
        λ _.
          IsReader-if (leb 64 (shift + 7)) _ _ (λ _. IsReader-fail leb128_overflow)
            λ more.
              (uleb128_loop-IsConsumer fuel (or_group acc byte shift) (shift + 7) (ground arith)
                (omega arith)).reader

sleb128_loop-IsConsumer :
    (fuel acc shift : ℕ)
    → shift < 64
    → 64 ≤ shift + 7 * fuel
    → IsConsumer (sleb128_loop fuel acc shift)
unfolding sleb128_loop
sleb128_loop-IsConsumer zero acc shift h k = absurd (omega arith)
sleb128_loop-IsConsumer (suc fuel) acc shift h k =
    IsConsumer-bind read_u8 _ read_u8-IsConsumer λ byte.
      IsReader-if (bit_and byte 0x80 == 0) _ _ (λ _. IsReader-pure _)
        λ _.
          IsReader-if (leb 64 (shift + 7)) _ _ (λ _. IsReader-fail leb128_overflow)
            λ more.
              (sleb128_loop-IsConsumer fuel (or_group acc byte shift) (shift + 7) (ground arith)
                (omega arith)).reader

pub read_uleb128-IsConsumer : IsConsumer read_uleb128
unfolding read_uleb128
read_uleb128-IsConsumer = uleb128_loop-IsConsumer 10 0 0 (omega arith) (omega arith)

pub read_sleb128-IsConsumer : IsConsumer read_sleb128
unfolding read_sleb128
read_sleb128-IsConsumer = sleb128_loop-IsConsumer 10 0 0 (omega arith) (omega arith)

pub read_uleb128-IsReader : IsReader read_uleb128
read_uleb128-IsReader = read_uleb128-IsConsumer.reader

pub read_sleb128-IsReader : IsReader read_sleb128
read_sleb128-IsReader = read_sleb128-IsConsumer.reader
