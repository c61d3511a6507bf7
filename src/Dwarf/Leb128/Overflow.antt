-- ===== src/Dwarf/Leb128/Overflow.antt =====
-- Ten bytes with the top bit set: both readers give up behind them.
use libunwinder.Prelude.{
  ℕ, suc, ◌+◌, ◌*◌, ◌≤◌, ◌<◌, ◌≡◌, refl, ◌∙◌, arith, List, [], ◌∷◌, ◌++◌, All, length, bit_and,
  Result, err, leb, true, false,
}
use libunwinder.Prelude.Bits.{bit_and_0x80}
use libunwinder.Error.{DwarfParseError, leb128_overflow}
use libunwinder.Dwarf.Cursor.{Cursor, IsInBounds}
use libunwinder.Dwarf.Cursor.Stands.{Stands, Stands-behind, read_u8_at}
use libunwinder.Dwarf.Leb128.{uleb128_loop, read_uleb128, sleb128_loop, read_sleb128, or_group}
use libunwinder.Dwarf.Leb128.Decode.{IsInBounds-behind}

-- A byte that another one follows.
abbrev pub IsContinued : ℕ → Type 0
IsContinued b = (128 ≤ b) × (b < 256)

continued : (b : ℕ) → IsContinued b → bit_and b 0x80 ≡ 128
continued b h = bit_and_0x80 b (omega arith) ∙ omega arith

overflow_at :
    (p q : ℕ)
    → p ≡ q
    → ◌≡◌ {A = Result DwarfParseError (ℕ × Cursor)}
        (err (record { offset = p; kind = leb128_overflow }))
        (err (record { offset = q; kind = leb128_overflow }))
overflow_at p q e = cc

uleb128_loop-continued :
    (bs : List ℕ) (b acc shift : ℕ) (c : Cursor) (rest : List ℕ)
    → All IsContinued (b ∷ bs)
    → shift + 7 * length bs ≡ 63
    → IsInBounds c
    → Stands c ((b ∷ bs) ++ rest)
    → uleb128_loop (suc (length bs)) acc shift c
      ≡ err (record { offset = c.pos + suc (length bs); kind = leb128_overflow })
unfolding uleb128_loop
uleb128_loop-continued [] b acc shift c rest hb e i h =
    rw (read_u8_at c b rest i h, continued b hb.0, last) refl
  where
    last : leb 64 (shift + 7) ≡ true
    last = ground arith
uleb128_loop-continued (b' ∷ bs) b acc shift c rest hb e i h =
    rw (read_u8_at c b _ i h, continued b hb.0, below)
      (uleb128_loop-continued bs b' (or_group acc b shift) (shift + 7)
          (record c { pos = c.pos + 1 }) rest hb.1 (omega arith) (IsInBounds-behind c _ _ i h)
          (Stands-behind c (b ∷ []) _ h)
        ∙ overflow_at _ _ (omega arith))
  where
    below : leb 64 (shift + 7) ≡ false
    below = ground arith

sleb128_loop-continued :
    (bs : List ℕ) (b acc shift : ℕ) (c : Cursor) (rest : List ℕ)
    → All IsContinued (b ∷ bs)
    → shift + 7 * length bs ≡ 63
    → IsInBounds c
    → Stands c ((b ∷ bs) ++ rest)
    → sleb128_loop (suc (length bs)) acc shift c
      ≡ err (record { offset = c.pos + suc (length bs); kind = leb128_overflow })
unfolding sleb128_loop
sleb128_loop-continued [] b acc shift c rest hb e i h =
    rw (read_u8_at c b rest i h, continued b hb.0, last) refl
  where
    last : leb 64 (shift + 7) ≡ true
    last = ground arith
sleb128_loop-continued (b' ∷ bs) b acc shift c rest hb e i h =
    rw (read_u8_at c b _ i h, continued b hb.0, below)
      (sleb128_loop-continued bs b' (or_group acc b shift) (shift + 7)
          (record c { pos = c.pos + 1 }) rest hb.1 (omega arith) (IsInBounds-behind c _ _ i h)
          (Stands-behind c (b ∷ []) _ h)
        ∙ overflow_at _ _ (omega arith))
  where
    below : leb 64 (shift + 7) ≡ false
    below = ground arith

-- Ten bytes with the continuation bit at a cursor inside its bytes are too many: both readers
-- report an overflow behind the tenth.
pub read_leb128-continued :
    (bs : List ℕ) (b : ℕ) (c : Cursor) (rest : List ℕ)
    → All IsContinued (b ∷ bs)
    → length bs ≡ 9
    → IsInBounds c
    → Stands c ((b ∷ bs) ++ rest)
    → (read_uleb128 c ≡ err (record { offset = c.pos + 10; kind = leb128_overflow }))
      × (read_sleb128 c ≡ err (record { offset = c.pos + 10; kind = leb128_overflow }))
unfolding read_uleb128 read_sleb128
read_leb128-continued bs b c rest hb n i h = (
  rw (← ten) (uleb128_loop-continued bs b 0 0 c rest hb (omega arith) i h),
  rw (← ten) (sleb128_loop-continued bs b 0 0 c rest hb (omega arith) i h),
)
  where
    ten : suc (length bs) ≡ 10
    ten = omega arith
