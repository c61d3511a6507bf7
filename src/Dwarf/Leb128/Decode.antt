-- ===== src/Dwarf/Leb128/Decode.antt =====
-- What the two LEB128 readers return on every input whose value ends within ten bytes.
use libunwinder.Prelude.{
  ℕ, zero, suc, ◌+◌, ◌*◌, ◌%◌, ◌^◌, ◌≤◌, ◌<◌, ◌≡◌, refl, ap, ◌∙◌, arith, List, [], ◌∷◌, ◌++◌, All,
  length, bit_and, Result, ok, leb, false,
}
use libunwinder.Prelude.Bits.{bit_and_0x80}
use libunwinder.Error.{DwarfParseError}
use libunwinder.Dwarf.Cursor.{Cursor, IsInBounds}
use libunwinder.Dwarf.Cursor.Stands.{Stands, Stands-behind, Stands-fits, read_u8_at}
use libunwinder.Dwarf.Leb128.{uleb128_loop, read_uleb128, or_group}
use libunwinder.Dwarf.Leb128.Groups.{two_pow_seven, or_group-add, or_group-last, group_bound}

abbrev pub IsGroup : ℕ → Type 0
IsGroup g = g < 128

-- An encoding: groups of seven bits, lowest first, each with the top bit set, and a last group.
abbrev pub leb128_bytes : List ℕ → ℕ → List ℕ
leb128_bytes [] last = last ∷ []
leb128_bytes (g ∷ gs) last = (g + 128) ∷ leb128_bytes gs last

-- The number that the groups make, of any size.
abbrev pub leb128_value : List ℕ → ℕ → ℕ
leb128_value [] last = last
leb128_value (g ∷ gs) last = g + 128 * leb128_value gs last

-- One round of the unsigned loop on a byte with the top bit set, and on a last byte.
inner_round :
    (fuel acc g shift : ℕ) (c : Cursor) (rest : List ℕ)
    → g < 128
    → shift ≤ 56
    → acc < 2 ^ shift
    → IsInBounds c
    → Stands c ((g + 128) ∷ rest)
    → uleb128_loop (suc fuel) acc shift c
      ≡ uleb128_loop fuel (acc + g * 2 ^ shift) (shift + 7) (record c { pos = c.pos + 1 })
unfolding uleb128_loop
inner_round fuel acc g shift c rest hg hs ha b h =
    rw (read_u8_at c (g + 128) rest b h, top, below, add) refl
  where
    below : leb 64 (shift + 7) ≡ false
    below = ground arith

    top : bit_and (g + 128) 0x80 ≡ 128
    top = bit_and_0x80 (g + 128) (omega arith) ∙ omega arith

    add : or_group acc (g + 128) shift ≡ acc + g * 2 ^ shift
    add =
        or_group-add acc (g + 128) shift (omega arith) hs ha
        ∙ ap (λ (k : ℕ). acc + k * 2 ^ shift) low
      where
        low : (g + 128) % 128 ≡ g
        low = omega arith

last_round :
    (fuel acc g shift : ℕ) (c : Cursor) (rest : List ℕ)
    → g < 128
    → IsInBounds c
    → Stands c (g ∷ rest)
    → uleb128_loop (suc fuel) acc shift c ≡ ok (or_group acc g shift, record c { pos = c.pos + 1 })
unfolding uleb128_loop
last_round fuel acc g shift c rest hg b h = rw (read_u8_at c g rest b h, top) refl
  where
    top : bit_and g 0x80 ≡ 0
    top = bit_and_0x80 g (omega arith) ∙ omega arith

-- What an outcome that reads a value and moves on is known by.
pub ok_at :
    (c : Cursor) (v w p q : ℕ)
    → v ≡ w
    → p ≡ q
    → ◌≡◌ {A = Result DwarfParseError (ℕ × Cursor)}
        (ok (v, record c { pos = p }))
        (ok (w, record c { pos = q }))
ok_at c v w p q e f = cc

pub IsInBounds-behind :
    (c : Cursor) (x : ℕ) (rest : List ℕ)
    → IsInBounds c
    → Stands c (x ∷ rest)
    → IsInBounds (record c { pos = c.pos + 1 })
IsInBounds-behind c x rest b h = record {
  within = Stands-fits c (x ∷ []) rest b h;
  small = b.small;
}

uleb128_loop-bytes :
    (gs : List ℕ) (last fuel acc shift j : ℕ) (c : Cursor) (rest : List ℕ)
    → All IsGroup gs
    → IsGroup last
    → shift ≡ 7 * j
    → j + length gs ≤ 9
    → acc < 2 ^ shift
    → length gs < fuel
    → IsInBounds c
    → Stands c (leb128_bytes gs last ++ rest)
    → uleb128_loop fuel acc shift c
      ≡ ok (
        (acc + leb128_value gs last * 2 ^ shift) % 2 ^ 64,
        record c { pos = c.pos + suc (length gs) },
      )
uleb128_loop-bytes gs last zero acc shift j c rest hg hl hs hj ha hf b h = absurd (omega arith)
uleb128_loop-bytes [] last (suc fuel) acc shift j c rest hg hl hs hj ha hf b h =
    last_round fuel acc last shift c rest hl b h
    ∙ ok_at c _ _ _ _ (or_group-last acc last shift j hl hs (omega arith) ha) (omega arith)
uleb128_loop-bytes (g ∷ gs) last (suc fuel) acc shift j c rest hg hl hs hj ha hf b h =
    inner_round fuel acc g shift c _ hg.0 (omega arith) ha b h
    ∙ uleb128_loop-bytes gs last fuel (acc + g * 2 ^ shift) (shift + 7) (j + 1)
        (record c { pos = c.pos + 1 }) rest hg.1 hl (omega arith) (omega arith)
        (group_bound acc g shift hg.0 ha) (omega arith) (IsInBounds-behind c _ _ b h)
        (Stands-behind c ((g + 128) ∷ []) _ h)
    ∙ ok_at c _ _ _ _ (ap (λ (k : ℕ). k % 2 ^ 64) regroup) (omega arith)
  where
    regroup :
        acc + g * 2 ^ shift + leb128_value gs last * 2 ^ (shift + 7)
        ≡ acc + (g + 128 * leb128_value gs last) * 2 ^ shift
    regroup = omega (arith, ap (λ (k : ℕ). leb128_value gs last * k) (two_pow_seven shift))

-- `read_uleb128` reads a value that is encoded in at most ten bytes at a cursor inside its bytes,
-- modulo 2 ^ 64, and stands behind it.
pub read_uleb128-leb128_bytes :
    (gs : List ℕ) (last : ℕ) (c : Cursor) (rest : List ℕ)
    → All IsGroup gs
    → IsGroup last
    → length gs ≤ 9
    → IsInBounds c
    → Stands c (leb128_bytes gs last ++ rest)
    → read_uleb128 c
      ≡ ok (leb128_value gs last % 2 ^ 64, record c { pos = c.pos + suc (length gs) })
unfolding read_uleb128
read_uleb128-leb128_bytes gs last c rest hg hl n b h =
    uleb128_loop-bytes gs last 10 0 0 0 c rest hg hl (omega arith) (omega arith) (omega arith)
      (omega arith) b h
    ∙ ok_at c _ _ _ _ (omega arith) (omega arith)
