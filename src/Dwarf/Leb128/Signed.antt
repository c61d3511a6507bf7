-- ===== src/Dwarf/Leb128/Signed.antt =====
-- `read_sleb128` on every input whose value ends within ten bytes, as a 64-bit pattern.
use libunwinder.Prelude.{
  ℕ, zero, suc, ◌+◌, ◌-◌, ◌*◌, ◌%◌, ◌^◌, ◌≤◌, ◌<◌, ◌≡◌, refl, ap, ◌∙◌, arith, List, [], ◌∷◌, ◌++◌,
  All, length, bit_and, ok, ltb, leb, false, if◌then◌else◌,
}
use libunwinder.Prelude.Bits.{bit_and_0x80}
use libunwinder.Dwarf.Cursor.{Cursor, IsInBounds}
use libunwinder.Dwarf.Cursor.Stands.{Stands, Stands-behind, read_u8_at}
use libunwinder.Dwarf.Leb128.{sleb128_loop, read_sleb128, or_group}
use libunwinder.Dwarf.Leb128.Groups.{
  two_pow_seven, or_group-add, group_bound, sign_fill, signed_group, signed_group-last,
}
use libunwinder.Dwarf.Leb128.Decode.{IsGroup, leb128_bytes, leb128_value, ok_at, IsInBounds-behind}

inner_round :
    (fuel acc g shift : ℕ) (c : Cursor) (rest : List ℕ)
    → g < 128
    → shift ≤ 56
    → acc < 2 ^ shift
    → IsInBounds c
    → Stands c ((g + 128) ∷ rest)
    → sleb128_loop (suc fuel) acc shift c
      ≡ sleb128_loop fuel (acc + g * 2 ^ shift) (shift + 7) (record c { pos = c.pos + 1 })
unfolding sleb128_loop
inner_round fuel acc g shift c rest hg hs ha b h =
    rw (read_u8_at c (g + 128) rest b h, top, below, add) refl
  where
    below : leb 64 (shift + 7) ≡ false
    below = ground arith

    top : bit_and (g + 128) 0x80 ≡ 128
    top = bit_and_0x80 (g + 128) (omega arith) ∙ omega arith

    low : (g + 128) % 128 ≡ g
    low = omega arith

    add : or_group acc (g + 128) shift ≡ acc + g * 2 ^ shift
    add =
        or_group-add acc (g + 128) shift (omega arith) hs ha
        ∙ ap (λ (k : ℕ). acc + k * 2 ^ shift) low

last_round :
    (fuel acc g shift : ℕ) (c : Cursor) (rest : List ℕ)
    → g < 128
    → IsInBounds c
    → Stands c (g ∷ rest)
    → sleb128_loop (suc fuel) acc shift c
      ≡ ok (signed_group acc g shift, record c { pos = c.pos + 1 })
unfolding sleb128_loop
last_round fuel acc g shift c rest hg b h = rw (read_u8_at c g rest b h, top) refl
  where
    top : bit_and g 0x80 ≡ 0
    top = bit_and_0x80 g (omega arith) ∙ omega arith

sleb128_loop-bytes :
    (gs : List ℕ) (last fuel acc shift j : ℕ) (c : Cursor) (rest : List ℕ)
    → All IsGroup gs
    → IsGroup last
    → shift ≡ 7 * j
    → j + length gs ≤ 9
    → acc < 2 ^ shift
    → length gs < fuel
    → IsInBounds c
    → Stands c (leb128_bytes gs last ++ rest)
    → sleb128_loop fuel acc shift c
      ≡ ok (
        (acc + leb128_value gs last * 2 ^ shift + sign_fill last (shift + 7 * suc (length gs)))
            % 2 ^ 64,
        record c { pos = c.pos + suc (length gs) },
      )
sleb128_loop-bytes gs last zero acc shift j c rest hg hl hs hj ha hf b h = absurd (omega arith)
sleb128_loop-bytes [] last (suc fuel) acc shift j c rest hg hl hs hj ha hf b h =
    last_round fuel acc last shift c rest hl b h
    ∙ ok_at c _ _ _ _ (signed_group-last acc last shift j hl hs (omega arith) ha) (omega arith)
sleb128_loop-bytes (g ∷ gs) last (suc fuel) acc shift j c rest hg hl hs hj ha hf b h =
    inner_round fuel acc g shift c _ hg.0 (omega arith) ha b h
    ∙ sleb128_loop-bytes gs last fuel (acc + g * 2 ^ shift) (shift + 7) (j + 1)
        (record c { pos = c.pos + 1 }) rest hg.1 hl (omega arith) (omega arith)
        (group_bound acc g shift hg.0 ha) (omega arith) (IsInBounds-behind c _ _ b h)
        (Stands-behind c ((g + 128) ∷ []) _ h)
    ∙ ok_at c _ _ _ _ (rw same_end (ap (λ (k : ℕ). (k + fill) % 2 ^ 64) regroup)) (omega arith)
  where
    fill : ℕ
    fill = sign_fill last (shift + 7 * suc (suc (length gs)))

    same_end : shift + 7 + 7 * suc (length gs) ≡ shift + 7 * suc (suc (length gs))
    same_end = omega arith

    regroup :
        acc + g * 2 ^ shift + leb128_value gs last * 2 ^ (shift + 7)
        ≡ acc + (g + 128 * leb128_value gs last) * 2 ^ shift
    regroup = omega (arith, ap (λ (k : ℕ). leb128_value gs last * k) (two_pow_seven shift))

-- The pattern of a signed value: its groups, less 2 ^ (7 * length) if the sign bit is set.
abbrev pub signed_value : List ℕ → ℕ → ℕ
signed_value gs last =
    (leb128_value gs last + (if ltb last 64 then 0 else 2 ^ 70 - 2 ^ (7 * suc (length gs))))
    % 2 ^ 64

-- `read_sleb128` reads a signed value that is encoded in at most ten bytes at a cursor inside its
-- bytes as its 64-bit pattern, and stands behind it.
pub read_sleb128-leb128_bytes :
    (gs : List ℕ) (last : ℕ) (c : Cursor) (rest : List ℕ)
    → All IsGroup gs
    → IsGroup last
    → length gs ≤ 9
    → IsInBounds c
    → Stands c (leb128_bytes gs last ++ rest)
    → read_sleb128 c ≡ ok (signed_value gs last, record c { pos = c.pos + suc (length gs) })
unfolding read_sleb128
read_sleb128-leb128_bytes gs last c rest hg hl n b h =
    sleb128_loop-bytes gs last 10 0 0 0 c rest hg hl (omega arith) (omega arith) (omega arith)
      (omega arith) b h
    ∙ ok_at c _ _ _ _ (rw from_zero (ap (λ (k : ℕ). (k + fill) % 2 ^ 64) unscaled)) refl
  where
    fill : ℕ
    fill = sign_fill last (7 * suc (length gs))

    from_zero : 0 + 7 * suc (length gs) ≡ 7 * suc (length gs)
    from_zero = omega arith

    unscaled : 0 + leb128_value gs last * 2 ^ 0 ≡ leb128_value gs last
    unscaled = omega arith
