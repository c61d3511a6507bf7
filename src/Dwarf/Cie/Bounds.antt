-- ===== src/Dwarf/Cie/Bounds.antt =====
-- `parse_cie` on every input: where it can panic, and where the instructions it returns lie.
use mathlib.Core.Path.{subst}
use libunwinder.Prelude.{
  ℕ, ◌+◌, ◌≤◌, ◌<◌, ◌^◌, ◌≡◌, List, [], ◌∷◌, none, some, ok, panic, arith, ◌==◌, length, position,
  drop, ap, and_then-eq-ok, and_then-eq-panic, inl, inr, Option-cases, position-lt, length-drop,
}
use libunwinder.Dwarf.Cursor.{Cursor, IsInBounds}
use libunwinder.Dwarf.Cursor.Reads.{
  IsReader, MovesFrom, IsReader-ne-panic, IsReader-Follows, reader_rules,
}
use libunwinder.Dwarf.Leb128.Total.{read_uleb128-IsReader, read_sleb128-IsReader}
use libunwinder.Dwarf.Encoded.Total.{read_encoded_personality-IsReader}
use libunwinder.Dwarf.Entry.{InstrRange, instr_range}
use libunwinder.Dwarf.Entry.Bounds.{
  read_extent-IsReader, read_id-IsReader, instr_range-panic, instr_range-ok,
}
use libunwinder.Dwarf.Cie.{
  ParsedCie, read_augmentation, check_address_size, Augmentation, augmentation_loop,
  read_augmentation_data, CieFields, cie_fields, cie_of, cie_parser, parse_cie,
}

check_address_size-IsReader : IsReader check_address_size
unfolding check_address_size
check_address_size-IsReader = search reader_rules depth 10

augmentation_loop-IsReader : (chs : List ℕ) (a : Augmentation) → IsReader (augmentation_loop chs a)
unfolding augmentation_loop
augmentation_loop-IsReader [] a = search reader_rules
augmentation_loop-IsReader (ch ∷ chs) a =
    search (reader_rules, read_encoded_personality-IsReader, augmentation_loop-IsReader chs) depth
      12

read_augmentation_data-IsReader :
    (aug_start : ℕ) (aug : List ℕ) → IsReader (read_augmentation_data aug_start aug)
unfolding read_augmentation_data
read_augmentation_data-IsReader aug_start [] = search reader_rules
read_augmentation_data-IsReader aug_start (ch ∷ chs) =
    search (reader_rules, read_uleb128-IsReader, augmentation_loop-IsReader) depth 8

module _ (c : Cursor) (b : IsInBounds c) where
  unterminated :
      position (λ b. b == 0) (drop c.pos c.bytes) ≡ none → MovesFrom c (read_augmentation c)
  unfolding read_augmentation
  unterminated e = rw e (ground arith)

  terminated :
      (n : ℕ)
      → position (λ b. b == 0) (drop c.pos c.bytes) ≡ some n
      → MovesFrom c (read_augmentation c)
  unfolding read_augmentation
  terminated n e = rw e (
      ground (arith, position-lt (λ b. b == 0) (drop c.pos c.bytes) n e, length-drop c.pos c.bytes))

read_augmentation-IsReader : IsReader read_augmentation
read_augmentation-IsReader = record {
  at = λ c b. elim (Option-cases (position (λ b. b == 0) (drop c.pos c.bytes))) [
    | inl e ↦ unterminated c b e
    | inr (n, e) ↦ terminated c b n e
  ];
}

cie_fields-IsReader : IsReader cie_fields
unfolding cie_fields
cie_fields-IsReader =
    search
      (
        reader_rules, read_extent-IsReader, read_id-IsReader, read_augmentation-IsReader,
        check_address_size-IsReader, read_uleb128-IsReader, read_sleb128-IsReader,
        read_augmentation_data-IsReader,
      )
      depth 40

module _ (bytes : List ℕ) (offset base : ℕ) (fits : offset ≤ length bytes)
    (small : length bytes < 2 ^ 63) where
  abbrev start : Cursor
  start = record { bytes = bytes; pos = offset; avma_base = base }

  start-IsInBounds : IsInBounds start
  start-IsInBounds = record { within = fits; small = small }

  -- What a successful parse went through.
  pub parse_cie_parts :
      (cie : ParsedCie)
      → parse_cie bytes offset base ≡ ok cie
      → (f : CieFields) × (d : Cursor) × (r : InstrRange) × (d' : Cursor) × (cie_fields start
          ≡ ok (f, d))
        × (instr_range f.entry_end d ≡ ok (r, d'))
        × (cie_of f r ≡ cie)
  unfolding parse_cie cie_parser
  parse_cie_parts cie h =
      let (p, e1, e2) = and_then-eq-ok (cie_parser start) _ h in
      let (q, e3, e4) = and_then-eq-ok (cie_fields start) _ e1 in
      let (r, e5, e6) = and_then-eq-ok (instr_range q.0.entry_end q.1) _ e4 in
      (q.0, q.1, r.0, r.1, e3, e5, cc (e6, e2))

  -- The instructions of a CIE that is parsed at an offset inside fewer than 2 ^ 63 bytes lie at or
  -- behind the offset and inside the bytes.
  pub parse_cie_range :
      (cie : ParsedCie)
      → parse_cie bytes offset base ≡ ok cie
      → (offset ≤ cie.cie_instr_offset_in_eh_frame)
        × (cie.cie_instr_offset_in_eh_frame + cie.cie_instr_len ≤ length bytes)
  parse_cie_range cie h =
      let (f, d, r, d', e1, e2, e3) = parse_cie_parts cie h in
      let moved = IsReader-Follows cie_fields cie_fields-IsReader start start-IsInBounds f d e1 in
      let (at, end, fits_end) = instr_range-ok f.entry_end d d' r e2 in
      subst
        (λ (c : ParsedCie).
          (offset ≤ c.cie_instr_offset_in_eh_frame)
          × (c.cie_instr_offset_in_eh_frame + c.cie_instr_len ≤ length bytes))
        e3 (omega arith, omega (arith, ap (length {A = ℕ}) moved.same_bytes))

  -- At an offset inside fewer than 2 ^ 63 bytes `parse_cie` panics only if the fields of the entry
  -- are read and the entry ends before the end of them.
  pub parse_cie-panic :
      parse_cie bytes offset base ≡ panic
      → (f : CieFields) × (d : Cursor) × (cie_fields start ≡ ok (f, d)) × (f.entry_end < d.pos)
  unfolding parse_cie cie_parser
  parse_cie-panic h = elim (and_then-eq-panic (cie_parser start) _ h) [
    | inr (p, e, e') ↦ cc e'
    | inl e ↦ elim (and_then-eq-panic (cie_fields start) _ e) [
      | inl e' ↦ absurd (IsReader-ne-panic cie_fields cie_fields-IsReader start start-IsInBounds e')
      | inr ((f, d), e1, e2) ↦ elim (and_then-eq-panic (instr_range f.entry_end d) _ e2) [
        | inr (q, e3, e4) ↦ cc e4
        | inl e3 ↦ (f, d, e1, ((instr_range-panic f.entry_end d).0 e3).1)
      ]
    ]
  ]
