-- ===== src/Dwarf/Fde/Bounds.antt =====
-- `parse_fde` on every input: where it can panic, and where the instructions it returns lie.
use mathlib.Core.Path.{subst}
use libunwinder.Prelude.{
  ℕ, ◌+◌, ◌≤◌, ◌<◌, ◌^◌, ◌≡◌, ◌≢◌, ap, List, Bool, true, false, inl, inr, ok, panic, arith, length,
  and_then-eq-ok, and_then-eq-panic, if◌then◌else◌, try_usize, checked_add,
}
use libunwinder.Error.{entry_length_overflow}
use libunwinder.Dwarf.Cursor.{Cursor, Parser, IsInBounds, pure, here, seek, ◌>>=◌, ◌>>◌}
use libunwinder.Dwarf.Cursor.Reads.{reader_rules}
use libunwinder.Dwarf.Cursor.Seeks.{
  IsSeeker, IsSeeker-bind, IsSeeker-map, IsSeeker-if, IsSeeker-reader, IsSeeker-ne-panic,
  IsSeeker-goes,
}
use libunwinder.Dwarf.Leb128.{read_uleb128}
use libunwinder.Dwarf.Leb128.Total.{read_uleb128-IsReader}
use libunwinder.Dwarf.Encoded.{read_encoded}
use libunwinder.Dwarf.Encoded.Total.{read_encoded-IsReader}
use libunwinder.Dwarf.Entry.{InstrRange, read_extent, read_id, instr_range, expect}
use libunwinder.Dwarf.Entry.Bounds.{
  IsReader-expect, read_extent-IsReader, read_id-IsReader, instr_range-panic, instr_range-ok,
}
use libunwinder.Dwarf.Fde.{
  ParsedFde, FdeParseConfig, ends_by, read_lsda, lsda_pointer, check_pointer, sized_lsda,
  range_encoding, FdeFields, fde_record, fde_fields, fde_of, fde_parser, parse_fde,
}

-- `c.pos = aug_data_end` behind its check.
seek_end-IsSeeker :
    (start end lsda : ℕ) → IsSeeker (do pos ← here; ends_by start pos end; seek end; pure lsda)
seek_end-IsSeeker start end lsda = record { at = λ c b. ground arith }

seek_end-pos :
    (start end l : ℕ) (c d : Cursor) (lsda : ℕ)
    → (do pos ← here; ends_by start pos end; seek end; pure l) c ≡ ok (lsda, d)
    → d.pos ≡ end
seek_end-pos start end l c d lsda h = ground arith

ends_by-le :
    (start needed len : ℕ) (c : Cursor) (r : Unit {0} × Cursor)
    → ends_by start needed len c ≡ ok r
    → needed ≤ len
ends_by-le start needed len c r h = ground arith

taken :
    (t : Bool) (m n : Parser ℕ) (c : Cursor) (r : ℕ × Cursor)
    → t ≡ true
    → (if t then m else n) c ≡ ok r
    → m c ≡ ok r
taken true m n c r e h = h
taken false m n c r e h = cc e

fde_end :
    (entry_end pc range lsda : ℕ) (f : FdeFields) (c d : Cursor)
    → pure (fde_record entry_end pc range lsda) c ≡ ok (f, d)
    → c.pos ≤ entry_end
    → d.pos ≤ f.entry_end
fde_end entry_end pc range lsda f c d h k = ground arith

module _ (config : FdeParseConfig) where
  read_lsda-IsSeeker : (entry_end pc : ℕ) → IsSeeker (read_lsda config entry_end pc)
  unfolding read_lsda
  read_lsda-IsSeeker entry_end pc =
      search
        (
          reader_rules, IsSeeker-bind, seek_end-IsSeeker, read_uleb128-IsReader, IsReader-expect,
          read_encoded-IsReader,
        )
        depth 14

  read_lsda-le :
      (entry_end pc : ℕ) (c d : Cursor) (lsda : ℕ)
      → read_lsda config entry_end pc c ≡ ok (lsda, d)
      → d.pos ≤ entry_end
  unfolding read_lsda
  read_lsda-le entry_end pc c d lsda h =
      let (p1, e1, f1) = and_then-eq-ok (read_uleb128 c) _ h in
      let (p2, e2, f2) = and_then-eq-ok (expect (try_usize p1.0) entry_length_overflow p1.1) _ f1 in
      let (p3, e3, f3) =
        and_then-eq-ok (expect (checked_add p2.1.pos p2.0) entry_length_overflow p2.1) _ f2 in
      let (p4, e4, f4) = and_then-eq-ok (ends_by p2.1.pos p3.0 entry_end p3.1) _ f3 in
      let (p5, e5, f5) = and_then-eq-ok (lsda_pointer config pc p4.1) _ f4 in
      let end = seek_end-pos p2.1.pos p3.0 p5.0 p5.1 d lsda f5 in
      omega (arith, ends_by-le p2.1.pos p3.0 entry_end p3.1 p4 e4)

  sized_lsda-le :
      (entry_end pc : ℕ) (c d : Cursor) (lsda : ℕ)
      → config.has_z ≡ true
      → sized_lsda config entry_end pc c ≡ ok (lsda, d)
      → d.pos ≤ entry_end
  sized_lsda-le entry_end pc c d lsda z h =
      read_lsda-le entry_end pc c d lsda
        (taken config.has_z (read_lsda config entry_end pc) (pure 0) c _ z h)

  fde_fields-IsSeeker : IsSeeker (fde_fields config)
  unfolding fde_fields
  fde_fields-IsSeeker =
      search
        (
          reader_rules, IsSeeker-bind, IsSeeker-map, IsSeeker-if, IsSeeker-reader,
          read_lsda-IsSeeker, read_extent-IsReader, read_id-IsReader, read_encoded-IsReader,
        )
        depth 20

  -- With a sized augmentation the cursor stands inside the entry behind the fields.
  fde_fields-le :
      (c d : Cursor) (f : FdeFields)
      → config.has_z ≡ true
      → fde_fields config c ≡ ok (f, d)
      → d.pos ≤ f.entry_end
  unfolding fde_fields
  fde_fields-le c d f z h =
      let (p1, e1, f1) = and_then-eq-ok (read_extent c) _ h in
      let (p2, e2, f2) = and_then-eq-ok (read_id p1.0.is_dwarf64 p1.1) _ f1 in
      let (p3, e3, f3) = and_then-eq-ok (check_pointer p1.1.pos p2.0 p2.1) _ f2 in
      let (p4, e4, f4) =
        and_then-eq-ok (read_encoded config.fde_encoding config.text_base config.data_base 0 p3.1) _
          f3 in
      let (p5, e5, f5) = and_then-eq-ok (read_encoded (range_encoding config) 0 0 0 p4.1) _ f4 in
      let (p6, e6, f6) = and_then-eq-ok (sized_lsda config p1.0.entry_end p4.0 p5.1) _ f5 in
      fde_end p1.0.entry_end p4.0 p5.0 p6.0 f p6.1 d f6
        (sized_lsda-le p1.0.entry_end p4.0 p5.1 p6.1 p6.0 z e6)

module _ (config : FdeParseConfig) (bytes : List ℕ) (offset base : ℕ) (fits : offset ≤ length bytes)
    (small : length bytes < 2 ^ 63) where
  abbrev start : Cursor
  start = record { bytes = bytes; pos = offset; avma_base = base }

  start-IsInBounds : IsInBounds start
  start-IsInBounds = record { within = fits; small = small }

  -- The instructions of an FDE that is parsed at an offset inside fewer than 2 ^ 63 bytes lie at
  -- or behind the offset and inside the bytes.
  pub parse_fde_range :
      (fde : ParsedFde)
      → parse_fde bytes offset base config ≡ ok fde
      → (offset ≤ fde.fde_instr_offset_in_eh_frame)
        × (fde.fde_instr_offset_in_eh_frame + fde.fde_instr_len ≤ length bytes)
  unfolding parse_fde fde_parser
  parse_fde_range fde h =
      let (p, e1, e2) = and_then-eq-ok (fde_parser config start) _ h in
      let ((f, d), e3, e4) = and_then-eq-ok (fde_fields config start) _ e1 in
      let ((r, d'), e5, e6) = and_then-eq-ok (instr_range f.entry_end d) _ e4 in
      let goes =
        IsSeeker-goes (fde_fields config) (fde_fields-IsSeeker config) start start-IsInBounds f d
          e3 in
      let (at, end, fits_end) = instr_range-ok f.entry_end d d' r e5 in
      subst
        (λ (x : ParsedFde).
          (offset ≤ x.fde_instr_offset_in_eh_frame)
          × (x.fde_instr_offset_in_eh_frame + x.fde_instr_len ≤ length bytes))
        (same f r fde (cc (e6, e2))) (omega arith, omega (arith, ap (length {A = ℕ}) goes.0))
    where
      same :
          (f : FdeFields) (r : InstrRange) (fde : ParsedFde) → fde_of f r ≡ fde → fde_of f r ≡ fde
      same f r fde e = e

  -- With a sized augmentation `parse_fde` never panics, for any fewer than 2 ^ 63 bytes, any
  -- offset inside them and any encodings.
  pub parse_fde-ne-panic : config.has_z ≡ true → parse_fde bytes offset base config ≢ panic
  unfolding parse_fde fde_parser
  parse_fde-ne-panic z h = elim (and_then-eq-panic (fde_parser config start) _ h) [
    | inr (p, e, e') ↦ cc e'
    | inl e ↦ elim (and_then-eq-panic (fde_fields config start) _ e) [
      | inl e' ↦ absurd (
          IsSeeker-ne-panic (fde_fields config) (fde_fields-IsSeeker config) start start-IsInBounds
            e')
      | inr ((f, d), e1, e2) ↦ elim (and_then-eq-panic (instr_range f.entry_end d) _ e2) [
        | inr (q, e3, e4) ↦ cc e4
        | inl e3 ↦ absurd (
            omega (
              arith,
              fde_fields-le config start d f z e1,
              ((instr_range-panic f.entry_end d).0 e3).1,
            ))
      ]
    ]
  ]
