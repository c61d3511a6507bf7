-- ===== src/EhFrameTable/Header.antt =====
-- `EhFrameTable::parse`.
use libunwinder.Prelude.{
  ℕ, ◌+◌, ◌*◌, ◌≤◌, ◌<◌, ◌^◌, ◌≡◌, ◌⊎◌, ◌∙◌, inl, inr, refl, arith, List, ◌∷◌, ◌++◌, none, some, ok,
  err, bit_and, length, drop, get_or, to_le_bytes, from_le_bytes-to_le_bytes, Option-cases,
}
use libunwinder.Error.{fde_count_truncated}
use libunwinder.EhFrameTable.{
  EhFrameTable, enc_size, read_unsigned, parse, parse_count, parse_table, count_error,
}
use libunwinder.EhFrameTable.Search.{Fits}

module _ (hdr : List ℕ) (avma : ℕ) (t : EhFrameTable) (small : length hdr < 2 ^ 63) where
  parse_table-Fits :
      (enc cursor count : ℕ)
      → parse_table hdr avma enc cursor count ≡ ok t
      → Fits t hdr × (t.eh_frame_hdr_avma ≡ avma) × (t.table_data_offset ≡ cursor)
  unfolding parse_table
  parse_table-Fits enc cursor count h = ground arith

  parse_count-Fits :
      (count_enc enc cursor : ℕ)
      → parse_count hdr avma count_enc enc cursor ≡ ok t
      → Fits t hdr × (t.eh_frame_hdr_avma ≡ avma) × (cursor ≤ t.table_data_offset)
  unfolding parse_count
  parse_count-Fits count_enc enc cursor h =
      elim (Option-cases (read_unsigned (drop cursor hdr) count_enc)) [
        | inl e ↦ cc (rw (e, parse_count) at h)
        | inr ((count, size), e) ↦
            ground (arith, parse_table-Fits enc (cursor + size) count (rw (e, parse_count) at h))
      ]

  -- A parsed table lies inside a header of fewer than 2 ^ 63 bytes, behind the fixed bytes, and
  -- keeps the header's address, whatever count the header claims.
  pub parse-Fits :
      parse hdr avma ≡ ok t → Fits t hdr × (t.eh_frame_hdr_avma ≡ avma) × (4 ≤ t.table_data_offset)
  unfolding parse
  parse-Fits h = elim (Option-cases (enc_size (get_or hdr 1 0))) [
    | inl e ↦ ground arith
    | inr (size, e) ↦ ground (arith, parse_count-Fits (get_or hdr 2 0) (get_or hdr 3 0) (4 + size))
  ]

-- A header of version 1 with a pointer that fits is parsed from the count on.
parse-parse_count :
    (hdr : List ℕ) (avma size : ℕ)
    → 4 ≤ length hdr
    → get_or hdr 0 0 ≡ 1
    → enc_size (get_or hdr 1 0) ≡ some size
    → 4 + size ≤ length hdr
    → length hdr < 2 ^ 63
    → parse hdr avma ≡ parse_count hdr avma (get_or hdr 2 0) (get_or hdr 3 0) (4 + size)
unfolding parse
parse-parse_count hdr avma size n v s fits small = ground arith

-- A count in a two-byte or a signed eight-byte encoding is reported as truncated, however many
-- bytes follow a header of version 1 whose pointer fits.
pub parse_count_unread :
    (hdr : List ℕ) (avma size count_size : ℕ)
    → 4 ≤ length hdr
    → get_or hdr 0 0 ≡ 1
    → enc_size (get_or hdr 1 0) ≡ some size
    → 4 + size ≤ length hdr
    → length hdr < 2 ^ 63
    → enc_size (get_or hdr 2 0) ≡ some count_size
    → ((bit_and (get_or hdr 2 0) 0x0f ≡ 0x02)
        ⊎ (bit_and (get_or hdr 2 0) 0x0f ≡ 0x0a)
        ⊎ (bit_and (get_or hdr 2 0) 0x0f ≡ 0x0c))
    → parse hdr avma ≡ err (fde_count_truncated (4 + size) count_size (length hdr))
unfolding parse_count
parse_count_unread hdr avma size count_size n v s fits small c enc =
    parse-parse_count hdr avma size n v s fits small
    ∙ rw (unread, parse_count) (rw (c, count_error))
  where
    unread : read_unsigned (drop (4 + size) hdr) (get_or hdr 2 0) ≡ none
    unread = unfold read_unsigned in ground (arith, enc)

-- A header with a four-byte pointer, a four-byte count and a table of that many entries.
abbrev pub header_bytes : ℕ → ℕ → ℕ → List ℕ → List ℕ
header_bytes ptr_enc ptr count table =
    1 ∷ ptr_enc ∷ 0x03 ∷ 0x3b ∷ (to_le_bytes 4 ptr ++ (to_le_bytes 4 count ++ table))

-- `parse` reads back a header with a pointer of four bytes, a count of four bytes and that many
-- entries.
pub parse-header_bytes :
    (avma ptr_enc ptr count : ℕ) (table : List ℕ)
    → enc_size ptr_enc ≡ some 4
    → count < 2 ^ 32
    → length table ≡ 8 * count
    → parse (header_bytes ptr_enc ptr count table) avma
      ≡ ok (record { table_data_offset = 12; entry_count = count; eh_frame_hdr_avma = avma })
unfolding parse_count parse_table
parse-header_bytes avma ptr_enc ptr count table s c t =
    parse-parse_count (header_bytes ptr_enc ptr count table) avma 4 (omega arith) refl s
      (omega arith) (omega arith)
    ∙ rw (read, parse_count) (ground arith)
  where
    read : read_unsigned (to_le_bytes 4 count ++ table) 0x03 ≡ some (count, 4)
    read = unfold read_unsigned in ground (arith, from_le_bytes-to_le_bytes 4 count c)
