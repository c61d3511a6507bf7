-- ===== src/EhFrameTable.antt =====
-- src/eh_frame_table.rs: the `.eh_frame_hdr` header and the binary search of its table. `parse`
-- ignores all addresses but `eh_frame_hdr_avma`, as its source does, and they are left out.
pub mod Header
pub mod Search
use libunwinder.Prelude.{
  ℕ, zero, suc, ◌+◌, ◌-◌, ◌*◌, ◌/◌, List, Option, none, some, Result, ok, err, bit_and, ltb, leb,
  ◌==◌, ◌||◌, not, if◌then◌else◌, length, take, drop, get_range, get_or, from_le_bytes,
  sign_extend32, wrapping_add, saturating_add, saturating_mul,
}
use libunwinder.Error.{
  EhFrameHdrError, fixed_header_truncated, unsupported_version, unsupported_eh_frame_ptr_encoding,
  eh_frame_ptr_truncated, unsupported_fde_count_encoding, fde_count_truncated,
  unsupported_table_encoding, table_truncated,
}

pub record EhFrameTable : Type 0 where
  pub table_data_offset : ℕ
  pub entry_count : ℕ
  pub eh_frame_hdr_avma : ℕ

abbrev pub empty : ℕ → EhFrameTable
empty avma = record { table_data_offset = 0; entry_count = 0; eh_frame_hdr_avma = avma }

abbrev pub dw_eh_pe_omit : ℕ
dw_eh_pe_omit = 0xff

unfoldable pub enc_size : ℕ → Option ℕ
enc_size enc =
    if enc == dw_eh_pe_omit
    then none
    else if bit_and enc 0x0f == 0x03 || bit_and enc 0x0f == 0x0b
    then some 4
    else if bit_and enc 0x0f == 0x04 || bit_and enc 0x0f == 0x0c
    then some 8
    else if bit_and enc 0x0f == 0x02 || bit_and enc 0x0f == 0x0a
    then some 2
    else none

-- The value and its size. An `i32` is cast to `u64` with its sign.
unfoldable pub read_unsigned : List ℕ → ℕ → Option (ℕ × ℕ)
read_unsigned bytes enc =
    if enc == dw_eh_pe_omit
    then none
    else if bit_and enc 0x0f == 0x03
    then if ltb (length bytes) 4 then none else some (from_le_bytes (take 4 bytes), 4)
    else if bit_and enc 0x0f == 0x0b
    then if ltb (length bytes) 4
      then none
      else some (sign_extend32 (from_le_bytes (take 4 bytes)), 4)
    else if bit_and enc 0x0f == 0x04
    then if ltb (length bytes) 8 then none else some (from_le_bytes (take 8 bytes), 8)
    else none

-- The error of a count that is not read: by the size that its encoding would have.
abbrev pub count_error : ℕ → ℕ → ℕ → EhFrameHdrError
count_error fde_count_enc cursor len = elim (enc_size fde_count_enc) [
  | some size ↦ fde_count_truncated cursor size len
  | none ↦ unsupported_fde_count_encoding fde_count_enc
]

-- From the count on: the table's encoding and its extent.
unfoldable pub parse_table : List ℕ → ℕ → ℕ → ℕ → ℕ → Result EhFrameHdrError EhFrameTable
parse_table hdr avma table_enc cursor fde_count =
    if not (table_enc == 0x3b)
    then err (unsupported_table_encoding table_enc)
    else if ltb (length hdr) (saturating_add cursor (saturating_mul 8 fde_count))
    then err (table_truncated cursor fde_count (length hdr))
    else ok
        (record { table_data_offset = cursor; entry_count = fde_count; eh_frame_hdr_avma = avma })

unfoldable pub parse_count : List ℕ → ℕ → ℕ → ℕ → ℕ → Result EhFrameHdrError EhFrameTable
parse_count hdr avma fde_count_enc table_enc cursor =
    elim (read_unsigned (drop cursor hdr) fde_count_enc) [
      | some (fde_count, size) ↦ parse_table hdr avma table_enc (cursor + size) fde_count
      | none ↦ err (count_error fde_count_enc cursor (length hdr))
    ]

unfoldable pub parse : List ℕ → ℕ → Result EhFrameHdrError EhFrameTable
parse hdr avma =
    if ltb (length hdr) 4
    then err (fixed_header_truncated (length hdr))
    else if not (get_or hdr 0 0 == 1)
    then err (unsupported_version (get_or hdr 0 0))
    else elim (enc_size (get_or hdr 1 0)) [
      | none ↦ err (unsupported_eh_frame_ptr_encoding (get_or hdr 1 0))
      | some size ↦
          if ltb (length hdr) (saturating_add 4 size)
          then err (eh_frame_ptr_truncated 4 size (length hdr))
          else parse_count hdr avma (get_or hdr 2 0) (get_or hdr 3 0) (4 + size)
    ]

-- `segbase.wrapping_add(i32::from_le_bytes(entries[off..off + 4]) as i64 as u64)`
abbrev pub entry_at : ℕ → List ℕ → ℕ → ℕ
entry_at segbase entries off =
    wrapping_add segbase (sign_extend32 (from_le_bytes (take 4 (drop off entries))))

abbrev pub entry_pc : ℕ → List ℕ → ℕ → ℕ
entry_pc segbase entries i = entry_at segbase entries (i * 8)

abbrev pub entry_fde : ℕ → List ℕ → ℕ → ℕ
entry_fde segbase entries i = entry_at segbase entries (i * 8 + 4)

-- `while lo + 1 < hi`: each round narrows the range, so `hi - lo` rounds are enough.
unfoldable pub search_loop : (ℕ → ℕ) → ℕ → ℕ → ℕ → ℕ → ℕ
search_loop pc ip zero lo hi = lo
search_loop pc ip (suc fuel) lo hi =
    let mid = lo + (hi - lo) / 2 in
    let upper = search_loop pc ip fuel mid hi in
    let lower = search_loop pc ip fuel lo mid in
    if ltb (lo + 1) hi then if leb (pc mid) ip then upper else lower else lo

unfoldable pub pick : (ℕ → ℕ) → (ℕ → ℕ) → ℕ → ℕ → Option (ℕ × ℕ)
pick pc fde ip lo = if ltb ip (pc lo) then none else some (pc lo, fde lo)

-- A table that `parse` returned has fewer than 2 ^ 60 entries, so `n * 8` does not overflow.
unfoldable pub lookup : EhFrameTable → List ℕ → ℕ → Option (ℕ × ℕ)
unfolding pick
lookup table hdr ip =
    if table.entry_count == 0
    then none
    else elim (get_range hdr table.table_data_offset
        (table.table_data_offset + table.entry_count * 8)) [
          | none ↦ none
          | some entries ↦
              let pc = entry_pc table.eh_frame_hdr_avma entries in
              pick pc (entry_fde table.eh_frame_hdr_avma entries) ip
                (search_loop pc ip table.entry_count 0 table.entry_count)
        ]
