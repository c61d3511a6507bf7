-- ===== src/Tests/Table.antt =====
-- A `.eh_frame_hdr` of two entries, as a linker writes it, and searches in it.
use libunwinder.Prelude.{
  ℕ, zero, suc, ◌≤◌, ◌<◌, ◌≡◌, inl, refl, arith, List, [], ◌∷◌, none, some, ok, err,
}
use libunwinder.Error.{fde_count_truncated}
use libunwinder.EhFrameTable.{EhFrameTable, enc_size, parse, lookup, search_loop, pick}
use libunwinder.EhFrameTable.Search.{pc_at, fde_at, IsSorted, Fits, lookup-nearest}
use libunwinder.EhFrameTable.Header.{
  parse-Fits, parse_count_unread, header_bytes, parse-header_bytes,
}

-- The functions at 0x1000 and 0x1800, with their FDEs at 0x3014 and 0x3028.
abbrev table : List ℕ
table =
    0x00 ∷ 0xd0 ∷ 0xff ∷ 0xff ∷ 0x14 ∷ 0xf0 ∷ 0xff ∷ 0xff ∷ 0x00 ∷ 0xd8 ∷ 0xff ∷ 0xff ∷ 0x28 ∷ 0xf0
    ∷ 0xff ∷ 0xff ∷ []

abbrev hdr : List ℕ
hdr = header_bytes 0x03 0x3000 2 table

abbrev parsed : EhFrameTable
parsed = record { table_data_offset = 12; entry_count = 2; eh_frame_hdr_avma = 0x4000 }

parse-header_bytes_example : parse (header_bytes 0x03 0x3000 2 table) 0x4000 ≡ ok parsed
parse-header_bytes_example =
    parse-header_bytes 0x4000 0x03 0x3000 2 table (unfold enc_size in refl) (omega arith)
      (omega arith)

parse-Fits_example : Fits parsed hdr × (◌≡◌ {A = ℕ} 0x4000 0x4000) × (4 ≤ 12)
parse-Fits_example = parse-Fits hdr 0x4000 parsed (omega arith) parse-header_bytes_example

sorted : IsSorted parsed hdr
unfolding pc_at
sorted zero zero h k = omega arith
sorted zero (suc zero) h k = omega arith
sorted (suc zero) (suc zero) h k = omega arith
sorted (suc i) zero h k = absurd (omega arith)
sorted i (suc (suc j)) h k = absurd (omega arith)
sorted (suc (suc i)) (suc zero) h k = absurd (omega arith)

entry : lookup parsed hdr 0x17ff ≡ some (0x1000, 0x3014)
unfolding lookup search_loop pick
entry = refl

lookup-nearest_example : lookup parsed hdr 0x17ff ≡ some (pc_at parsed hdr 0, fde_at parsed hdr 0)
unfolding pc_at
lookup-nearest_example =
    lookup-nearest parsed hdr 0x17ff 0 (omega arith) sorted (omega arith) (omega arith) later
  where
    later : (j : ℕ) → 0 < j → j < 2 → 0x17ff < pc_at parsed hdr j
    later zero h k = absurd (omega arith)
    later (suc zero) h k = omega arith
    later (suc (suc j)) h k = absurd (omega arith)

miss : lookup parsed hdr 0xfff ≡ none
unfolding lookup search_loop pick
miss = refl

-- A count of two bytes, and the bytes.
abbrev short_count : List ℕ
short_count = 1 ∷ 0x03 ∷ 0x02 ∷ 0x3b ∷ 0 ∷ 0 ∷ 0 ∷ 0 ∷ 0 ∷ 0 ∷ []

parse_count_unread_example : parse short_count 0x4000 ≡ err (fde_count_truncated 8 2 10)
parse_count_unread_example =
    parse_count_unread short_count 0x4000 4 2 (omega arith) refl (unfold enc_size in refl)
      (omega arith) (omega arith) (unfold enc_size in refl) (inl refl)
