-- ===== src/Tests/Entries.antt =====
-- One module's `.eh_frame`: a CIE with augmentation "zR" and an FDE that names it.
use libunwinder.Prelude.{
  ℕ, ◌-◌, ◌≤◌, ◌<◌, ◌^◌, ◌≡◌, ◌≢◌, ◌↔◌, refl, arith, List, [], ◌∷◌, true, false, ok, panic,
}
use libunwinder.Dwarf.Cursor.{
  Cursor, current_avma, read_u8, read_slice, read_u16, read_u32, read_u64,
}
use libunwinder.Dwarf.Leb128.{read_uleb128, read_sleb128, uleb128_loop, sleb128_loop}
use libunwinder.Dwarf.Encoded.{read_raw, apply_base, read_encoded_impl, read_encoded}
use libunwinder.Dwarf.Entry.{read_extent, read_id, instr_range}
use libunwinder.Dwarf.Cie.{
  ParsedCie, parse_cie, cie_parser, cie_fields, read_augmentation, read_augmentation_data,
  augmentation_loop, check_address_size, CieFields,
}
use libunwinder.Dwarf.Fde.{ParsedFde, FdeParseConfig, parse_fde, fde_parser, fde_fields, read_lsda}
use libunwinder.Dwarf.Entry.Bounds.{instr_range-panic}
use libunwinder.Dwarf.Cie.Bounds.{parse_cie-panic}
use libunwinder.Dwarf.Fde.Bounds.{parse_fde-ne-panic}
use libunwinder.Dwarf.Encoded.Total.{read_encoded-IsConsumer}
use libunwinder.Dwarf.Cursor.Consumes.{IsConsumer}

abbrev pub frame_bytes : List ℕ
frame_bytes =
    16 ∷ 0 ∷ 0 ∷ 0 ∷ 0 ∷ 0 ∷ 0 ∷ 0 ∷ 1 ∷ b'z' ∷ b'R' ∷ 0 ∷ 1 ∷ 0x78 ∷ 16 ∷ 1 ∷ 0x1b ∷ 0x0c ∷ 7 ∷ 8
    ∷ 16 ∷ 0 ∷ 0 ∷ 0 ∷ 24 ∷ 0 ∷ 0 ∷ 0 ∷ 0xe4 ∷ 0xdf ∷ 0xff ∷ 0xff ∷ 16 ∷ 0 ∷ 0 ∷ 0 ∷ 0 ∷ 0x41 ∷ 0x0e
    ∷ 16 ∷ []

abbrev pub cie : ParsedCie
cie = record {
  code_align = 1;
  data_align = 2 ^ 64 - 8;
  ret_addr_column = 16;
  fde_encoding = 0x1b;
  lsda_encoding = 0xff;
  personality = 0;
  has_z = true;
  signal_frame = false;
  cie_instr_offset_in_eh_frame = 17;
  cie_instr_len = 3;
}

pub parse_cie_run : parse_cie frame_bytes 0 0x3000 ≡ ok cie
unfolding parse_cie cie_parser cie_fields read_augmentation read_augmentation_data augmentation_loop
    check_address_size read_extent read_id instr_range read_u8 read_slice read_u16 read_u32 read_u64
    read_uleb128 read_sleb128 uleb128_loop sleb128_loop current_avma
parse_cie_run = refl

-- A CIE whose length is 5 and whose fields end at 13.
abbrev short_bytes : List ℕ
short_bytes = 5 ∷ 0 ∷ 0 ∷ 0 ∷ 0 ∷ 0 ∷ 0 ∷ 0 ∷ 1 ∷ 0 ∷ 1 ∷ 0x78 ∷ 16 ∷ []

abbrev short_start : Cursor
short_start = record { bytes = short_bytes; pos = 0; avma_base = 0x3000 }

short_run : parse_cie short_bytes 0 0x3000 ≡ panic
unfolding parse_cie cie_parser cie_fields read_augmentation read_augmentation_data read_extent
    read_id instr_range read_u8 read_slice read_u32 read_uleb128 read_sleb128 uleb128_loop
    sleb128_loop
short_run = refl

parse_cie-panic_example :
    (f : CieFields) × (d : Cursor) × (cie_fields short_start ≡ ok (f, d)) × (f.entry_end < d.pos)
parse_cie-panic_example = parse_cie-panic short_bytes 0 0x3000 (omega arith) (omega arith) short_run

instr_range-panic_example :
    (instr_range 9 (record short_start { pos = 13 }) ≡ panic) ↔ ((9 ≤ 13) × (9 < 13))
instr_range-panic_example = instr_range-panic 9 (record short_start { pos = 13 })

abbrev config : FdeParseConfig
config = record {
  fde_encoding = 0x1b;
  lsda_encoding = 0xff;
  has_z = true;
  text_base = 0x1000;
  data_base = 0x4000;
}

abbrev pub fde : ParsedFde
fde = record {
  initial_pc = 0x1000;
  address_range = 16;
  fde_instr_offset_in_eh_frame = 37;
  fde_instr_len = 3;
  lsda = 0;
}

parse_fde_run : parse_fde frame_bytes 20 0x3000 config ≡ ok fde
unfolding parse_fde fde_parser fde_fields read_lsda read_encoded read_encoded_impl read_raw
    apply_base read_extent read_id instr_range read_u8 read_slice read_u32 read_uleb128 uleb128_loop
    current_avma
parse_fde_run = refl

parse_fde-ne-panic_example : parse_fde frame_bytes 20 0x3000 config ≢ panic
parse_fde-ne-panic_example =
    parse_fde-ne-panic config frame_bytes 20 0x3000 (omega arith) (omega arith) refl

read_encoded-IsConsumer_example : IsConsumer (read_encoded 0x1b 0x1000 0x4000 0)
read_encoded-IsConsumer_example = read_encoded-IsConsumer 0x1b 0x1000 0x4000 0
