-- ===== src/Tests/Functions.antt =====
-- A module of one function, and the lookups of its unwind information.
use libunwinder.Prelude.{ℕ, ◌≡◌, refl, ap, arith, List, [], ◌∷◌, false, none, some, ok}
use libunwinder.Prelude.BTreeMap.{get, last_le}
use libunwinder.Dwarf.Cursor.{current_avma, read_u8, read_slice, read_u32}
use libunwinder.Dwarf.Leb128.{read_uleb128, read_sleb128, uleb128_loop, sleb128_loop}
use libunwinder.Dwarf.Encoded.{read_raw, apply_base, read_encoded_impl, read_encoded}
use libunwinder.Dwarf.Entry.{read_extent, read_id, instr_range}
use libunwinder.Dwarf.Cie.{
  parse_cie, cie_parser, cie_fields, read_augmentation, read_augmentation_data, augmentation_loop,
}
use libunwinder.Dwarf.Fde.{parse_fde, fde_parser, fde_fields, read_lsda}
use libunwinder.CieInfo.{build_dwarf_cie_info}
use libunwinder.EhFrameTable.{lookup, search_loop, pick}
use libunwinder.Module.{ModuleData, FunctionDetails}
use libunwinder.ModuleSet.{CacheStore}
use libunwinder.Callbacks.{
  parse_function_details, parse_entries, find_fde, find_cie, cie_behind, covered,
  get_or_parse_function_details, cached, keep, Lookup,
}
use libunwinder.Callbacks.Details.{IsInside, parse_function_details-IsInside}
use libunwinder.Callbacks.Cache.{IsCacheOf, outcome}
use libunwinder.Tests.Entries.{frame_bytes}

abbrev pub hdr : List ℕ
hdr =
    1 ∷ 3 ∷ 3 ∷ 0x3b ∷ 0 ∷ 0x30 ∷ 0 ∷ 0 ∷ 1 ∷ 0 ∷ 0 ∷ 0 ∷ 0x00 ∷ 0xd0 ∷ 0xff ∷ 0xff ∷ 0x14 ∷ 0xf0
    ∷ 0xff ∷ 0xff ∷ []

abbrev pub one_fde : ModuleData
one_fde = record {
  name = "one-fde";
  avma_range = record { start = 0x1000; end = 0x2000 };
  base_avma = 0;
  local_sections =
      record { avma_start = 0x4000; avma_end = 0x4014; local_bytes = hdr }
      ∷ record { avma_start = 0x3000; avma_end = 0x3028; local_bytes = frame_bytes }
      ∷ [];
  table = record { table_data_offset = 12; entry_count = 1; eh_frame_hdr_avma = 0x4000 };
  eh_frame_hdr_local = some hdr;
  eh_frame_local = some frame_bytes;
  eh_frame_avma = 0x3000;
  eh_frame_hdr_error = none;
  cache_id = 0;
  text_base = 0x1000;
  data_base = 0x4000;
}

abbrev pub details : FunctionDetails
details = record {
  start_ip = 0x1000;
  end_ip = 0x1010;
  cie_info = record {
    cie_instr_start = 0x3011;
    cie_instr_end = 0x3014;
    fde_instr_start = 0x3025;
    fde_instr_end = 0x3028;
    code_align = 1;
    data_align = 0xffff_ffff_ffff_fff8;
    ret_addr_column = 16;
    handler = 0;
    abi = 0;
    tag = 0;
    fde_encoding = 0x1b;
    lsda_encoding = 0xff;
    flags = 1;
  };
  lsda = 0;
  handler = 0;
  signal_frame = false;
}

pub run : parse_function_details one_fde 0x1008 ≡ ok details
unfolding parse_function_details parse_entries find_fde find_cie cie_behind covered lookup
    search_loop pick build_dwarf_cie_info parse_cie cie_parser cie_fields read_augmentation
    read_augmentation_data augmentation_loop parse_fde fde_parser fde_fields read_lsda read_encoded
    read_encoded_impl read_raw apply_base read_extent read_id instr_range read_u8 read_slice
    read_u32 read_uleb128 read_sleb128 uleb128_loop sleb128_loop current_avma
run = refl

parse_function_details-IsInside_example : IsInside 0x3000 40 details.cie_info
parse_function_details-IsInside_example =
    parse_function_details-IsInside one_fde 0x1008 details frame_bytes run refl (omega arith)
      (omega arith)

abbrev pub empty_caches : CacheStore
empty_caches id = record { poisoned = false; functions = [] }

pub empty-IsCacheOf : IsCacheOf one_fde (empty_caches 0)
unfolding get
empty-IsCacheOf = record { ascending = tt; keyed = λ k d h. cc h; parsed = λ k d h. cc h }

first : outcome empty_caches one_fde 0x1008 ≡ ok details
unfolding get_or_parse_function_details cached last_le
first = ap (λ (r : Lookup FunctionDetails). (keep empty_caches 0 r).0) run
