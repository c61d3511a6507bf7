-- ===== src/Tests/Returns.antt =====
-- That the small library returns known statuses, and steps over the module of one function.
use libunwinder.Prelude.{ℕ, ◌≢◌, arith, none, panic, if◌then◌else◌}
use libunwinder.Prelude.Int.{ℤ, pos, negsuc, is_neg}
use libunwinder.Prelude.BTreeMap.{get}
use libunwinder.Libunwind.{returns, access_reg, access_mem}
use libunwinder.Libunwind.Total.{HasStatuses, IsStatus, AllReturns}
use libunwinder.Tests.Library.{popping, return_by}
use libunwinder.FrameAddress.{return_address}
use libunwinder.ModuleSet.{ModuleSet}
use libunwinder.Callbacks.Total.{IsServable}
use libunwinder.Arch.{x86_64, unwinder, unwind_frame-ne-panic}
use libunwinder.Tests.Modules.{one}
use libunwinder.Tests.Sections.{mirrors, mirrors-IsMirrored}
use libunwinder.Tests.Steps.{regs, known, made}
use libunwinder.Benchmark.Stack.{HasNoSignals}
use libunwinder.Tests.Functions.{one_fde}
use libunwinder.Dwarf.Cursor.{current_avma, read_u8, read_slice, read_u32}
use libunwinder.Dwarf.Leb128.{read_uleb128, read_sleb128, uleb128_loop, sleb128_loop}
use libunwinder.Dwarf.Encoded.{read_raw, apply_base, read_encoded_impl, read_encoded}
use libunwinder.Dwarf.Entry.{read_extent, read_id, instr_range}
use libunwinder.Dwarf.Cie.{
  parse_cie, cie_parser, cie_fields, read_augmentation, read_augmentation_data, augmentation_loop,
}
use libunwinder.Dwarf.Fde.{parse_fde, fde_parser, fde_fields, read_lsda}
use libunwinder.CieInfo.{build_dwarf_cie_info}
use libunwinder.EhFrameTable.{lookup, search_loop, pick}
use libunwinder.Callbacks.{
  parse_entries, find_fde, find_cie, cie_behind, covered, parse_function_details,
}

abbrev Known : ℤ × Unit {0} → Type 0
Known r = IsStatus r.0

return_by-AllReturns : (sp : ℕ) (word : ℤ × ℕ) → AllReturns Known (return_by (pos 16) sp word)
unfolding AllReturns
return_by-AllReturns sp (pos n, word) = λ r r' e. cc
return_by-AllReturns sp (negsuc n, word) = λ e. cc

pub popping-HasStatuses : HasStatuses (popping (pos 16))
unfolding AllReturns
popping-HasStatuses = record {
  init_remote = λ c e. cc;
  step = λ c found. by_found c found.0;
  get_reg = λ c reg val got. by_got got.0 got.1;
}
  where
    by_found :
        (c : Unit {0}) (status : ℤ)
        → AllReturns Known (
            if is_neg status
            then returns (negsuc 9, c)
            else access_reg
                (pos 7)
                0
                (pos 0)
                λ sp. access_mem sp.1 0 (pos 0) (return_by (pos 16) sp.1))
    by_found c (pos n) = λ sp word. return_by-AllReturns sp.1 word
    by_found c (negsuc n) = λ e. cc

    by_got :
        {c : Unit {0}} (status : ℤ) (val : ℕ)
        → AllReturns
            (λ (r : (ℤ × ℕ) × Unit {0}). IsStatus r.0.0)
            (if is_neg status then returns ((negsuc 2, val), c) else returns ((pos 0, val), c))
    by_got (pos n) val = λ e. cc
    by_got (negsuc n) val = λ e. cc

one_fde-parses : (ip : ℕ) → parse_function_details one_fde ip ≢ panic
unfolding parse_function_details parse_entries find_fde find_cie cie_behind covered lookup
    search_loop pick build_dwarf_cie_info parse_cie cie_parser cie_fields read_augmentation
    read_augmentation_data augmentation_loop parse_fde fde_parser fde_fields read_lsda read_encoded
    read_encoded_impl read_raw apply_base read_extent read_id instr_range read_u8 read_slice
    read_u32 read_uleb128 read_sleb128 uleb128_loop sleb128_loop current_avma
one_fde-parses ip h = ground arith

pub one_fde-HasNoSignals : HasNoSignals made
unfolding parse_function_details parse_entries find_fde find_cie cie_behind covered lookup
    search_loop pick build_dwarf_cie_info parse_cie cie_parser cie_fields read_augmentation
    read_augmentation_data augmentation_loop parse_fde fde_parser fde_fields read_lsda read_encoded
    read_encoded_impl read_raw apply_base read_extent read_id instr_range read_u8 read_slice
    read_u32 read_uleb128 read_sleb128 uleb128_loop sleb128_loop current_avma
one_fde-HasNoSignals i ip d h = ground arith

abbrev pub served : ModuleSet
served = record { modules = one.modules; redirects = mirrors.redirects }

pub served-IsServable : IsServable served
unfolding get
served-IsServable = record {
  well_formed = record { ascending = (tt, tt); keyed = λ k m h. ground arith };
  mirrored = mirrors-IsMirrored;
  bounded = λ k sec h. ground arith;
  parses = λ k m ip h. ground (arith, one_fde-parses ip);
}

unwind_frame-ne-panic_example :
    ((unwinder x86_64 (popping (pos 16)) tt served (λ addr. none)).unwind_frame
      (return_address 0x1009)
      (regs, known)).0
    ≢ panic
unwind_frame-ne-panic_example =
    unwind_frame-ne-panic (popping (pos 16)) tt served (λ addr. none) x86_64 (return_address 0x1009)
      (regs, known) popping-HasStatuses served-IsServable
