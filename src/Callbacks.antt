-- ===== src/Callbacks.antt =====
-- src/callbacks.rs: the unwind information of a function, parsed once and kept in its module's
-- cache. The cache's lock is taken twice in the source; here no other call runs in between (Threads
-- has several at once), so the second attempt meets the same cache.
pub mod Details
pub mod Hits
pub mod Cache
pub mod Accessors
pub mod Context
pub mod Replies
pub mod Instructions
pub mod Total
pub mod Threads
use Prim.Native.String.{String}
use mathlib.Core.Option
use libunwinder.Prelude.{
  ℕ, ◌+◌, ◌≤◌, List, Bool, true, false, ◌||◌, Option, none, some, Result, ok, err, panic, and_then,
  ok_or, map_err, ltb, leb, ◌==◌, if◌then◌else◌, length, get_range, from_le_bytes, checked_add,
  checked_sub, try_usize,
}
use libunwinder.Prelude.BTreeMap
use libunwinder.Error.{
  UnwindInfoError, missing_local_unwind_sections, function_cache_poisoned,
  eh_frame_header_lookup_miss, fde_offset_before_eh_frame, fde_offset_out_of_range,
  fde_length_prefix_truncated, cie_pointer_truncated, cie_pointer_underflow, cie_parse, fde_parse,
}
use libunwinder.Dwarf.Cie.{ParsedCie, parse_cie}
use libunwinder.Dwarf.Fde.{ParsedFde, FdeParseConfig, parse_fde}
use libunwinder.CieInfo.{build_dwarf_cie_info}
use libunwinder.EhFrameTable
use libunwinder.Module.{ModuleData, FunctionDetails}
use libunwinder.ModuleSet.{FunctionCache, CacheStore, covering_function}

abbrev pub Lookup : Type 0 → Type 0
Lookup A = Result UnwindInfoError A

-- The CIE pointer at `cie_ptr_pos`, which counts backwards from there.
unfoldable pub cie_behind : String → List ℕ → ℕ → ℕ → Lookup ℕ
cie_behind name bytes cie_ptr_pos cie_ptr_len =
    and_then
      (ok_or (get_range bytes cie_ptr_pos (cie_ptr_pos + cie_ptr_len))
        (cie_pointer_truncated name cie_ptr_pos (length bytes)))
      λ cie_ptr_bytes.
        and_then
          (ok_or (try_usize (from_le_bytes cie_ptr_bytes))
            (cie_pointer_underflow name cie_ptr_pos (from_le_bytes cie_ptr_bytes)))
          λ cie_ptr.
            ok_or (checked_sub cie_ptr_pos cie_ptr) (cie_pointer_underflow name cie_ptr_pos cie_ptr)

unfoldable pub find_cie : String → List ℕ → ℕ → Lookup ℕ
find_cie name bytes fde_offset =
    and_then
      (ok_or (get_range bytes fde_offset (fde_offset + 4))
        (fde_length_prefix_truncated name fde_offset (length bytes)))
      λ len_prefix.
        if from_le_bytes len_prefix == 0xffff_ffff
        then cie_behind name bytes (fde_offset + 12) 8
        else cie_behind name bytes (fde_offset + 4) 4

-- `lookup` and the offset of the FDE that it names in `.eh_frame`.
unfoldable pub find_fde : ModuleData → List ℕ → List ℕ → ℕ → Lookup ℕ
find_fde m hdr bytes ip =
    and_then (ok_or (EhFrameTable.lookup m.table hdr ip) (eh_frame_header_lookup_miss m.name ip))
      λ entry.
        and_then
          (ok_or (checked_sub entry.1 m.eh_frame_avma)
            (fde_offset_before_eh_frame m.name entry.1 m.eh_frame_avma))
          λ fde_offset.
            if leb (length bytes) fde_offset
            then err (fde_offset_out_of_range m.name fde_offset (length bytes))
            else ok fde_offset

abbrev pub config_of : ModuleData → ParsedCie → FdeParseConfig
config_of m cie = record {
  fde_encoding = cie.fde_encoding;
  lsda_encoding = cie.lsda_encoding;
  has_z = cie.has_z;
  text_base = m.text_base;
  data_base = m.data_base;
}

abbrev pub details_of : ModuleData → ParsedCie → ParsedFde → ℕ → FunctionDetails
details_of m cie fde end_ip = record {
  start_ip = fde.initial_pc;
  end_ip = end_ip;
  cie_info = build_dwarf_cie_info cie fde m.eh_frame_avma;
  lsda = fde.lsda;
  handler = cie.personality;
  signal_frame = cie.signal_frame;
}

-- The FDE must cover the address that led to it.
unfoldable pub covered : ModuleData → ℕ → ParsedCie → ParsedFde → Lookup FunctionDetails
covered m ip cie fde =
    and_then
      (ok_or (checked_add fde.initial_pc fde.address_range) (eh_frame_header_lookup_miss m.name ip))
      λ end_ip.
        if ltb ip fde.initial_pc || leb end_ip ip
        then err (eh_frame_header_lookup_miss m.name ip)
        else ok (details_of m cie fde end_ip)

-- The CIE first, since the FDE's encodings stand in it.
unfoldable pub parse_entries : ModuleData → List ℕ → List ℕ → ℕ → Lookup FunctionDetails
parse_entries m hdr bytes ip = and_then (find_fde m hdr bytes ip) λ fde_offset.
    and_then (find_cie m.name bytes fde_offset) λ cie_offset.
      and_then (map_err (cie_parse m.name cie_offset) (parse_cie bytes cie_offset m.eh_frame_avma))
        λ cie.
          and_then
            (map_err (fde_parse m.name fde_offset)
              (parse_fde bytes fde_offset m.eh_frame_avma (config_of m cie)))
            λ fde. covered m ip cie fde

unfoldable pub parse_function_details : ModuleData → ℕ → Lookup FunctionDetails
parse_function_details m ip = elim m.eh_frame_local [
  | none ↦ err (missing_local_unwind_sections m.name ip)
  | some bytes ↦ elim m.eh_frame_hdr_local [
    | none ↦ err (missing_local_unwind_sections m.name ip)
    | some hdr ↦ parse_entries m hdr bytes ip
  ]
]

-- `cache.range(..=ip).next_back()`, if that function covers `ip`.
unfoldable pub cached : FunctionCache → ℕ → Option FunctionDetails
cached cache ip = elim (BTreeMap.last_le ip cache.functions) [
  | none ↦ none
  | some (_, details) ↦ if covering_function ip details then some details else none
]

abbrev pub remember : FunctionDetails → FunctionCache → FunctionCache
remember details cache = record cache {
  functions = BTreeMap.insert details.start_ip details cache.functions;
}

abbrev pub update : ℕ → FunctionCache → CacheStore → CacheStore
update id cache store i = if i == id then cache else store i

-- What a parse behind a cache miss leaves: only its success is kept.
abbrev pub keep : CacheStore → ℕ → Lookup FunctionDetails → Lookup FunctionDetails × CacheStore
keep store id (ok details) = (ok details, update id (remember details (store id)) store)
keep store id (err e) = (err e, store)
keep store id panic = (panic, store)

-- By whether the lock is poisoned, what the cache has, and what a parse would give.
abbrev pub answer :
    CacheStore
    → ModuleData
    → Bool
    → Option FunctionDetails
    → Lookup FunctionDetails
    → Lookup FunctionDetails × CacheStore
answer store m true hit parsed = (err (function_cache_poisoned m.name), store)
answer store m false (some details) parsed = (ok details, store)
answer store m false none parsed = keep store m.cache_id parsed

unfoldable pub get_or_parse_function_details :
    CacheStore → ModuleData → ℕ → Lookup FunctionDetails × CacheStore
get_or_parse_function_details store m ip =
    answer store m (store m.cache_id).poisoned (cached (store m.cache_id) ip)
      (parse_function_details m ip)
