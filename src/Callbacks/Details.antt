-- ===== src/Callbacks/Details.antt =====
-- What the unwind information of a function says, when the parse of it succeeds.
use mathlib.Core.Path.{subst}
use mathlib.Core.Option.{some-injective}
use libunwinder.Prelude.{
  map_err-eq-ok, ◌∙◌, ℕ, ◌+◌, ◌≤◌, ◌<◌, ◌^◌, ◌≡◌, inl, inr, sym, arith, List, some, ok, map_err,
  Option-cases, length, and_then-eq-ok,
}
use libunwinder.Dwarf.Cie.{ParsedCie, parse_cie}
use libunwinder.Dwarf.Cie.Bounds.{parse_cie_range}
use libunwinder.Dwarf.Fde.{ParsedFde, parse_fde}
use libunwinder.Dwarf.Fde.Bounds.{parse_fde_range}
use libunwinder.CieInfo.{DwarfCieInfo, build_dwarf_cie_info}
use libunwinder.Module.{ModuleData, FunctionDetails}
use libunwinder.Error.{cie_parse, fde_parse}
use libunwinder.Callbacks.{
  cie_behind, find_cie, find_fde, config_of, covered, parse_entries, parse_function_details,
  details_of,
}

-- The details cover the address.
abbrev pub Covers : FunctionDetails → ℕ → Type 0
Covers d ip = (d.start_ip ≤ ip) × (ip < d.end_ip)

-- The instructions lie in the section that starts at `base` and has `len` bytes.
pub record IsInside (base len : ℕ) (info : DwarfCieInfo) : Type 0 where
  pub cie_from : base ≤ info.cie_instr_start
  pub cie_order : info.cie_instr_start ≤ info.cie_instr_end
  pub cie_to : info.cie_instr_end ≤ base + len
  pub fde_from : base ≤ info.fde_instr_start
  pub fde_order : info.fde_instr_start ≤ info.fde_instr_end
  pub fde_to : info.fde_instr_end ≤ base + len

build_dwarf_cie_info-IsInside :
    (cie : ParsedCie) (fde : ParsedFde) (base len : ℕ)
    → base + len < 2 ^ 64
    → cie.cie_instr_offset_in_eh_frame + cie.cie_instr_len ≤ len
    → fde.fde_instr_offset_in_eh_frame + fde.fde_instr_len ≤ len
    → IsInside base len (build_dwarf_cie_info cie fde base)
unfolding build_dwarf_cie_info
build_dwarf_cie_info-IsInside cie fde base len small c f = record {
  cie_from = omega arith;
  cie_order = omega arith;
  cie_to = omega arith;
  fde_from = omega arith;
  fde_order = omega arith;
  fde_to = omega arith;
}

covered-ok :
    (m : ModuleData) (ip : ℕ) (cie : ParsedCie) (fde : ParsedFde) (d : FunctionDetails)
    → covered m ip cie fde ≡ ok d
    → (end_ip : ℕ) × (details_of m cie fde end_ip ≡ d) × Covers d ip
unfolding covered
covered-ok m ip cie fde d h =
    (fde.initial_pc + fde.address_range, ground arith, (ground arith, ground arith))

cie_behind-le :
    (name : _) (bytes : List ℕ) (pos len at : ℕ)
    → cie_behind name bytes pos len ≡ ok at
    → at ≤ length bytes
unfolding cie_behind
cie_behind-le name bytes pos len at h = ground arith

find_cie-le :
    (name : _) (bytes : List ℕ) (fde_offset at : ℕ)
    → find_cie name bytes fde_offset ≡ ok at
    → at ≤ length bytes
unfolding find_cie
find_cie-le name bytes fde_offset at h = ground (
  arith,
  cie_behind-le name bytes (fde_offset + 12) 8 at,
  cie_behind-le name bytes (fde_offset + 4) 4 at,
)

find_fde-lt :
    (m : ModuleData) (hdr bytes : List ℕ) (ip at : ℕ)
    → find_fde m hdr bytes ip ≡ ok at
    → at < length bytes
unfolding find_fde
find_fde-lt m hdr bytes ip at h = ground arith

-- What a successful parse went through.
record IsParsed (m : ModuleData) (bytes : List ℕ) (ip : ℕ) (d : FunctionDetails) : Type 0 where
  cie : ParsedCie
  fde : ParsedFde
  cie_offset : ℕ
  fde_offset : ℕ
  end_ip : ℕ
  cie_fits : cie_offset ≤ length bytes
  fde_fits : fde_offset ≤ length bytes
  cie_parsed : parse_cie bytes cie_offset m.eh_frame_avma ≡ ok cie
  fde_parsed : parse_fde bytes fde_offset m.eh_frame_avma (config_of m cie) ≡ ok fde
  same : details_of m cie fde end_ip ≡ d
  covers : Covers d ip

parse_entries-IsParsed :
    (m : ModuleData) (hdr bytes : List ℕ) (ip : ℕ) (d : FunctionDetails)
    → parse_entries m hdr bytes ip ≡ ok d
    → IsParsed m bytes ip d
unfolding parse_entries
parse_entries-IsParsed m hdr bytes ip d h =
    let (at, e1, f1) = and_then-eq-ok (find_fde m hdr bytes ip) _ h in
    let (cie_at, e2, f2) = and_then-eq-ok (find_cie m.name bytes at) _ f1 in
    let (cie, e3, f3) =
      and_then-eq-ok (map_err (cie_parse m.name cie_at) (parse_cie bytes cie_at m.eh_frame_avma)) _
        f2 in
    let (fde, e4, f4) =
      and_then-eq-ok
        (map_err (fde_parse m.name at) (parse_fde bytes at m.eh_frame_avma (config_of m cie))) _
        f3 in
    let (end_ip, same, covers) = covered-ok m ip cie fde d f4 in
    record {
      cie = cie;
      fde = fde;
      cie_offset = cie_at;
      fde_offset = at;
      end_ip = end_ip;
      cie_fits = find_cie-le m.name bytes at cie_at e2;
      fde_fits = omega (arith, find_fde-lt m hdr bytes ip at e1);
      cie_parsed = map_err-eq-ok _ _ _ e3;
      fde_parsed = map_err-eq-ok _ _ _ e4;
      same = same;
      covers = covers;
    }

-- What a parse that succeeds had: both sections.
parse_function_details-parts :
    (m : ModuleData) (ip : ℕ) (d : FunctionDetails)
    → parse_function_details m ip ≡ ok d
    → (bytes : List ℕ) × (m.eh_frame_local ≡ some bytes) × IsParsed m bytes ip d
unfolding parse_function_details
parse_function_details-parts m ip d h = elim (Option-cases m.eh_frame_local) [
  | inl e ↦ cc (rw (e, parse_function_details) at h)
  | inr (bytes, e) ↦ elim (Option-cases m.eh_frame_hdr_local) [
    | inl e' ↦ cc (rw (e, e', parse_function_details) at h)
    | inr (hdr, e') ↦ (
      bytes,
      e,
      parse_entries-IsParsed m hdr bytes ip d (rw (e, e', parse_function_details) at h),
    )
  ]
]

-- The details that are parsed for an address cover it.
pub parse_function_details-Covers :
    (m : ModuleData) (ip : ℕ) (d : FunctionDetails)
    → parse_function_details m ip ≡ ok d
    → Covers d ip
parse_function_details-Covers m ip d h = (parse_function_details-parts m ip d h).2.covers

-- If the parse for an address succeeds, the CIE and FDE instructions that libunwind is pointed to
-- lie inside the module's `.eh_frame`, provided that the section has fewer than 2 ^ 63 bytes and
-- does not wrap around the address space.
pub parse_function_details-IsInside :
    (m : ModuleData) (ip : ℕ) (d : FunctionDetails) (bytes : List ℕ)
    → parse_function_details m ip ≡ ok d
    → m.eh_frame_local ≡ some bytes
    → length bytes < 2 ^ 63
    → m.eh_frame_avma + length bytes < 2 ^ 64
    → IsInside m.eh_frame_avma (length bytes) d.cie_info
parse_function_details-IsInside m ip d bytes h e small fits = inside
  where
    parts : (bs : List ℕ) × (m.eh_frame_local ≡ some bs) × IsParsed m bs ip d
    parts = parse_function_details-parts m ip d h

    p : IsParsed m bytes ip d
    p = subst (λ (bs : List ℕ). IsParsed m bs ip d) (some-injective _ _ (sym parts.1 ∙ e)) parts.2

    inside : IsInside m.eh_frame_avma (length bytes) d.cie_info
    inside =
        subst (λ (x : FunctionDetails). IsInside m.eh_frame_avma (length bytes) x.cie_info) p.same
          (build_dwarf_cie_info-IsInside p.cie p.fde m.eh_frame_avma (length bytes) fits
            (parse_cie_range bytes p.cie_offset m.eh_frame_avma p.cie_fits small p.cie
              p.cie_parsed).1
            (parse_fde_range (config_of m p.cie) bytes p.fde_offset m.eh_frame_avma p.fde_fits small
              p.fde p.fde_parsed).1)
