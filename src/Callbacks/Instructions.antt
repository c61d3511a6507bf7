-- ===== src/Callbacks/Instructions.antt =====
-- What libunwind reads where `find_proc_info` of src/callbacks.rs points it to.
use libunwinder.Prelude.{
  ℕ, ◌+◌, ◌-◌, ◌≤◌, ◌<◌, ◌^◌, ◌≡◌, ◌⊎◌, inl, inr, ◌∙◌, arith, List, some, ok, length, take, drop,
  from_le_bytes, length-drop,
}
use libunwinder.Prelude.Int.{pos}
use libunwinder.Module.{ModuleData, FunctionDetails, LocalSection}
use libunwinder.ModuleSet.{lookup_local}
use libunwinder.ModuleSet.Redirects.{IsMirrored}
use libunwinder.ModuleSet.Mirrors.{IsClear, lookup_local_complete}
use libunwinder.UnwindCtx.{UnwindCtx}
use libunwinder.Callbacks.{parse_function_details}
use libunwinder.Callbacks.Details.{IsInside, parse_function_details-IsInside}
use libunwinder.Callbacks.Accessors.{unw_esuccess, access_mem, word_at, word_of, local_word}

-- The mirror of a module's `.eh_frame`.
abbrev pub frame_section : ModuleData → List ℕ → LocalSection
frame_section m bytes = record {
  avma_start = m.eh_frame_avma;
  avma_end = m.eh_frame_avma + length bytes;
  local_bytes = bytes;
}

-- The instructions of the CIE or of the FDE.
abbrev pub IsInstruction : FunctionDetails → ℕ → Type 0
IsInstruction d addr =
    ((d.cie_info.cie_instr_start ≤ addr) × (addr < d.cie_info.cie_instr_end))
    ⊎ ((d.cie_info.fde_instr_start ≤ addr) × (addr < d.cie_info.fde_instr_end))

module _ {Regs : Type 0} (ctx : UnwindCtx Regs) where
  access_mem-local :
      (addr val : ℕ) (bytes : List ℕ)
      → lookup_local ctx.modules addr ≡ some bytes
      → 8 ≤ length bytes
      → access_mem addr val (pos 0) ctx ≡ some ((unw_esuccess, from_le_bytes (take 8 bytes)), ctx)
  unfolding access_mem
  access_mem-local addr val bytes e le =
      (λ i. word_at addr val (e i) ctx) ∙ (λ i. local_word (enough i) ctx)
    where
      enough : word_of bytes ≡ some (from_le_bytes (take 8 bytes))
      enough = ground arith

  -- If the parse for an address succeeds and the module's `.eh_frame` of fewer than 2 ^ 63 bytes
  -- is mirrored, with no other mirror that starts inside it, a word that libunwind reads at an
  -- address of the CIE or FDE instructions is that of the section's bytes, little end first, as
  -- long as its eight bytes lie inside the section; the context stays as it is.
  pub access_mem-instructions :
      (m : ModuleData) (ip : ℕ) (d : FunctionDetails) (bytes : List ℕ) (addr val : ℕ)
      → parse_function_details m ip ≡ ok d
      → m.eh_frame_local ≡ some bytes
      → length bytes < 2 ^ 63
      → IsMirrored ctx.modules.redirects
      → IsClear ctx.modules (frame_section m bytes)
      → IsInstruction d addr
      → addr + 8 ≤ m.eh_frame_avma + length bytes
      → access_mem addr val (pos 0) ctx
        ≡ some ((unw_esuccess, from_le_bytes (take 8 (drop (addr - m.eh_frame_avma) bytes))), ctx)
  access_mem-instructions m ip d bytes addr val parsed has small mirrored clear at fits =
      access_mem-local addr val (drop (addr - m.eh_frame_avma) bytes)
        (lookup_local_complete ctx.modules addr (frame_section m bytes) mirrored clear from fits)
        (omega (arith, from, length-drop (addr - m.eh_frame_avma) bytes))
    where
      inside : IsInside m.eh_frame_avma (length bytes) d.cie_info
      inside = parse_function_details-IsInside m ip d bytes parsed has small clear.small

      from : m.eh_frame_avma ≤ addr
      from = elim at [
        | inl (low, high) ↦ omega (arith, inside.cie_from)
        | inr (low, high) ↦ omega (arith, inside.fde_from)
      ]
