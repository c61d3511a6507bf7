-- ===== src/Tests/Sections.antt =====
-- The module of one function, built from its sections, and reads of its mirrors.
use libunwinder.Prelude.{ℕ, ◌<◌, ◌^◌, ◌≡◌, refl, arith, List, [], ◌∷◌, none, some, ok, length}
use libunwinder.Prelude.BTreeMap.{get}
use libunwinder.EhFrameTable.{parse, parse_count, parse_table, enc_size, read_unsigned}
use libunwinder.Module.{ModuleParts, Range, from_parts, validate_module_parts}
use libunwinder.Module.Sections.{DwarfModuleSections, parts_of}
use libunwinder.Module.Build.{IsComplete, from_parts-IsComplete}
use libunwinder.ModuleSet.{ModuleSet}
use libunwinder.ModuleSet.Redirects.{IsMirrored}
use libunwinder.Tests.Functions.{hdr}
use libunwinder.Tests.Entries.{frame_bytes}

abbrev sections : DwarfModuleSections
sections = record {
  base_svma = 0;
  text_svma = some (record { start = 0x1000; end = 0x2000 });
  text = none;
  eh_frame_svma = some (record { start = 0x3000; end = 0x3028 });
  eh_frame = some frame_bytes;
  eh_frame_hdr_svma = some (record { start = 0x4000; end = 0x4014 });
  eh_frame_hdr = some hdr;
}

abbrev pub image : Range
image = record { start = 0x1000; end = 0x2000 }

abbrev pub parts : ModuleParts
parts = parts_of "one-fde" image 0 sections

valid : validate_module_parts parts ≡ ok tt
unfolding validate_module_parts parse parse_count parse_table enc_size read_unsigned
valid = refl

from_parts-IsComplete_example : IsComplete (from_parts 0 parts)
from_parts-IsComplete_example = from_parts-IsComplete 0 parts small valid
  where
    small : (bytes : List ℕ) → parts.eh_frame_hdr ≡ some bytes → length bytes < 2 ^ 63
    small bytes e = ground arith

abbrev pub mirrors : ModuleSet
mirrors = record {
  modules = [];
  redirects = (0x4000, record { avma_start = 0x4000; avma_end = 0x4014; local_bytes = hdr }) ∷ [];
}

pub mirrors-IsMirrored : IsMirrored mirrors.redirects
unfolding get
mirrors-IsMirrored = record { ascending = (tt, tt); keyed = λ k sec h. ground arith }
