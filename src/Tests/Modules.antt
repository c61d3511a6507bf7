-- ===== src/Tests/Modules.antt =====
-- The module of one function beside a module without unwind sections, which ends before it starts.
use libunwinder.Prelude.{◌≡◌, refl, arith, [], ◌∷◌, none, some}
use libunwinder.Prelude.BTreeMap.{get, last_le}
use libunwinder.Module.{ModuleData}
use libunwinder.ModuleSet.{ModuleSet, find_module}
use libunwinder.ModuleSet.Lookup.{IsWellFormed, IsDisjoint, IsApart, find_module_complete}
use libunwinder.Tests.Functions.{one_fde}

abbrev pub bare : ModuleData
bare = record one_fde {
  name = "bare";
  avma_range = record { start = 0x400; end = 0x1000 };
  local_sections = [];
  eh_frame_hdr_local = none;
  eh_frame_local = none;
  cache_id = 1;
}

abbrev pub one : ModuleSet
one = record { modules = (0x1000, one_fde) ∷ []; redirects = [] }

pub one-IsWellFormed : IsWellFormed one
unfolding get
one-IsWellFormed = record { ascending = (tt, tt); keyed = λ k m h. ground arith }

one-IsDisjoint : IsDisjoint one
unfolding get
one-IsDisjoint j k m n hj hk lt = ground arith

bare-IsApart : IsApart one bare
unfolding get
bare-IsApart k n h ne = ground arith

found : find_module one 0x1fff ≡ some one_fde
unfolding find_module last_le
found = refl

find_module_complete_example : find_module one 0x1000 ≡ some one_fde
find_module_complete_example =
    find_module_complete one one-IsWellFormed 0x1000 one_fde one-IsDisjoint (unfold get in refl)
      (omega arith, omega arith)
