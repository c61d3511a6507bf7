-- ===== src/ModuleSet.antt =====
-- src/module_set.rs: the modules by their start addresses, and the mirrored sections by theirs. A
-- redirect's `_owner` only keeps the bytes alive and is left out. The function caches behind the
-- modules' mutexes are a store of their own, since clones of a module share them.
pub mod Lookup
pub mod Redirects
pub mod Mirrors
use Prim.Native.Nat.{max}
use mathlib.Core.Option
use libunwinder.Prelude.{
  ℕ, ◌+◌, ◌-◌, ◌≤◌, ◌<◌, ◌≡◌, List, [], ◌∷◌, Bool, true, false, not, ◌&&◌, Option, none, some, leb,
  ltb, ◌==◌, if◌then◌else◌, drop, saturating_add,
}
use libunwinder.Prelude.BTreeMap
use libunwinder.Prelude.BTreeMap.{BTreeMap}
use libunwinder.Error.{UnwindInfoError, invalid_eh_frame_hdr}
use libunwinder.Module.{ModuleData, LocalSection, FunctionDetails}

pub record ModuleSet : Type 0 where
  pub modules : BTreeMap ModuleData
  pub redirects : BTreeMap LocalSection

abbrev pub new : ModuleSet
new = record { modules = []; redirects = [] }

-- `for sec in &data.local_sections { self.redirects.insert(sec.avma_start, …) }`
unfoldable pub insert_all : List LocalSection → BTreeMap LocalSection → BTreeMap LocalSection
insert_all [] m = m
insert_all (sec ∷ secs) m = insert_all secs (BTreeMap.insert sec.avma_start sec m)

unfoldable pub remove_all : List LocalSection → BTreeMap LocalSection → BTreeMap LocalSection
remove_all [] m = m
remove_all (sec ∷ secs) m = remove_all secs (BTreeMap.remove sec.avma_start m)

unfoldable pub add : ModuleSet → ModuleData → ModuleSet
add s entry = record {
  modules = BTreeMap.insert entry.avma_range.start entry s.modules;
  redirects = insert_all entry.local_sections s.redirects;
}

unfoldable pub remove : ModuleSet → ℕ → ModuleSet
remove s avma_start = elim (BTreeMap.get avma_start s.modules) [
  | none ↦ s
  | some entry ↦ record {
    modules = BTreeMap.remove avma_start s.modules;
    redirects = remove_all entry.local_sections s.redirects;
  }
]

-- `.values().map(|module| module.avma_range.end).max().unwrap_or(0)`
unfoldable pub max_end : List ModuleData → ℕ
max_end [] = 0
max_end (m ∷ ms) = max m.avma_range.end (max_end ms)

unfoldable pub max_known_code_address : ModuleSet → ℕ
max_known_code_address s = max_end (BTreeMap.values s.modules)

abbrev pub covering : ℕ → ModuleData → Option ModuleData
covering addr entry =
    if leb entry.avma_range.start addr && ltb addr entry.avma_range.end then some entry else none

unfoldable pub find_module : ModuleSet → ℕ → Option ModuleData
find_module s addr = elim (BTreeMap.last_le addr s.modules) [
  | none ↦ none
  | some (_, entry) ↦ covering addr entry
]

abbrev pub is_some : {A : Type 0} → Option A → Bool
is_some none = false
is_some (some a) = true

unfoldable pub has_unwind_info : ModuleSet → ℕ → Bool
has_unwind_info s addr = elim (find_module s addr) [
  | none ↦ false
  | some m ↦
      not (m.table.entry_count == 0) && is_some m.eh_frame_hdr_local && is_some m.eh_frame_local
]

unfoldable pub contains_address : ModuleSet → ℕ → Bool
contains_address s addr = is_some (find_module s addr)

unfoldable pub unwind_info_error : ModuleSet → ℕ → Option UnwindInfoError
unwind_info_error s addr = elim (find_module s addr) [
  | none ↦ none
  | some m ↦ Option.map (λ source. invalid_eh_frame_hdr m.name source) m.eh_frame_hdr_error
]

-- The mutex-guarded map of one module, and those of all modules by their identities.
pub record FunctionCache : Type 0 where
  pub poisoned : Bool
  pub functions : BTreeMap FunctionDetails

abbrev pub CacheStore : Type 0
CacheStore = ℕ → FunctionCache

abbrev pub covering_function : ℕ → FunctionDetails → Bool
covering_function addr details = ltb addr details.end_ip

unfoldable pub is_signal_frame : CacheStore → ModuleSet → ℕ → Bool
is_signal_frame store s addr = elim (find_module s addr) [
  | none ↦ false
  | some m ↦
      if (store m.cache_id).poisoned
      then false
      else elim (BTreeMap.last_le addr (store m.cache_id).functions) [
        | none ↦ false
        | some (_, details) ↦ covering_function addr details && details.signal_frame
      ]
]

-- The bytes from the redirected address on; `access_mem` reads eight of them.
unfoldable pub lookup_local : ModuleSet → ℕ → Option (List ℕ)
lookup_local s addr = elim (BTreeMap.last_le addr s.redirects) [
  | none ↦ none
  | some (_, sec) ↦
      if leb sec.avma_start addr && leb (saturating_add addr 8) sec.avma_end
      then some (drop (addr - sec.avma_start) sec.local_bytes)
      else none
]

unfoldable pub add_all : List ModuleData → ModuleSet → ModuleSet
add_all [] s = s
add_all (m ∷ ms) s = add_all ms (add s m)

-- `ModuleSet::clone` registers the modules again, in the order of their addresses.
unfoldable pub clone : ModuleSet → ModuleSet
clone s = add_all (BTreeMap.values s.modules) new
