-- ===== src/ModuleSet/Lookup.antt =====
-- The module index: what `add` and `remove` keep, and that `find_module` finds the module that
-- contains an address.
use mathlib.Core.Path.{subst}
use mathlib.Core.Option.{some-injective}
use libunwinder.Prelude.{
  ℕ, ◌≤◌, ◌<◌, ◌≡◌, ◌≢◌, ◌⊎◌, sym, ◌∙◌, arith, [], ◌∷◌, none, some, inl, inr, Option-cases,
  lt_cases,
}
use libunwinder.Prelude.BTreeMap.{BTreeMap, get, IsAscending, last_le, values}
use libunwinder.Prelude.BTreeMap.Laws.{
  get-insert, get-remove, insert-IsAscending, remove-IsAscending, last_le-some, last_le-none,
}
use libunwinder.Module.{ModuleData}
use libunwinder.ModuleSet.{
  ModuleSet, new, add, remove, find_module, covering, max_end, max_known_code_address,
}

abbrev pub Contains : ModuleData → ℕ → Type 0
Contains m addr = (m.avma_range.start ≤ addr) × (addr < m.avma_range.end)

-- A module stands under its start address.
pub record IsWellFormed (s : ModuleSet) : Type 0 where
  pub ascending : IsAscending s.modules
  pub keyed : (k : ℕ) (m : ModuleData) → get k s.modules ≡ some m → m.avma_range.start ≡ k

-- A module ends before the next one starts.
abbrev pub IsDisjoint : ModuleSet → Type 0
IsDisjoint s =
    (j k : ℕ) (m n : ModuleData)
    → get j s.modules ≡ some m
    → get k s.modules ≡ some n
    → j < k
    → m.avma_range.end ≤ k

abbrev pub Holds : ModuleSet → ModuleData → Type 0
Holds s m = get m.avma_range.start s.modules ≡ some m

pub new-IsWellFormed : IsWellFormed new
unfolding get
new-IsWellFormed = record { ascending = tt; keyed = λ k m h. cc h }

-- Adding a module keeps the index in order and every module under its own start.
pub add-IsWellFormed : (s : ModuleSet) (m : ModuleData) → IsWellFormed s → IsWellFormed (add s m)
unfolding add
add-IsWellFormed s m w = record {
  ascending = insert-IsAscending m.avma_range.start m s.modules w.ascending;
  keyed = λ k n h. ground (arith, get-insert k m.avma_range.start m s.modules, w.keyed k n);
}

-- Removing a start keeps the index in order and every module under its own start.
pub remove-IsWellFormed :
    (s : ModuleSet) (avma_start : ℕ) → IsWellFormed s → IsWellFormed (remove s avma_start)
unfolding remove
remove-IsWellFormed s avma_start w = elim (Option-cases (get avma_start s.modules)) [
  | inl e ↦ rw (e, remove) w
  | inr (m, e) ↦
      rw (e, remove)
        (record {
          ascending = remove-IsAscending avma_start s.modules w.ascending;
          keyed =
              λ k n h. ground (arith, get-remove k avma_start s.modules w.ascending, w.keyed k n);
        })
]

module _ (s : ModuleSet) (addr : ℕ) where
  find_module_at :
      (k : ℕ) (n : ModuleData)
      → last_le addr s.modules ≡ some (k, n)
      → find_module s addr ≡ covering addr n
  unfolding find_module
  find_module_at k n e = rw (e, find_module)

  find_module_nowhere : last_le addr s.modules ≡ none → find_module s addr ≡ none
  unfolding find_module
  find_module_nowhere e = rw (e, find_module)

covering-some : (addr : ℕ) (n m : ModuleData) → covering addr n ≡ some m → Contains n addr × (n ≡ m)
covering-some addr n m h = ground arith

covering-Contains : (addr : ℕ) (m : ModuleData) → Contains m addr → covering addr m ≡ some m
covering-Contains addr m c = ground arith

module _ (s : ModuleSet) (w : IsWellFormed s) where
  -- In a well-formed index the module that `find_module` returns contains the address and is
  -- registered under its start.
  pub find_module-some :
      (addr : ℕ) (m : ModuleData) → find_module s addr ≡ some m → Contains m addr × Holds s m
  find_module-some addr m h = elim (Option-cases (last_le addr s.modules)) [
    | inl e ↦ cc (find_module_nowhere s addr e, h)
    | inr ((k, n), e) ↦
        let (contains, same) = covering-some addr n m (sym (find_module_at s addr k n e) ∙ h) in
        let (low, at, above) = last_le-some addr s.modules k n w.ascending e in
        let held : get n.avma_range.start s.modules ≡ some n =
          subst (λ (i : ℕ). get i s.modules ≡ some n) (sym (w.keyed k n at)) at in
        subst (λ (x : ModuleData). Contains x addr × Holds s x) same (contains, held)
  ]

  -- In a well-formed index of modules that do not overlap, `find_module` finds the registered
  -- module that contains an address.
  pub find_module_complete :
      (addr : ℕ) (m : ModuleData)
      → IsDisjoint s
      → Holds s m
      → Contains m addr
      → find_module s addr ≡ some m
  find_module_complete addr m d h c = elim (Option-cases (last_le addr s.modules)) [
    | inl e ↦ cc (last_le-none addr m.avma_range.start s.modules w.ascending e c.0, h)
    | inr ((k, n), e) ↦
        let (low, at, above) = last_le-some addr s.modules k n w.ascending e in
        find_module_at s addr k n e ∙ nearest k n low at above
  ]
    where
      nearest :
          (k : ℕ) (n : ModuleData)
          → k ≤ addr
          → get k s.modules ≡ some n
          → ((i : ℕ) → k < i → i ≤ addr → get i s.modules ≡ none)
          → covering addr n ≡ some m
      nearest k n low at above = elim (lt_cases k m.avma_range.start) [
        | inl lt ↦ cc (above m.avma_range.start lt c.0, h)
        | inr (inl same) ↦
            subst (λ (x : ModuleData). covering addr x ≡ some m)
              (some-injective m n (sym h ∙ subst (λ (i : ℕ). get i s.modules ≡ some n) same at))
              (covering-Contains addr m c)
        | inr (inr gt) ↦ absurd (omega (arith, d m.avma_range.start k m n h at gt))
      ]

-- A module that overlaps none of the others.
abbrev pub IsApart : ModuleSet → ModuleData → Type 0
IsApart s m =
    (k : ℕ) (n : ModuleData)
    → get k s.modules ≡ some n
    → k ≢ m.avma_range.start
    → (n.avma_range.end ≤ m.avma_range.start) ⊎ (m.avma_range.end ≤ k)

-- Adding a nonempty module that overlaps none of the others keeps the modules of a well-formed
-- index of nonempty modules apart.
pub add-IsDisjoint :
    (s : ModuleSet) (m : ModuleData)
    → IsWellFormed s
    → m.avma_range.start < m.avma_range.end
    → IsDisjoint s
    → IsApart s m
    → ((k : ℕ) (n : ModuleData) → get k s.modules ≡ some n → k < n.avma_range.end)
    → IsDisjoint (add s m)
unfolding add
add-IsDisjoint s m w nonempty d apart full j k a b ha hb lt = ground (
  arith,
  get-insert j m.avma_range.start m s.modules,
  get-insert k m.avma_range.start m s.modules,
  d j k a b,
  apart j a,
  apart k b,
  full j a,
  full k b,
)

-- If the modules do not overlap behind `add` on a well-formed index, an address of the new module
-- finds it.
pub find_module-add :
    (s : ModuleSet) (m : ModuleData) (addr : ℕ)
    → IsWellFormed s
    → IsDisjoint (add s m)
    → Contains m addr
    → find_module (add s m) addr ≡ some m
find_module-add s m addr w d c =
    find_module_complete (add s m) (add-IsWellFormed s m w) addr m d held c
  where
    held : Holds (add s m) m
    held =
        unfold add in ground (arith, get-insert m.avma_range.start m.avma_range.start m s.modules)

-- Every registered module ends at most at `max_known_code_address`.
max_end-values :
    (k : ℕ) (ms : BTreeMap ModuleData) (m : ModuleData)
    → get k ms ≡ some m
    → m.avma_range.end ≤ max_end (values ms)
unfolding get values max_end
max_end-values k [] m h = cc
max_end-values k ((j, n) ∷ ms) m h = ground (arith, max_end-values k ms m)

-- In a well-formed index an address that finds a module lies below `max_known_code_address`.
pub find_module-max_known_code_address :
    (s : ModuleSet) (addr : ℕ) (m : ModuleData)
    → IsWellFormed s
    → find_module s addr ≡ some m
    → addr < max_known_code_address s
unfolding max_known_code_address
find_module-max_known_code_address s addr m w h =
    let (contains, held) = find_module-some s w addr m h in
    omega (arith, max_end-values m.avma_range.start s.modules m held)
