-- ===== src/ModuleSet/Redirects.antt =====
-- The index of the mirrored sections: that a redirected read stays inside the mirror.
use mathlib.Core.Path.{subst}
use libunwinder.Prelude.{
  ℕ, ◌+◌, ◌-◌, ◌≤◌, ◌<◌, ◌^◌, ◌≡◌, sym, arith, List, [], ◌∷◌, ◌++◌, Option, none, some, inl, inr,
  length, drop, All, leb, ◌&&◌, if◌then◌else◌, Option-cases, length-drop, saturating_add, ap,
}
use libunwinder.Prelude.BTreeMap
use libunwinder.Prelude.BTreeMap.{BTreeMap, get, insert, IsAscending, last_le}
use libunwinder.Prelude.BTreeMap.Laws.{
  get-insert, get-remove, insert-IsAscending, remove-IsAscending, last_le-some,
}
use libunwinder.Module.{LocalSection, ModuleParts, mirror, from_parts, slide_of, Range}
use libunwinder.ModuleSet.{ModuleSet, add, remove, insert_all, remove_all, lookup_local}

-- The addresses of a section are those of its local bytes.
abbrev pub IsMirror : LocalSection → Type 0
IsMirror sec = sec.avma_end ≤ sec.avma_start + length sec.local_bytes

-- The sections stand under their starts, and each is a mirror.
pub record IsMirrored (redirects : BTreeMap LocalSection) : Type 0 where
  pub ascending : IsAscending redirects
  pub keyed :
      (k : ℕ) (sec : LocalSection)
      → get k redirects ≡ some sec
      → (sec.avma_start ≡ k) × IsMirror sec

insert-IsMirrored :
    (sec : LocalSection) (m : BTreeMap LocalSection)
    → IsMirror sec
    → IsMirrored m
    → IsMirrored (insert sec.avma_start sec m)
insert-IsMirrored sec m i w = record {
  ascending = insert-IsAscending sec.avma_start sec m w.ascending;
  keyed = λ k n h. ground (arith, get-insert k sec.avma_start sec m, w.keyed k n);
}

insert_all-IsMirrored :
    (secs : List LocalSection) (m : BTreeMap LocalSection)
    → All IsMirror secs
    → IsMirrored m
    → IsMirrored (insert_all secs m)
unfolding insert_all
insert_all-IsMirrored [] m a w = w
insert_all-IsMirrored (sec ∷ secs) m a w =
    insert_all-IsMirrored secs (insert sec.avma_start sec m) a.1 (insert-IsMirrored sec m a.0 w)

remove-IsMirrored :
    (k : ℕ) (m : BTreeMap LocalSection) → IsMirrored m → IsMirrored (BTreeMap.remove k m)
remove-IsMirrored k m w = record {
  ascending = remove-IsAscending k m w.ascending;
  keyed = λ j n h. ground (arith, get-remove j k m w.ascending, w.keyed j n);
}

remove_all-IsMirrored :
    (secs : List LocalSection) (m : BTreeMap LocalSection)
    → IsMirrored m
    → IsMirrored (remove_all secs m)
unfolding remove_all
remove_all-IsMirrored [] m w = w
remove_all-IsMirrored (sec ∷ secs) m w =
    remove_all-IsMirrored secs (BTreeMap.remove sec.avma_start m)
      (remove-IsMirrored sec.avma_start m w)

-- Adding a module that `from_parts` built keeps every redirected section a mirror under its start,
-- whatever the parts.
pub add-from_parts-IsMirrored :
    (s : ModuleSet) (cache_id : ℕ) (parts : ModuleParts)
    → IsMirrored s.redirects
    → IsMirrored (add s (from_parts cache_id parts)).redirects
unfolding add from_parts
add-from_parts-IsMirrored s cache_id parts w =
    insert_all-IsMirrored
      ((mirror (slide_of parts) parts.eh_frame_hdr parts.eh_frame_hdr_svma).sections
        ++ (mirror (slide_of parts) parts.eh_frame parts.eh_frame_svma).sections)
      s.redirects
      (both parts.eh_frame_hdr parts.eh_frame_hdr_svma parts.eh_frame parts.eh_frame_svma) w
  where
    both :
        (a : Option (List ℕ)) (r : Option Range) (b : Option (List ℕ)) (q : Option Range)
        → All IsMirror
            ((mirror (slide_of parts) a r).sections ++ (mirror (slide_of parts) b q).sections)
    both none r none q = tt
    both none r (some b) none = tt
    both none r (some b) (some q) = (omega arith, tt)
    both (some a) none none q = tt
    both (some a) none (some b) none = tt
    both (some a) none (some b) (some q) = (omega arith, tt)
    both (some a) (some r) none q = (omega arith, tt)
    both (some a) (some r) (some b) none = (omega arith, tt)
    both (some a) (some r) (some b) (some q) = (omega arith, (omega arith, tt))

-- Removing a start keeps every redirected section a mirror under its start.
pub remove-redirects-IsMirrored :
    (s : ModuleSet) (avma_start : ℕ)
    → IsMirrored s.redirects
    → IsMirrored (remove s avma_start).redirects
unfolding remove
remove-redirects-IsMirrored s avma_start w = elim (Option-cases (get avma_start s.modules)) [
  | inl e ↦ rw (e, remove) w
  | inr (m, e) ↦ rw (e, remove) (remove_all-IsMirrored m.local_sections s.redirects w)
]

module _ (s : ModuleSet) (addr : ℕ) where
  abbrev pub IsRedirect : List ℕ → LocalSection → Type 0
  IsRedirect bytes sec =
      (sec.avma_start ≤ addr)
      × (addr < sec.avma_end)
      × (get sec.avma_start s.redirects ≡ some sec)
      × (bytes ≡ drop (addr - sec.avma_start) sec.local_bytes)

  -- If every redirected section is a mirror of its addresses, a redirected read below 2 ^ 64 - 8
  -- gives at least eight bytes of a registered section, from the address on.
  pub lookup_local-some :
      (bytes : List ℕ)
      → IsMirrored s.redirects
      → addr + 8 < 2 ^ 64
      → lookup_local s addr ≡ some bytes
      → (sec : LocalSection) × IsRedirect bytes sec × (8 ≤ length bytes)
  unfolding lookup_local
  lookup_local-some bytes w small h = elim (Option-cases (last_le addr s.redirects)) [
    | inl e ↦ cc (rw (e, lookup_local) at h)
    | inr ((k, sec), e) ↦
        let (low, at, above) = last_le-some addr s.redirects k sec w.ascending e in
        let (same, fits) = w.keyed k sec at in
        let (from, to, same_bytes) = inside sec (rw (e, lookup_local) at h) in
        (
          sec,
          (
            from,
            omega arith,
            subst (λ (i : ℕ). get i s.redirects ≡ some sec) (sym same) at,
            same_bytes,
          ),
          omega (
            arith,
            ap (length {A = ℕ}) same_bytes,
            length-drop (addr - sec.avma_start) sec.local_bytes,
          ),
        )
  ]
    where
      inside :
          (sec : LocalSection)
          → (if leb sec.avma_start addr && leb (saturating_add addr 8) sec.avma_end
              then some (drop (addr - sec.avma_start) sec.local_bytes)
              else none)
            ≡ some bytes
          → (sec.avma_start ≤ addr)
            × (addr + 8 ≤ sec.avma_end)
            × (bytes ≡ drop (addr - sec.avma_start) sec.local_bytes)
      inside sec e = (ground arith, ground arith, ground arith)
