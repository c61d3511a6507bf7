-- ===== src/ModuleSet/Mirrors.antt =====
-- The index of the mirrored sections: that a mirrored address is redirected.
use mathlib.Core.Option.{some-injective}
use mathlib.Core.Path.{subst}
use libunwinder.Prelude.{
  ℕ, ◌+◌, ◌-◌, ◌≤◌, ◌<◌, ◌^◌, ◌≡◌, sym, ◌∙◌, refl, arith, List, Option, none, some, inl, inr, drop,
  leb, ◌&&◌, if◌then◌else◌, Option-cases, lt_cases, saturating_add,
}
use libunwinder.Prelude.BTreeMap.{get, last_le}
use libunwinder.Prelude.BTreeMap.Laws.{last_le-some, last_le-none}
use libunwinder.Module.{LocalSection}
use libunwinder.ModuleSet.{ModuleSet, lookup_local}
use libunwinder.ModuleSet.Redirects.{IsMirrored}

abbrev pub redirect : LocalSection → ℕ → Option (List ℕ)
redirect sec addr =
    if leb sec.avma_start addr && leb (saturating_add addr 8) sec.avma_end
    then some (drop (addr - sec.avma_start) sec.local_bytes)
    else none

-- A registered section which none of the others starts inside.
pub record IsClear (s : ModuleSet) (sec : LocalSection) : Type 0 where
  pub registered : get sec.avma_start s.redirects ≡ some sec
  pub small : sec.avma_end < 2 ^ 64
  pub alone :
      (k : ℕ) (other : LocalSection)
      → get k s.redirects ≡ some other
      → sec.avma_start < k
      → sec.avma_end ≤ k

module _ (s : ModuleSet) (addr : ℕ) where
  lookup_local_at :
      (k : ℕ) (sec : LocalSection)
      → last_le addr s.redirects ≡ some (k, sec)
      → lookup_local s addr ≡ redirect sec addr
  unfolding lookup_local
  lookup_local_at k sec e = rw (e, lookup_local) refl

  -- Where the redirected sections are mirrors under their starts, an address inside a registered
  -- section with eight bytes left, which no other section starts in, is redirected to its byte.
  pub lookup_local_complete :
      (sec : LocalSection)
      → IsMirrored s.redirects
      → IsClear s sec
      → sec.avma_start ≤ addr
      → addr + 8 ≤ sec.avma_end
      → lookup_local s addr ≡ some (drop (addr - sec.avma_start) sec.local_bytes)
  lookup_local_complete sec w c low high = elim (Option-cases (last_le addr s.redirects)) [
    | inl e ↦ cc (last_le-none addr sec.avma_start s.redirects w.ascending e low, c.registered)
    | inr ((k, found), e) ↦
        let (below, at, above) = last_le-some addr s.redirects k found w.ascending e in
        lookup_local_at k found e ∙ nearest k found below at above
  ]
    where
      inside : redirect sec addr ≡ some (drop (addr - sec.avma_start) sec.local_bytes)
      inside = ground (arith, c.small)

      nearest :
          (k : ℕ) (found : LocalSection)
          → k ≤ addr
          → get k s.redirects ≡ some found
          → ((i : ℕ) → k < i → i ≤ addr → get i s.redirects ≡ none)
          → redirect found addr ≡ some (drop (addr - sec.avma_start) sec.local_bytes)
      nearest k found below at above = elim (lt_cases k sec.avma_start) [
        | inl lt ↦ cc (above sec.avma_start lt low, c.registered)
        | inr (inl same) ↦
            subst
              (λ (x : LocalSection).
                redirect x addr ≡ some (drop (addr - sec.avma_start) sec.local_bytes))
              (some-injective sec found
                (sym c.registered ∙ subst (λ (i : ℕ). get i s.redirects ≡ some found) same at))
              inside
        | inr (inr gt) ↦ absurd (omega (arith, c.alone k found at gt))
      ]
