-- ===== src/Callbacks/Hits.antt =====
-- What a lookup in one function cache finds, before and behind an insertion.
use mathlib.Core.Path.{subst}
use mathlib.Core.Option.{some-injective}
use libunwinder.Prelude.{
  ℕ, ◌≤◌, ◌<◌, ◌≡◌, ◌≢◌, ◌∙◌, sym, inl, inr, refl, arith, ap, none, some, ◌==◌, if◌then◌else◌,
  Option-cases, Bool-cases, lt_cases,
}
use libunwinder.Prelude.BTreeMap.{get, insert, last_le, IsAscending}
use libunwinder.Prelude.BTreeMap.Laws.{get-insert, insert-IsAscending, last_le-some, last_le-none}
use libunwinder.Module.{FunctionDetails}
use libunwinder.ModuleSet.{FunctionCache, CacheStore, covering_function}
use libunwinder.Callbacks.{cached, remember, update}

pub update_self : (id : ℕ) (c : FunctionCache) (store : CacheStore) → update id c store id ≡ c
update_self id c store = ground arith

pub update_other :
    (id i : ℕ) (c : FunctionCache) (store : CacheStore) → i ≢ id → update id c store i ≡ store i
update_other id i c store ne = ground arith

module _ (c : FunctionCache) (ip : ℕ) where
  -- A hit is the last entry at or below the address.
  pub cached-last_le :
      (d : FunctionDetails)
      → cached c ip ≡ some d
      → (k : ℕ) × (last_le ip c.functions ≡ some (k, d)) × (ip < d.end_ip)
  unfolding cached
  cached-last_le d h = elim (Option-cases (last_le ip c.functions)) [
    | inl e ↦ cc (rw (e, cached) at h)
    | inr ((k, n), e) ↦
        let (same, below) = hit n (rw (e, cached) at h) in
        (
          k,
          e ∙ ap (λ (x : FunctionDetails). some (k, x)) same,
          subst (λ (x : FunctionDetails). ip < x.end_ip) same below,
        )
  ]
    where
      hit :
          (n : FunctionDetails)
          → (if covering_function ip n then some n else none) ≡ some d
          → (n ≡ d) × (ip < n.end_ip)
      hit n e = (ground arith, ground arith)

  pub cached_at :
      (k : ℕ) (d : FunctionDetails)
      → last_le ip c.functions ≡ some (k, d)
      → ip < d.end_ip
      → cached c ip ≡ some d
  unfolding cached
  cached_at k d e below = rw (e, cached) (ground arith)

module _ (c : FunctionCache) (ip : ℕ) where
  -- Behind a miss the details remembered are the only ones that can be a hit.
  pub cached-remember :
      (d n : FunctionDetails)
      → IsAscending c.functions
      → cached c ip ≡ none
      → cached (remember d c) ip ≡ some n
      → n ≡ d
  cached-remember d n a miss h =
      let (k, e, below) = cached-last_le (remember d c) ip n h in
      let (low, at, above) =
        last_le-some ip (insert d.start_ip d c.functions) k n
          (insert-IsAscending d.start_ip d c.functions a) e in
      elim (Bool-cases (d.start_ip == k)) [
        | inl t ↦ some-injective n d (sym at ∙ get-insert k d.start_ip d c.functions ∙ rw t refl)
        | inr f ↦
            absurd
              (old k low below above (rw f at (sym (get-insert k d.start_ip d c.functions) ∙ at)))
      ]
    where
      old :
          (k : ℕ)
          → k ≤ ip
          → ip < n.end_ip
          → ((i : ℕ) → k < i → i ≤ ip → get i (insert d.start_ip d c.functions) ≡ none)
          → get k c.functions ≡ some n
          → ⊥
      old k low below above held = elim (Option-cases (last_le ip c.functions)) [
        | inl e ↦ cc (last_le-none ip k c.functions a e low, held)
        | inr ((k', n'), e) ↦
            let (low', at', above') = last_le-some ip c.functions k' n' a e in
            elim (lt_cases k k') [
              | inl lt ↦ ground (arith, get-insert k' d.start_ip d c.functions, above k' lt low')
              | inr (inl same) ↦ cc (
                miss,
                cached_at c ip k n
                    (e ∙ ap (λ (x : ℕ × FunctionDetails). some x) (pair k' n' at' same)) below,
              )
              | inr (inr gt) ↦ cc (above' k gt low, held)
            ]
      ]
        where
          pair :
              (k' : ℕ) (n' : FunctionDetails)
              → get k' c.functions ≡ some n'
              → k ≡ k'
              → ◌≡◌ {A = ℕ × FunctionDetails} (k', n') (k, n)
          pair k' n' at' same = cc (at', held, same)
