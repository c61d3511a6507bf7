-- ===== src/Callbacks/Cache.antt =====
-- The function cache of a module: what it holds, and that a lookup keeps that.
use mathlib.Core.Path.{subst}
use mathlib.Core.Option.{some-injective}
use libunwinder.Prelude.{
  ℕ, ◌≡◌, ◌≢◌, ◌∙◌, sym, inl, inr, refl, arith, ap, Bool, true, false, Option, none, some, ok, err,
  panic, ◌==◌, if◌then◌else◌, Bool-cases,
}
use libunwinder.Prelude.BTreeMap.{get, IsAscending}
use libunwinder.Prelude.BTreeMap.Laws.{get-insert, insert-IsAscending, last_le-some}
use libunwinder.Error.{UnwindInfoError}
use libunwinder.Module.{ModuleData, FunctionDetails}
use libunwinder.ModuleSet.{FunctionCache, CacheStore}
use libunwinder.Callbacks.{
  Lookup, answer, cached, remember, update, parse_function_details, get_or_parse_function_details,
}
use libunwinder.Callbacks.Details.{Covers, parse_function_details-Covers}
use libunwinder.Callbacks.Hits.{update_self, update_other, cached-last_le, cached-remember}

-- Every entry was parsed for some address of the module, and stands under its start.
pub record IsCacheOf (m : ModuleData) (c : FunctionCache) : Type 0 where
  pub ascending : IsAscending c.functions
  pub keyed : (k : ℕ) (d : FunctionDetails) → get k c.functions ≡ some d → d.start_ip ≡ k
  pub parsed :
      (k : ℕ) (d : FunctionDetails)
      → get k c.functions ≡ some d
      → (ip : ℕ) × (parse_function_details m ip ≡ ok d)

module _ (m : ModuleData) (c : FunctionCache) where
  pub remember-IsCacheOf :
      (ip : ℕ) (d : FunctionDetails)
      → IsCacheOf m c
      → parse_function_details m ip ≡ ok d
      → IsCacheOf m (remember d c)
  remember-IsCacheOf ip d w h = record {
    ascending = insert-IsAscending d.start_ip d c.functions w.ascending;
    keyed = λ k n e. ground (arith, get-insert k d.start_ip d c.functions, w.keyed k n);
    parsed = λ k n e. either k n (sym (get-insert k d.start_ip d c.functions) ∙ e);
  }
    where
      either :
          (k : ℕ) (n : FunctionDetails)
          → (if d.start_ip == k then some d else get k c.functions) ≡ some n
          → (i : ℕ) × (parse_function_details m i ≡ ok n)
      either k n e = elim (Bool-cases (d.start_ip == k)) [
        | inl t ↦ (
          ip,
          subst (λ (x : FunctionDetails). parse_function_details m ip ≡ ok x)
              (some-injective _ _ (rw t at e)) h,
        )
        | inr f ↦ w.parsed k n (rw f at e)
      ]

  -- A hit covers the address, and was parsed for an address of the module.
  pub cached-some :
      (ip : ℕ) (d : FunctionDetails)
      → IsCacheOf m c
      → cached c ip ≡ some d
      → Covers d ip × ((i : ℕ) × (parse_function_details m i ≡ ok d))
  cached-some ip d w h =
      let (k, e, below) = cached-last_le c ip d h in
      let (low, at, above) = last_le-some ip c.functions k d w.ascending e in
      ((omega (arith, w.keyed k d at), below), w.parsed k d at)

module _ (store : CacheStore) (m : ModuleData) where
  data IsAnswer (hit : Option FunctionDetails) (parsed : Lookup FunctionDetails)
      (d : FunctionDetails) (after : CacheStore) : Type 0 where
    from_cache : hit ≡ some d → after ≡ store → IsAnswer hit parsed d after
    from_parse :
        hit ≡ none
        → parsed ≡ ok d
        → after ≡ update m.cache_id (remember d (store m.cache_id)) store
        → IsAnswer hit parsed d after

  answer-ok :
      (p : Bool) (hit : Option FunctionDetails) (parsed : Lookup FunctionDetails)
      (d : FunctionDetails)
      → (answer store m p hit parsed).0 ≡ ok d
      → (p ≡ false) × IsAnswer hit parsed d (answer store m p hit parsed).1
  answer-ok true hit parsed d h = cc
  answer-ok false (some n) parsed d h = (refl, from_cache (ground arith) refl)
  answer-ok false none (ok n) d h = (
    refl,
    subst
        (λ (x : FunctionDetails).
          IsAnswer none (ok n) x (update m.cache_id (remember n (store m.cache_id)) store))
        (ground arith) (from_parse refl refl refl),
  )
  answer-ok false none (err e) d h = cc
  answer-ok false none panic d h = cc

  answer_again :
      (p : Bool) (hit : Option FunctionDetails) (parsed : Lookup FunctionDetails)
      (d : FunctionDetails)
      → p ≡ false
      → ((n : FunctionDetails) → hit ≡ some n → n ≡ d)
      → parsed ≡ ok d
      → (answer store m p hit parsed).0 ≡ ok d
  answer_again true hit parsed d f hits h = cc
  answer_again false (some n) parsed d f hits h = ap ok (hits n refl)
  answer_again false none parsed d f hits h = rw h refl

  answer-err :
      (p : Bool) (hit : Option FunctionDetails) (parsed : Lookup FunctionDetails)
      (e : UnwindInfoError)
      → (answer store m p hit parsed).0 ≡ err e
      → (answer store m p hit parsed).1 ≡ store
  answer-err true hit parsed e h = refl
  answer-err false (some n) parsed e h = refl
  answer-err false none (ok n) e h = cc
  answer-err false none (err e') e h = refl
  answer-err false none panic e h = refl

module _ (store : CacheStore) (m : ModuleData) (ip : ℕ) where
  abbrev pub outcome : Lookup FunctionDetails
  outcome = (get_or_parse_function_details store m ip).0

  abbrev pub after : CacheStore
  after = (get_or_parse_function_details store m ip).1

  outcome-ok :
      (d : FunctionDetails)
      → outcome ≡ ok d
      → ((store m.cache_id).poisoned ≡ false)
        × IsAnswer store m (cached (store m.cache_id) ip) (parse_function_details m ip) d after
  unfolding get_or_parse_function_details
  outcome-ok d h = answer-ok store m _ _ _ d h

  -- If the module's cache holds parses of the module under their starts, the details that a lookup
  -- returns, from the cache or parsed now, cover the address and are what a parse for some address
  -- of the module gives.
  pub get_or_parse_function_details-ok :
      (d : FunctionDetails)
      → IsCacheOf m (store m.cache_id)
      → outcome ≡ ok d
      → Covers d ip × ((i : ℕ) × (parse_function_details m i ≡ ok d))
  get_or_parse_function_details-ok d w h = elim (outcome-ok d h).1 [
    | from_cache hit same ↦ cached-some m (store m.cache_id) ip d w hit
    | from_parse miss parsed same ↦ (parse_function_details-Covers m ip d parsed, (ip, parsed))
  ]

  -- A lookup that succeeds keeps the module's cache a map from the starts of its functions to
  -- parses of the module, and leaves every other cache as it was.
  pub get_or_parse_function_details-IsCacheOf :
      (d : FunctionDetails)
      → IsCacheOf m (store m.cache_id)
      → outcome ≡ ok d
      → IsCacheOf m (after m.cache_id) × ((i : ℕ) → i ≢ m.cache_id → after i ≡ store i)
  get_or_parse_function_details-IsCacheOf d w h = elim (outcome-ok d h).1 [
    | from_cache hit same ↦ rw same (w, λ i ne. refl)
    | from_parse miss parsed same ↦ rw same (
      rw (update_self m.cache_id (remember d (store m.cache_id)) store)
          (remember-IsCacheOf m (store m.cache_id) ip d w parsed),
      λ i ne. update_other m.cache_id i _ store ne,
    )
  ]

  -- A lookup that fails leaves every cache as it was.
  pub get_or_parse_function_details-err : (e : UnwindInfoError) → outcome ≡ err e → after ≡ store
  unfolding get_or_parse_function_details
  get_or_parse_function_details-err e h = answer-err store m _ _ _ e h

module _ (store : CacheStore) (m : ModuleData) (ip : ℕ) where
  -- If the module's cache holds parses of the module under their starts, a lookup of the same
  -- address right behind one that succeeds gives the same details.
  pub get_or_parse_function_details_again :
      (d : FunctionDetails)
      → IsCacheOf m (store m.cache_id)
      → outcome store m ip ≡ ok d
      → outcome (after store m ip) m ip ≡ ok d
  unfolding get_or_parse_function_details
  get_or_parse_function_details_again d w h = elim (outcome-ok store m ip d h).1 [
    | from_cache hit same ↦ rw same h
    | from_parse miss parsed same ↦ rw same (
        again (update m.cache_id (remember d (store m.cache_id)) store)
          (ap (λ (c : FunctionCache). c.poisoned) (update_self m.cache_id _ store)
            ∙ (outcome-ok store m ip d h).0)
          (λ n e.
            cached-remember (store m.cache_id) ip d n w.ascending miss
              (sym (ap (λ (c : FunctionCache). cached c ip) (update_self m.cache_id _ store)) ∙ e))
          parsed)
  ]
    where
      again :
          (s : CacheStore)
          → (s m.cache_id).poisoned ≡ false
          → ((n : FunctionDetails) → cached (s m.cache_id) ip ≡ some n → n ≡ d)
          → parse_function_details m ip ≡ ok d
          → outcome s m ip ≡ ok d
      again s p hits parsed = answer_again s m _ _ _ d p hits parsed
