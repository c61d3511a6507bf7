-- ===== src/Callbacks/Threads/Safety.antt =====
-- What several calls at once keep: the cache's contents, and what each call may return.
use mathlib.Core.Path.{subst}
use libunwinder.Prelude.{
  ℕ, ◌≡◌, ◌⊎◌, sym, inl, inr, refl, arith, List, [], ◌∷◌, Bool, true, false, Option, none, some, ok,
  err, panic, ◌==◌, if◌then◌else◌, Bool-cases,
}
use libunwinder.Module.{ModuleData, FunctionDetails}
use libunwinder.ModuleSet.{FunctionCache}
use libunwinder.Callbacks.{Lookup, cached, parse_function_details}
use libunwinder.Callbacks.Details.{Covers, parse_function_details-Covers}
use libunwinder.Callbacks.Cache.{IsCacheOf, remember-IsCacheOf, cached-some}
use libunwinder.Callbacks.Threads.{
  Shared, Pc, looking, reading, parsing, storing, writing, returned, System, lock, look, parse,
  store, move, turn, run, start,
}

-- Details that a call for `ip` may get.
pub record IsFound (m : ModuleData) (ip : ℕ) (d : FunctionDetails) : Type 0 where
  pub covers : Covers d ip
  pub parsed : (i : ℕ) × (parse_function_details m i ≡ ok d)

-- What may have become of a call for `ip`, where the lock is poisoned or not.
unfoldable pub IsOutcome : ModuleData → Bool → ℕ → Lookup FunctionDetails → Type 0
IsOutcome m poisoned ip (ok d) = IsFound m ip d
IsOutcome m poisoned ip (err e) = (parse_function_details m ip ≡ err e) ⊎ (poisoned ≡ true)
IsOutcome m poisoned ip panic = parse_function_details m ip ≡ panic

unfoldable pub IsPlace : ModuleData → Bool → ℕ → Pc → Type 0
IsPlace m poisoned ip (looking ip') = ip' ≡ ip
IsPlace m poisoned ip (reading ip') = ip' ≡ ip
IsPlace m poisoned ip (parsing ip') = ip' ≡ ip
IsPlace m poisoned ip (storing ip' d) = (ip' ≡ ip) × (parse_function_details m ip ≡ ok d)
IsPlace m poisoned ip (writing ip' d) = (ip' ≡ ip) × (parse_function_details m ip ≡ ok d)
IsPlace m poisoned ip (returned ip' outcome) = (ip' ≡ ip) × IsOutcome m poisoned ip outcome

pub record IsSound (m : ModuleData) (poisoned : Bool) (ips : ℕ → ℕ) (s : System) : Type 0 where
  pub same : s.shared.cache.poisoned ≡ poisoned
  pub of_module : IsCacheOf m s.shared.cache
  pub places : (i : ℕ) → IsPlace m poisoned (ips i) (s.pc i)

record IsMoved (m : ModuleData) (p : Bool) (ip : ℕ) (s : Shared) (c : Pc) : Type 0 where
  same : s.cache.poisoned ≡ p
  of_module : IsCacheOf m s.cache
  place : IsPlace m p ip c

module _ (m : ModuleData) (p : Bool) (ip : ℕ) (s : Shared) where
  parse-IsPlace :
      (o : Lookup FunctionDetails) → parse_function_details m ip ≡ o → IsPlace m p ip (parse ip o)
  unfolding IsPlace IsOutcome
  parse-IsPlace (ok d) e = (refl, e)
  parse-IsPlace (err x) e = (refl, inl e)
  parse-IsPlace panic e = (refl, e)

module _ (m : ModuleData) (p : Bool) (ip i : ℕ) (s : Shared) (same : s.cache.poisoned ≡ p)
    (w : IsCacheOf m s.cache) where
  lock-IsMoved :
      (waiting held : Pc) (holder : Option ℕ) (b : Bool)
      → b ≡ p
      → IsPlace m p ip waiting
      → IsPlace m p ip held
      → IsMoved m p ip
          (lock m i s ip waiting held holder b).0
          (lock m i s ip waiting held holder b).1
  unfolding IsPlace IsOutcome
  lock-IsMoved waiting held (some j) b e now then_held = record {
    same = same;
    of_module = w;
    place = now;
  }
  lock-IsMoved waiting held none true e now then_held = record {
    same = same;
    of_module = w;
    place = (refl, inr (sym e));
  }
  lock-IsMoved waiting held none false e now then_held = record {
    same = same;
    of_module = w;
    place = then_held;
  }

  look-IsMoved :
      (hit : Option FunctionDetails)
      → ((d : FunctionDetails) → hit ≡ some d → IsFound m ip d)
      → IsMoved m p ip (look s ip hit).0 (look s ip hit).1
  unfolding IsPlace IsOutcome
  look-IsMoved (some d) found = record { same = same; of_module = w; place = (refl, found d refl) }
  look-IsMoved none found = record { same = same; of_module = w; place = refl }

  store-IsMoved :
      (d : FunctionDetails)
      → parse_function_details m ip ≡ ok d
      → IsMoved m p ip (store s ip d).0 (store s ip d).1
  unfolding IsPlace IsOutcome
  store-IsMoved d h = record {
    same = same;
    of_module = remember-IsCacheOf m s.cache ip d w h;
    place = (refl, record { covers = parse_function_details-Covers m ip d h; parsed = (ip, h) });
  }

module _ (m : ModuleData) (p : Bool) (ip i : ℕ) (s : Shared) where
  abbrev Moves : Shared × Pc → Type 0
  Moves moved = IsMoved m p ip moved.0 moved.1

  move-IsMoved :
      (c : Pc)
      → s.cache.poisoned ≡ p
      → IsCacheOf m s.cache
      → IsPlace m p ip c
      → IsMoved m p ip (move m i s c).0 (move m i s c).1
  unfolding move IsPlace
  move-IsMoved (looking x) same w at =
      subst (λ (y : ℕ). Moves (lock m i s y (looking y) (reading y) s.holder s.cache.poisoned))
        (sym at)
        (lock-IsMoved m p ip i s same w (looking ip) (reading ip) s.holder s.cache.poisoned same
          refl refl)
  move-IsMoved (reading x) same w at =
      subst (λ (y : ℕ). Moves (look s y (cached s.cache y))) (sym at)
        (look-IsMoved m p ip i s same w (cached s.cache ip) λ d e.
          let (covers, parsed) = cached-some m s.cache ip d w e in
          record { covers = covers; parsed = parsed })
  move-IsMoved (parsing x) same w at = record {
    same = same;
    of_module = w;
    place =
        subst (λ (y : ℕ). IsPlace m p ip (parse y (parse_function_details m y))) (sym at)
          (parse-IsPlace m p ip s (parse_function_details m ip) refl);
  }
  move-IsMoved (storing x d) same w (at, h) =
      subst (λ (y : ℕ). Moves (lock m i s y (storing y d) (writing y d) s.holder s.cache.poisoned))
        (sym at)
        (lock-IsMoved m p ip i s same w (storing ip d) (writing ip d) s.holder s.cache.poisoned same
          (refl, h) (refl, h))
  move-IsMoved (writing x d) same w (at, h) =
      subst (λ (y : ℕ). Moves (store s y d)) (sym at) (store-IsMoved m p ip i s same w d h)
  move-IsMoved (returned x outcome) same w at = record { same = same; of_module = w; place = at }

module _ (m : ModuleData) (p : Bool) (ips : ℕ → ℕ) where
  turn-IsSound : (s : System) (i : ℕ) → IsSound m p ips s → IsSound m p ips (turn m s i)
  turn-IsSound s i w = record {
    same = moved.same;
    of_module = moved.of_module;
    places = λ j. place j;
  }
    where
      moved : IsMoved m p (ips i) (move m i s.shared (s.pc i)).0 (move m i s.shared (s.pc i)).1
      moved = move-IsMoved m p (ips i) i s.shared (s.pc i) w.same w.of_module (w.places i)

      place :
          (j : ℕ) → IsPlace m p (ips j) (if j == i then (move m i s.shared (s.pc i)).1 else s.pc j)
      place j = elim (Bool-cases (j == i)) [
        | inl t ↦ rw t (
            subst (λ (k : ℕ). IsPlace m p (ips k) (move m i s.shared (s.pc i)).1) (ground arith)
              moved.place)
        | inr f ↦ rw f (w.places j)
      ]

  run-keeps :
      (schedule : List ℕ) (s : System) → IsSound m p ips s → IsSound m p ips (run m s schedule)
  unfolding run
  run-keeps [] s w = w
  run-keeps (i ∷ schedule) s w = run-keeps schedule (turn m s i) (turn-IsSound s i w)

module _ (m : ModuleData) (cache : FunctionCache) (ips : ℕ → ℕ) (schedule : List ℕ) where
  -- However the turns of any number of calls on one module are ordered, from a cache that holds
  -- parses of the module under their starts: the cache still does; details that a call returns
  -- cover its address and are what a parse for some address gives; an error that it returns is
  -- that of its own parse, unless the lock was poisoned, which no call changes.
  pub run-IsSound :
      IsCacheOf m cache → IsSound m cache.poisoned ips (run m (start cache ips) schedule)
  unfolding IsPlace
  run-IsSound w =
      run-keeps m cache.poisoned ips schedule (start cache ips)
        (record { same = refl; of_module = w; places = λ i. refl })
