-- ===== src/Callbacks/Threads/Turns.antt =====
-- That no order of turns is a dead end: a call can always go on to its return.
use mathlib.Core.Path.{subst}
use libunwinder.Prelude.{
  ℕ, ◌-◌, ◌≤◌, ◌≡◌, ◌≢◌, ◌∙◌, sym, refl, arith, Bool, true, false, Option, none, some, ok, err,
  panic, ◌==◌,
}
use libunwinder.Module.{ModuleData, FunctionDetails}
use libunwinder.Callbacks.{Lookup, cached, parse_function_details}
use libunwinder.Callbacks.Threads.{
  Shared, Pc, looking, reading, parsing, storing, writing, returned, System, lock, look, parse,
  move,
}

-- The address that a call is for.
target : Pc → ℕ
target (looking ip) = ip
target (reading ip) = ip
target (parsing ip) = ip
target (storing ip d) = ip
target (writing ip d) = ip
target (returned ip outcome) = ip

-- The turns that a call has before it at most, where nobody else holds the lock.
left : Pc → ℕ
left (looking ip) = 5
left (reading ip) = 4
left (parsing ip) = 3
left (storing ip d) = 2
left (writing ip d) = 1
left (returned ip outcome) = 0

-- The guard of a call is alive between a lock and the end of its block.
holds : Pc → Bool
holds (looking ip) = false
holds (reading ip) = true
holds (parsing ip) = false
holds (storing ip d) = false
holds (writing ip d) = true
holds (returned ip outcome) = false

abbrev is_holder : Option ℕ → ℕ → Bool
is_holder none i = false
is_holder (some j) i = j == i

-- The lock is free or the call's own.
abbrev IsFree : Option ℕ → ℕ → Type 0
IsFree none i = Unit
IsFree (some j) i = j ≡ i

-- What a turn of call `i` at `c` does to the lock, to its own place, and to the others.
record IsTurn (i : ℕ) (s : Shared) (c : Pc) (moved : Shared × Pc) : Type 0 where
  same_target : target moved.1 ≡ target c
  held : holds moved.1 ≡ is_holder moved.0.holder i
  others : (k : ℕ) → k ≢ i → is_holder moved.0.holder k ≡ is_holder s.holder k
  less : IsFree s.holder i → left moved.1 ≤ left c - 1
  free : IsFree s.holder i → IsFree moved.0.holder i
  freed : holds c ≡ true → moved.0.holder ≡ none

module _ (m : ModuleData) (i : ℕ) where
  lock-IsTurn :
      (s : Shared) (ip : ℕ) (waiting held : Pc) (h : Option ℕ) (p : Bool)
      → s.holder ≡ h
      → holds waiting ≡ false
      → is_holder s.holder i ≡ false
      → holds held ≡ true
      → target waiting ≡ ip
      → target held ≡ ip
      → left held ≤ left waiting - 1
      → IsTurn i s waiting (lock m i s ip waiting held h p)
  unfolding holds target left
  lock-IsTurn s ip waiting held (some j) p at idle apart guards t1 t2 less = record {
    same_target = refl;
    held = idle ∙ sym apart;
    others = λ k ne. refl;
    less = λ free. absurd (
        kept_out (subst (λ (o : Option ℕ). IsFree o i) at free)
          (subst (λ (o : Option ℕ). is_holder o i ≡ false) at apart));
    free = λ free. free;
    freed = λ h. cc;
  }
    where
      kept_out : j ≡ i → (j == i) ≡ false → ⊥
      kept_out e ne = ground arith
  lock-IsTurn s ip waiting held none true at idle apart guards t1 t2 less = record {
    same_target = sym t1;
    held = sym apart;
    others = λ k ne. refl;
    less = λ free. omega arith;
    free = λ free. free;
    freed = λ h. cc;
  }
  lock-IsTurn s ip waiting held none false at idle apart guards t1 t2 less = record {
    same_target = t2 ∙ sym t1;
    held = guards ∙ ground arith;
    others = λ k ne. rw at (ground arith);
    less = λ free. less;
    free = λ free. refl;
    freed = λ h. cc;
  }

  only_one : (h : Option ℕ) (k : ℕ) → is_holder h i ≡ true → k ≢ i → is_holder h k ≡ false
  only_one none k own ne = cc
  only_one (some j) k own ne = ground arith

  look-IsTurn :
      (s : Shared) (ip : ℕ) (hit : Option FunctionDetails)
      → is_holder s.holder i ≡ true
      → IsTurn i s (reading ip) (look s ip hit)
  unfolding holds target left
  look-IsTurn s ip (some d) own = record {
    same_target = refl;
    held = refl;
    others = λ k ne. sym (only_one s.holder k own ne);
    less = λ free. omega arith;
    free = λ free. tt;
    freed = λ h. refl;
  }
  look-IsTurn s ip none own = record {
    same_target = refl;
    held = refl;
    others = λ k ne. sym (only_one s.holder k own ne);
    less = λ free. omega arith;
    free = λ free. tt;
    freed = λ h. refl;
  }

  parse-IsTurn :
      (s : Shared) (ip : ℕ) (o : Lookup FunctionDetails)
      → is_holder s.holder i ≡ false
      → IsTurn i s (parsing ip) (s, parse ip o)
  unfolding holds target left
  parse-IsTurn s ip (ok d) apart = record {
    same_target = refl;
    held = sym apart;
    others = λ k ne. refl;
    less = λ free. omega arith;
    free = λ free. free;
    freed = λ h. cc;
  }
  parse-IsTurn s ip (err e) apart = record {
    same_target = refl;
    held = sym apart;
    others = λ k ne. refl;
    less = λ free. omega arith;
    free = λ free. free;
    freed = λ h. cc;
  }
  parse-IsTurn s ip panic apart = record {
    same_target = refl;
    held = sym apart;
    others = λ k ne. refl;
    less = λ free. omega arith;
    free = λ free. free;
    freed = λ h. cc;
  }

  move-IsTurn : (s : Shared) (c : Pc) → holds c ≡ is_holder s.holder i → IsTurn i s c (move m i s c)
  unfolding move holds target left
  move-IsTurn s (looking ip) h =
      lock-IsTurn s ip (looking ip) (reading ip) s.holder s.cache.poisoned refl refl (sym h) refl
        refl refl (omega arith)
  move-IsTurn s (reading ip) h = look-IsTurn s ip (cached s.cache ip) (sym h)
  move-IsTurn s (parsing ip) h = parse-IsTurn s ip (parse_function_details m ip) (sym h)
  move-IsTurn s (storing ip d) h =
      lock-IsTurn s ip (storing ip d) (writing ip d) s.holder s.cache.poisoned refl refl (sym h)
        refl refl refl (omega arith)
  move-IsTurn s (writing ip d) h = record {
    same_target = refl;
    held = refl;
    others = λ k ne. sym (only_one s.holder k (sym h) ne);
    less = λ free. omega arith;
    free = λ free. tt;
    freed = λ g. refl;
  }
  move-IsTurn s (returned ip outcome) h = record {
    same_target = refl;
    held = h;
    others = λ k ne. refl;
    less = λ free. omega arith;
    free = λ free. free;
    freed = λ g. cc;
  }

-- The lock is held by the call whose guard is alive, if there is one.
abbrev IsExclusive : System → Type 0
IsExclusive s = (i : ℕ) → holds (s.pc i) ≡ is_holder s.shared.holder i

module _ (m : ModuleData) where
  moved :
      (s : System) (i : ℕ) → IsExclusive s → IsTurn i s.shared (s.pc i) (move m i s.shared (s.pc i))
  moved s i x = move-IsTurn m i s.shared (s.pc i) (x i)
