-- ===== src/Callbacks/Threads.antt =====
-- src/callbacks.rs: `get_or_parse_function_details` called by several threads at once on one
-- module. A call waits for the lock, looks into the cache and gives the lock up, parses without it,
-- waits for it again, and stores: each of the five is one turn, and a schedule says whose turn it is.
-- The turn of a call that waits for a lock that is held leaves everything as it is. Each call has a
-- number of its own.
pub mod Safety
pub mod Turns
use libunwinder.Prelude.{
  ℕ, List, [], ◌∷◌, Bool, true, false, Option, none, some, ok, err, panic, ◌==◌, if◌then◌else◌,
}
use libunwinder.Error.{function_cache_poisoned}
use libunwinder.Module.{ModuleData, FunctionDetails}
use libunwinder.ModuleSet.{FunctionCache}
use libunwinder.Callbacks.{Lookup, cached, remember, parse_function_details}

-- The module's mutex: what stands behind it, and whose guard is alive.
pub record Shared : Type 0 where
  pub cache : FunctionCache
  pub holder : Option ℕ

-- Where a call stands.
pub data Pc : Type 0 where
  looking : (ip : ℕ) → Pc  -- at the first `lock`
  reading : (ip : ℕ) → Pc  -- with the guard of the first block
  parsing : (ip : ℕ) → Pc  -- behind a miss, without the lock
  storing : (ip : ℕ) (details : FunctionDetails) → Pc  -- at the second `lock`
  writing : (ip : ℕ) (details : FunctionDetails) → Pc  -- with the second guard
  returned : (ip : ℕ) (outcome : Lookup FunctionDetails) → Pc

pub record System : Type 0 where
  pub shared : Shared
  pub pc : ℕ → Pc

-- `lock()?`, by who holds the lock and whether it is poisoned.
abbrev pub lock : ModuleData → ℕ → Shared → ℕ → Pc → Pc → Option ℕ → Bool → Shared × Pc
lock m i s ip waiting held (some j) poisoned = (s, waiting)
lock m i s ip waiting held none true = (s, returned ip (err (function_cache_poisoned m.name)))
lock m i s ip waiting held none false = (record s { holder = some i }, held)

-- By what the cache has; either way the guard is dropped.
abbrev pub look : Shared → ℕ → Option FunctionDetails → Shared × Pc
look s ip (some d) = (record s { holder = none }, returned ip (ok d))
look s ip none = (record s { holder = none }, parsing ip)

abbrev pub parse : ℕ → Lookup FunctionDetails → Pc
parse ip (ok d) = storing ip d
parse ip (err e) = returned ip (err e)
parse ip panic = returned ip panic

abbrev pub store : Shared → ℕ → FunctionDetails → Shared × Pc
store s ip d = (record { cache = remember d s.cache; holder = none }, returned ip (ok d))

-- The next turn of call `i`.
unfoldable pub move : ModuleData → ℕ → Shared → Pc → Shared × Pc
move m i s (looking ip) = lock m i s ip (looking ip) (reading ip) s.holder s.cache.poisoned
move m i s (reading ip) = look s ip (cached s.cache ip)
move m i s (parsing ip) = (s, parse ip (parse_function_details m ip))
move m i s (storing ip d) = lock m i s ip (storing ip d) (writing ip d) s.holder s.cache.poisoned
move m i s (writing ip d) = store s ip d
move m i s (returned ip outcome) = (s, returned ip outcome)

abbrev pub turn : ModuleData → System → ℕ → System
turn m s i = record {
  shared = (move m i s.shared (s.pc i)).0;
  pc = λ j. if j == i then (move m i s.shared (s.pc i)).1 else s.pc j;
}

unfoldable pub run : ModuleData → System → List ℕ → System
run m s [] = s
run m s (i ∷ schedule) = run m (turn m s i) schedule

-- Call `i` looks for `ips i`, and no guard is alive.
abbrev pub start : FunctionCache → (ℕ → ℕ) → System
start cache ips = record {
  shared = record { cache = cache; holder = none };
  pc = λ i. looking (ips i);
}
