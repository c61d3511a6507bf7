-- ===== src/Tests/Threads.antt =====
-- Two threads that look for the same function at once.
use libunwinder.Prelude.{ℕ, List, [], ◌∷◌, false}
use libunwinder.Callbacks.Threads.{System, run, start}
use libunwinder.Callbacks.Threads.Safety.{IsSound, run-IsSound}
use libunwinder.Tests.Functions.{one_fde, empty_caches, empty-IsCacheOf}

-- Every call is for the same address.
abbrev both : System
both = start (empty_caches 0) (λ i. 0x1008)

-- Turn by turn: the second call waits while the first one holds the lock.
abbrev alternating : List ℕ
alternating = 0 ∷ 1 ∷ 0 ∷ 1 ∷ 0 ∷ 1 ∷ []

run-IsSound_example : IsSound one_fde false (λ i. 0x1008) (run one_fde both alternating)
run-IsSound_example = run-IsSound one_fde (empty_caches 0) (λ i. 0x1008) alternating empty-IsCacheOf
