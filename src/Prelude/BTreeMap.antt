-- ===== src/Prelude/BTreeMap.antt =====
-- `std::collections::BTreeMap` with `u64` keys: a list of entries in ascending order of the keys.
pub mod Laws
use Prim.Native.Nat.{ℕ, ◌<◌}
use mathlib.Core.List.{List, [], ◌∷◌}
use mathlib.Core.Option.{Option, none, some}
use libunwinder.Prelude.Tests.{ltb, leb, ◌==◌, if◌then◌else◌}
use libunwinder.Prelude.Lists.{All}

abbrev pub BTreeMap {ℓ} : Type ℓ → Type ℓ
BTreeMap V = List (ℕ × V)

module _ {ℓ} {V : Type ℓ} where
  unfoldable pub get : ℕ → BTreeMap V → Option V
  get k [] = none
  get k ((j, w) ∷ m) = if j == k then some w else get k m

  unfoldable pub insert : ℕ → V → BTreeMap V → BTreeMap V
  insert k v [] = (k, v) ∷ []
  insert k v ((j, w) ∷ m) =
      if ltb k j then (k, v) ∷ (j, w) ∷ m else if j == k then (k, v) ∷ m else (j, w) ∷ insert k v m

  unfoldable pub remove : ℕ → BTreeMap V → BTreeMap V
  remove k [] = []
  remove k ((j, w) ∷ m) = if j == k then m else (j, w) ∷ remove k m

  abbrev pub or_entry : Option (ℕ × V) → ℕ × V → ℕ × V
  or_entry none e = e
  or_entry (some e) _ = e

  -- `map.range(..=k).next_back()`
  unfoldable pub last_le : ℕ → BTreeMap V → Option (ℕ × V)
  last_le k [] = none
  last_le k ((j, w) ∷ m) = if leb j k then some (or_entry (last_le k m) (j, w)) else none

  unfoldable pub values : BTreeMap V → List V
  values [] = []
  values ((j, w) ∷ m) = w ∷ values m

  -- What the type keeps: no key twice, and the entries in order.
  abbrev pub IsAscending : BTreeMap V → Type 0
  IsAscending [] = Unit {0}
  IsAscending ((k, v) ∷ m) = All (λ (e : ℕ × V). k < e.0) m × IsAscending m
