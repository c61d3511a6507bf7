-- ===== src/Prelude/BTreeMap/Laws.antt =====
-- The laws of the ordered map.
use Prim.Native.Nat.{ℕ, ◌≤◌, ◌<◌}
use mathlib.Core.Path.{◌≡◌, refl, subst}
use mathlib.Core.Logic.{inl, inr}
use mathlib.Core.List.{[], ◌∷◌}
use mathlib.Core.Option.{Option, none, some, some-injective}
use native.Mathlib.Omega.{arith}
use libunwinder.Prelude.Tests.{leb, ◌==◌, if◌then◌else◌, leb→le, Bool-cases}
use libunwinder.Prelude.Lists.{All}
use libunwinder.Prelude.BTreeMap.{BTreeMap, get, insert, remove, last_le, or_entry, IsAscending}

module _ {V : Type 0} where
  pub get-insert :
      (j k : ℕ) (v : V) (m : BTreeMap V)
      → get j (insert k v m) ≡ (if k == j then some v else get j m)
  unfolding get insert
  get-insert j k v [] = refl
  get-insert j k v ((i, w) ∷ m) = ground (arith, get-insert j k v m)

  abbrev Above : ℕ → BTreeMap V → Type 0
  Above k m = All (λ (e : ℕ × V). k < e.0) m

  insert-Above : (i k : ℕ) (v : V) (m : BTreeMap V) → i < k → Above i m → Above i (insert k v m)
  unfolding insert
  insert-Above i k v [] h a = (h, tt)
  insert-Above i k v ((j, w) ∷ m) h a = ground (arith, insert-Above i k v m)

  Above-trans : (i k : ℕ) (m : BTreeMap V) → i ≤ k → Above k m → Above i m
  Above-trans i k [] h a = tt
  Above-trans i k ((j, w) ∷ m) h a = (omega arith, Above-trans i k m h a.1)

  remove-Above : (i k : ℕ) (m : BTreeMap V) → Above i m → Above i (remove k m)
  unfolding remove
  remove-Above i k [] a = tt
  remove-Above i k ((j, w) ∷ m) a = ground (arith, remove-Above i k m)

  pub get-Above : (j k : ℕ) (m : BTreeMap V) → j ≤ k → Above k m → get j m ≡ none
  unfolding get
  get-Above j k [] h a = refl
  get-Above j k ((i, w) ∷ m) h a = ground (arith, get-Above j k m)

  pub insert-IsAscending :
      (k : ℕ) (v : V) (m : BTreeMap V) → IsAscending m → IsAscending (insert k v m)
  unfolding insert
  insert-IsAscending k v [] a = (tt, tt)
  insert-IsAscending k v ((j, w) ∷ m) a =
      ground (arith, Above-trans k j m, insert-Above j k v m, insert-IsAscending k v m)

  pub remove-IsAscending : (k : ℕ) (m : BTreeMap V) → IsAscending m → IsAscending (remove k m)
  unfolding remove
  remove-IsAscending k [] a = tt
  remove-IsAscending k ((j, w) ∷ m) a = ground (arith, remove-Above j k m, remove-IsAscending k m)

  pub get-remove :
      (j k : ℕ) (m : BTreeMap V)
      → IsAscending m
      → get j (remove k m) ≡ (if k == j then none else get j m)
  unfolding get remove
  get-remove j k [] a = ground arith
  get-remove j k ((i, w) ∷ m) a = ground (arith, get-remove j k m, get-Above j i m)

  pub last_le-none :
      (k i : ℕ) (m : BTreeMap V) → IsAscending m → last_le k m ≡ none → i ≤ k → get i m ≡ none
  unfolding last_le get
  last_le-none k i [] a e h = refl
  last_le-none k i ((j, w) ∷ m) a e h = ground (arith, get-Above i j m)

  -- The entry found is the map's at the greatest key that is not above the bound.
  abbrev IsLast : ℕ → BTreeMap V → ℕ × V → Type 0
  IsLast k m e = (e.0 ≤ k) × (get e.0 m ≡ some e.1) × ((i : ℕ) → e.0 < i → i ≤ k → get i m ≡ none)

  IsLast-cons :
      (k i : ℕ) (w : V) (m : BTreeMap V) (found : Option (ℕ × V))
      → i ≤ k
      → IsAscending ((i, w) ∷ m)
      → last_le k m ≡ found
      → ((e : ℕ × V) → found ≡ some e → IsLast k m e)
      → IsLast k ((i, w) ∷ m) (or_entry found (i, w))
  unfolding get
  IsLast-cons k i w m none h a e below =
      (h, ground arith, λ n p q. ground (arith, last_le-none k n m))
  IsLast-cons k i w m (some (j, v)) h a e below =
      let (low, at, above) = below (j, v) refl in
      (low, ground (arith, get-Above j i m), λ n p q. ground (arith, get-Above j i m, above n))

  last_le-IsLast :
      (k : ℕ) (m : BTreeMap V) (e : ℕ × V) → IsAscending m → last_le k m ≡ some e → IsLast k m e
  unfolding last_le
  last_le-IsLast k [] e a h = cc
  last_le-IsLast k ((i, w) ∷ m) e a h = elim (Bool-cases (leb i k)) [
    | inl t ↦
        subst (IsLast k ((i, w) ∷ m)) (some-injective _ _ (rw t at h))
          (IsLast-cons k i w m (last_le k m) (leb→le i k t) a refl (λ x. last_le-IsLast k m x a.1))
    | inr f ↦ cc (h, f)
  ]

  pub last_le-some :
      (k : ℕ) (m : BTreeMap V) (j : ℕ) (w : V)
      → IsAscending m
      → last_le k m ≡ some (j, w)
      → (j ≤ k) × (get j m ≡ some w) × ((i : ℕ) → j < i → i ≤ k → get i m ≡ none)
  last_le-some k m j w a h = last_le-IsLast k m (j, w) a h
