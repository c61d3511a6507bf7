-- ===== src/Prelude/Outcome.antt =====
-- The result of fallible Rust code.
use mathlib.Core.Path.{◌≡◌, refl}
use mathlib.Core.Logic.{◌⊎◌, inl, inr}
use mathlib.Core.Option.{Option, none, some}
use Prim.Native.Nat.{ℕ, ◌+◌, ◌-◌, ◌^◌}
use libunwinder.Prelude.Tests.{leb, ltb, if◌then◌else◌}

-- `panic` is an arithmetic operation that a build with overflow checks stops, or a slice index out
-- of range; and what a loop gives when its fuel has run out, which the loops' theorems exclude.
pub data Result {ℓ κ} (E : Type ℓ) (A : Type κ) : Type (ℓ ⊔ κ) where
  ok : A → Result E A
  err : E → Result E A
  panic : Result E A

abbrev pub and_then {ℓ κ μ} :
    {E : Type ℓ} {A : Type κ} {B : Type μ} → Result E A → (A → Result E B) → Result E B
and_then (ok a) f = f a
and_then (err e) f = err e
and_then panic f = panic

-- `option.ok_or(e)`
abbrev pub ok_or {ℓ κ} : {E : Type ℓ} {A : Type κ} → Option A → E → Result E A
ok_or none e = err e
ok_or (some a) e = ok a

abbrev pub map_err {ℓ κ μ} :
    {E : Type ℓ} {F : Type κ} {A : Type μ} → (E → F) → Result E A → Result F A
map_err f (ok a) = ok a
map_err f (err e) = err (f e)
map_err f panic = panic

-- `a + b` and `a - b` on `usize`
abbrev pub usize_add {ℓ} : {E : Type ℓ} → ℕ → ℕ → Result E ℕ
usize_add a b = if ltb (a + b) (2 ^ 64) then ok (a + b) else panic

abbrev pub usize_sub {ℓ} : {E : Type ℓ} → ℕ → ℕ → Result E ℕ
usize_sub a b = if leb b a then ok (a - b) else panic

-- Inversion of a chain that succeeds, and of one that panics.
pub and_then-eq-ok {ℓ κ μ} :
    {E : Type ℓ} {A : Type κ} {B : Type μ} (m : Result E A) (f : A → Result E B) {b : B}
    → and_then m f ≡ ok b
    → (a : A) × (m ≡ ok a) × (f a ≡ ok b)
and_then-eq-ok (ok a) f h = (a, refl, h)
and_then-eq-ok (err e) f h = cc
and_then-eq-ok panic f h = cc

pub and_then-eq-panic {ℓ κ μ} :
    {E : Type ℓ} {A : Type κ} {B : Type μ} (m : Result E A) (f : A → Result E B)
    → and_then m f ≡ panic
    → (m ≡ panic) ⊎ ((a : A) × (m ≡ ok a) × (f a ≡ panic))
and_then-eq-panic (ok a) f h = inr (a, refl, h)
and_then-eq-panic (err e) f h = cc
and_then-eq-panic panic f h = inl refl

pub map_err-eq-ok {ℓ κ μ} :
    {E : Type ℓ} {F : Type κ} {A : Type μ} (f : E → F) (r : Result E A) (a : A)
    → map_err f r ≡ ok a
    → r ≡ ok a
map_err-eq-ok f (ok b) a h = cc
map_err-eq-ok f (err e) a h = cc
map_err-eq-ok f panic a h = cc
