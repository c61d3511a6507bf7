-- ===== src/Dwarf/Cursor/Seeks.antt =====
-- Parsers that may set the cursor past the bytes, where an entry's end is checked only later.
use mathlib.Core.Path.{subst}
use libunwinder.Prelude.{
  ◌≤◌, ◌≡◌, ◌≢◌, ◌∙◌, Bool, true, false, Result, ok, err, panic, and_then, arith, if◌then◌else◌,
}
use libunwinder.Error.{DwarfParseError}
use libunwinder.Dwarf.Cursor.{Cursor, Parser, IsInBounds, pure, ◌>>=◌}
use libunwinder.Dwarf.Cursor.Reads.{IsReader, Follows, MovesFrom, Follows-IsInBounds}

-- As `IsReader`, but the cursor may be set past the bytes: an entry's end is checked later.
abbrev pub GoesFrom {ℓ} : {A : Type ℓ} → Cursor → Result DwarfParseError (A × Cursor) → Type 0
GoesFrom c (ok r) = (r.1.bytes ≡ c.bytes) × (c.pos ≤ r.1.pos)
GoesFrom c (err e) = Unit
GoesFrom c panic = ⊥

pub record IsSeeker {ℓ} {A : Type ℓ} (m : Parser A) : Type ℓ where
  pub at : (c : Cursor) → IsInBounds c → GoesFrom c (m c)

GoesFrom-Follows :
    {B : Type 0} (c d : Cursor) (r : Result DwarfParseError (B × Cursor))
    → Follows c d
    → GoesFrom d r
    → GoesFrom c r
GoesFrom-Follows c d (ok r) f g = (g.0 ∙ f.same_bytes, omega arith)
GoesFrom-Follows c d (err e) f g = tt
GoesFrom-Follows c d panic f g = g

module _ {A B : Type 0} where
  GoesFrom-and_then :
      (c : Cursor) (r : Result DwarfParseError (A × Cursor)) (f : A → Parser B)
      → IsInBounds c
      → MovesFrom c r
      → ((a : A) → IsSeeker (f a))
      → GoesFrom c (and_then r (λ p. f p.0 p.1))
  GoesFrom-and_then c (ok (a, d)) f b m k =
      GoesFrom-Follows c d (f a d) m ((k a).at d (Follows-IsInBounds c d m b))
  GoesFrom-and_then c (err e) f b m k = tt
  GoesFrom-and_then c panic f b m k = m

  pub IsSeeker-bind :
      (m : Parser A) (f : A → Parser B)
      → IsReader m
      → ((a : A) → IsSeeker (f a))
      → IsSeeker (m >>= f)
  IsSeeker-bind m f r k = record { at = λ c b. GoesFrom-and_then c (m c) f b (r.at c b) k }

  GoesFrom-pure :
      (c : Cursor) (r : Result DwarfParseError (A × Cursor)) (g : A → B)
      → GoesFrom c r
      → GoesFrom c (and_then r (λ p. ok (g p.0, p.1)))
  GoesFrom-pure c (ok r) g h = h
  GoesFrom-pure c (err e) g h = tt
  GoesFrom-pure c panic g h = h

  pub IsSeeker-map : (m : Parser A) (g : A → B) → IsSeeker m → IsSeeker (m >>= λ a. pure (g a))
  IsSeeker-map m g k = record { at = λ c b. GoesFrom-pure c (m c) g (k.at c b) }

pub IsSeeker-reader : {A : Type 0} (m : Parser A) → IsReader m → IsSeeker m
IsSeeker-reader m r = record { at = λ c b. weaken c (m c) (r.at c b) }
  where
    weaken :
        {A : Type 0} (c : Cursor) (r : Result DwarfParseError (A × Cursor))
        → MovesFrom c r
        → GoesFrom c r
    weaken c (ok r) m = (m.same_bytes, m.forward)
    weaken c (err e) m = tt
    weaken c panic m = m

pub IsSeeker-if :
    {A : Type 0} (t : Bool) (m n : Parser A)
    → IsSeeker m
    → IsSeeker n
    → IsSeeker (if t then m else n)
IsSeeker-if true m n k l = k
IsSeeker-if false m n k l = l

-- What `IsSeeker` says of one outcome.
module _ {A : Type 0} (m : Parser A) (k : IsSeeker m) (c : Cursor) (b : IsInBounds c) where
  pub IsSeeker-ne-panic : m c ≢ panic
  IsSeeker-ne-panic e = subst (GoesFrom c) e (k.at c b)

  pub IsSeeker-goes : (a : A) (d : Cursor) → m c ≡ ok (a, d) → (d.bytes ≡ c.bytes) × (c.pos ≤ d.pos)
  IsSeeker-goes a d e = subst (GoesFrom c) e (k.at c b)
