-- ===== src/Dwarf/Cursor/Reads.antt =====
-- What every parser built from the cursor's reads keeps: it stays inside the bytes, moves forward,
-- and no check of the index arithmetic fails.
use mathlib.Core.Path.{subst}
use libunwinder.Prelude.{
  ℕ, ◌+◌, ◌-◌, ◌≤◌, ap, ◌≡◌, ◌≢◌, refl, ◌∙◌, inl, inr, Option-cases, lt_of_get_elem?, Bool, leb,
  take, drop, true, false, none, some, Result, ok, err, panic, and_then, length, get_elem?, arith,
  if◌then◌else◌,
}
use libunwinder.Error.{DwarfParseError, DwarfParseErrorKind, truncated}
use libunwinder.Dwarf.Cursor.{
  Cursor, Parser, pure, fail, fail_at, ◌>>=◌, here, avma_here, lift, IsInBounds, read_u8,
  read_slice, read_u16, read_u32, read_u64,
}

-- `d` is `c` moved forward inside the same bytes.
pub record Follows (c d : Cursor) : Type 0 where
  pub same_bytes : d.bytes ≡ c.bytes
  pub same_base : d.avma_base ≡ c.avma_base
  pub forward : c.pos ≤ d.pos
  pub within : d.pos ≤ length d.bytes

abbrev pub MovesFrom {ℓ} : {A : Type ℓ} → Cursor → Result DwarfParseError (A × Cursor) → Type 0
MovesFrom c (ok r) = Follows c r.1
MovesFrom c (err e) = Unit
MovesFrom c panic = ⊥

pub record IsReader {ℓ} {A : Type ℓ} (m : Parser A) : Type ℓ where
  pub at : (c : Cursor) → IsInBounds c → MovesFrom c (m c)

module _ {ℓ} {A : Type ℓ} where
  pub IsReader-pure : (a : A) → IsReader (pure a)
  IsReader-pure a = record {
    at = λ c b. record {
      same_bytes = refl;
      same_base = refl;
      forward = omega arith;
      within = b.within;
    };
  }

  pub IsReader-fail : (kind : DwarfParseErrorKind) → IsReader (fail {A = A} kind)
  IsReader-fail kind = record { at = λ c b. tt }

  pub IsReader-fail_at :
      (offset : ℕ) (kind : DwarfParseErrorKind) → IsReader (fail_at {A = A} offset kind)
  IsReader-fail_at offset kind = record { at = λ c b. tt }

  -- A branch may use what its test says.
  pub IsReader-if :
      (t : Bool) (m n : Parser A)
      → (t ≡ true → IsReader m)
      → (t ≡ false → IsReader n)
      → IsReader (if t then m else n)
  IsReader-if true m n km kn = km refl
  IsReader-if false m n km kn = kn refl

  pub IsReader-else :
      (t : Bool) (m n : Parser A) → IsReader m → IsReader n → IsReader (if t then m else n)
  IsReader-else t m n km kn = IsReader-if t m n (λ _. km) (λ _. kn)

pub Follows-IsInBounds : (c d : Cursor) → Follows c d → IsInBounds c → IsInBounds d
Follows-IsInBounds c d f b = record { within = f.within; small = rw f.same_bytes b.small }

Follows-trans : (c d e : Cursor) → Follows c d → Follows d e → Follows c e
Follows-trans c d e f g = record {
  same_bytes = g.same_bytes ∙ f.same_bytes;
  same_base = g.same_base ∙ f.same_base;
  forward = omega arith;
  within = g.within;
}

module _ {ℓ} {A B : Type ℓ} where
  MovesFrom-and_then :
      (c : Cursor) (r : Result DwarfParseError (A × Cursor)) (f : A → Parser B)
      → IsInBounds c
      → MovesFrom c r
      → ((a : A) → IsReader (f a))
      → MovesFrom c (and_then r (λ p. f p.0 p.1))
  MovesFrom-and_then c (ok (a, d)) f b m kf =
      MovesFrom-trans c d (f a d) m ((kf a).at d (Follows-IsInBounds c d m b))
    where
      MovesFrom-trans :
          (c d : Cursor) (r : Result DwarfParseError (B × Cursor))
          → Follows c d
          → MovesFrom d r
          → MovesFrom c r
      MovesFrom-trans c d (ok (x, e)) m n = Follows-trans c d e m n
      MovesFrom-trans c d (err x) m n = tt
      MovesFrom-trans c d panic m n = n
  MovesFrom-and_then c (err e) f b m kf = tt
  MovesFrom-and_then c panic f b m kf = m

  pub IsReader-bind :
      (m : Parser A) (f : A → Parser B)
      → IsReader m
      → ((a : A) → IsReader (f a))
      → IsReader (m >>= f)
  IsReader-bind m f km kf = record { at = λ c b. MovesFrom-and_then c (m c) f b (km.at c b) kf }

pub IsReader-here : IsReader here
IsReader-here = record {
  at = λ c b. record {
    same_bytes = refl;
    same_base = refl;
    forward = omega arith;
    within = b.within;
  };
}

pub read_u8-some :
    (c : Cursor) (v : ℕ)
    → IsInBounds c
    → get_elem? c.bytes c.pos ≡ some v
    → read_u8 c ≡ ok (v, record c { pos = c.pos + 1 })
unfolding read_u8
read_u8-some c v b e = ground (arith, lt_of_get_elem? c.bytes c.pos e)

pub read_u8-none :
    (c : Cursor)
    → IsInBounds c
    → get_elem? c.bytes c.pos ≡ none
    → read_u8 c ≡ fail (truncated (c.pos + 1) (length c.bytes)) c
unfolding read_u8
read_u8-none c b e = ground arith

pub IsReader-avma_here : IsReader avma_here
IsReader-avma_here = record {
  at = λ c b. record {
    same_bytes = refl;
    same_base = refl;
    forward = omega arith;
    within = b.within;
  };
}

pub IsReader-lift : {A : Type 0} (r : Result DwarfParseError A) → r ≢ panic → IsReader (lift r)
IsReader-lift (ok a) h = IsReader-pure a
IsReader-lift (err e) h = record { at = λ c b. tt }
IsReader-lift panic h = absurd (h refl)

pub read_u8-IsReader : IsReader read_u8
read_u8-IsReader = record {
  at = λ c b. elim (Option-cases (get_elem? c.bytes c.pos)) [
    | inl e ↦ rw (read_u8-none c b e) tt
    | inr (v, e) ↦ rw (read_u8-some c v b e) (record {
      same_bytes = refl;
      same_base = refl;
      forward = omega arith;
      within = omega (arith, lt_of_get_elem? c.bytes c.pos e);
    })
  ];
}

-- A slice is there exactly when it ends inside the bytes.
pub read_slice_lem :
    (n : ℕ) (c : Cursor)
    → n ≤ 8
    → IsInBounds c
    → read_slice n c ≡ (
        if leb (c.pos + n) (length c.bytes)
        then ok (take n (drop c.pos c.bytes), record c { pos = c.pos + n })
        else fail (truncated (c.pos + n) (length c.bytes)) c)
unfolding read_slice
read_slice_lem n c h b = ground (arith, ap (λ (k : ℕ). take k (drop c.pos c.bytes)) same)
  where
    same : c.pos + n - c.pos ≡ n
    same = omega arith

pub read_slice-IsReader : (n : ℕ) → n ≤ 8 → IsReader (read_slice n)
read_slice-IsReader n h = record { at = λ c b. rw (read_slice_lem n c h b) (bounded c) }
  where
    bounded :
        (c : Cursor)
        → MovesFrom c (
            if leb (c.pos + n) (length c.bytes)
            then ok (take n (drop c.pos c.bytes), record c { pos = c.pos + n })
            else fail (truncated (c.pos + n) (length c.bytes)) c)
    bounded c = ground arith

pub read_u16-IsReader : IsReader read_u16
unfolding read_u16
read_u16-IsReader =
    IsReader-bind (read_slice 2) _ (read_slice-IsReader 2 (omega arith)) (λ s. IsReader-pure _)

pub read_u32-IsReader : IsReader read_u32
unfolding read_u32
read_u32-IsReader =
    IsReader-bind (read_slice 4) _ (read_slice-IsReader 4 (omega arith)) (λ s. IsReader-pure _)

pub read_u64-IsReader : IsReader read_u64
unfolding read_u64
read_u64-IsReader =
    IsReader-bind (read_slice 8) _ (read_slice-IsReader 8 (omega arith)) (λ s. IsReader-pure _)

-- `search` with these proves it of a chain of reads.
pub ruleset reader_rules = (
  IsReader-pure, IsReader-fail, IsReader-fail_at, IsReader-else, IsReader-bind, IsReader-avma_here,
  IsReader-here, read_u8-IsReader, read_u16-IsReader, read_u32-IsReader, read_u64-IsReader,
)

-- What `IsReader` says of one outcome.
module _ {ℓ} {A : Type ℓ} (m : Parser A) (r : IsReader m) (c : Cursor) (b : IsInBounds c) where
  pub IsReader-ne-panic : m c ≢ panic
  IsReader-ne-panic e = subst (MovesFrom c) e (r.at c b)

  pub IsReader-Follows : (a : A) (d : Cursor) → m c ≡ ok (a, d) → Follows c d
  IsReader-Follows a d e = subst (MovesFrom c) e (r.at c b)
