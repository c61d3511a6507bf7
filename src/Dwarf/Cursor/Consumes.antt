-- ===== src/Dwarf/Cursor/Consumes.antt =====
-- What every parser that reads at least one byte keeps besides: where it succeeds it stands behind the
-- cursor that it started from.
use libunwinder.Prelude.{
  ℕ, ◌+◌, ◌≤◌, ◌<◌, arith, Bool, true, false, ok, err, panic, Result, and_then, leb, length, take,
  drop, if◌then◌else◌, Option-cases, get_elem?, inl, inr,
}
use libunwinder.Error.{DwarfParseError, DwarfParseErrorKind, truncated}
use libunwinder.Dwarf.Cursor.{
  Cursor, Parser, fail, ◌>>=◌, IsInBounds, read_u8, read_slice, read_u16, read_u32, read_u64,
}
use libunwinder.Dwarf.Cursor.Reads.{
  IsReader, Follows, MovesFrom, IsReader-pure, IsReader-fail, IsReader-else, IsReader-bind,
  Follows-IsInBounds, read_u8-IsReader, read_slice-IsReader, read_slice_lem, read_u8-some,
  read_u8-none,
}

abbrev pub Passes {ℓ} : {A : Type ℓ} → Cursor → Result DwarfParseError (A × Cursor) → Type 0
Passes c (ok r) = c.pos < r.1.pos
Passes c (err e) = Unit
Passes c panic = Unit

-- A reader that moves forward by a byte at least.
pub record IsConsumer {ℓ} {A : Type ℓ} (m : Parser A) : Type ℓ where
  pub reader : IsReader m
  pub past : (c : Cursor) → IsInBounds c → Passes c (m c)

module _ {ℓ} {A : Type ℓ} where
  pub IsConsumer-fail : (kind : DwarfParseErrorKind) → IsConsumer (fail {A = A} kind)
  IsConsumer-fail kind = record { reader = IsReader-fail kind; past = λ c b. tt }

  pub IsConsumer-else :
      (t : Bool) (m n : Parser A) → IsConsumer m → IsConsumer n → IsConsumer (if t then m else n)
  IsConsumer-else true m n km kn = km
  IsConsumer-else false m n km kn = kn

module _ {ℓ} {A B : Type ℓ} where
  Passes-before :
      (c : Cursor) (r : Result DwarfParseError (A × Cursor)) (f : A → Parser B)
      → IsInBounds c
      → MovesFrom c r
      → Passes c r
      → ((a : A) → IsReader (f a))
      → Passes c (and_then r (λ p. f p.0 p.1))
  Passes-before c (ok (a, d)) f b m up kf = later (f a d) ((kf a).at d (Follows-IsInBounds c d m b))
    where
      later : (r : Result DwarfParseError (B × Cursor)) → MovesFrom d r → Passes c r
      later (ok (x, e)) n = let on = n.forward in omega arith
      later (err x) n = tt
      later panic n = tt
  Passes-before c (err e) f b m up kf = tt
  Passes-before c panic f b m up kf = tt

  Passes-behind :
      (c : Cursor) (r : Result DwarfParseError (A × Cursor)) (f : A → Parser B)
      → IsInBounds c
      → MovesFrom c r
      → ((a : A) → IsConsumer (f a))
      → Passes c (and_then r (λ p. f p.0 p.1))
  Passes-behind c (ok (a, d)) f b m kf = later (f a d) ((kf a).past d (Follows-IsInBounds c d m b))
    where
      later : (r : Result DwarfParseError (B × Cursor)) → Passes d r → Passes c r
      later (ok (x, e)) n = let on = m.forward in omega arith
      later (err x) n = tt
      later panic n = tt
  Passes-behind c (err e) f b m kf = tt
  Passes-behind c panic f b m kf = tt

  -- A chain of reads whose first one moves forward.
  pub IsConsumer-bind :
      (m : Parser A) (f : A → Parser B)
      → IsConsumer m
      → ((a : A) → IsReader (f a))
      → IsConsumer (m >>= f)
  IsConsumer-bind m f km kf = record {
    reader = IsReader-bind m f km.reader kf;
    past = λ c b. Passes-before c (m c) f b (km.reader.at c b) (km.past c b) kf;
  }

  -- A chain of reads whose next one moves forward.
  pub IsConsumer-after :
      (m : Parser A) (f : A → Parser B)
      → IsReader m
      → ((a : A) → IsConsumer (f a))
      → IsConsumer (m >>= f)
  IsConsumer-after m f km kf = record {
    reader = IsReader-bind m f km (λ a. (kf a).reader);
    past = λ c b. Passes-behind c (m c) f b (km.at c b) kf;
  }

pub read_u8-IsConsumer : IsConsumer read_u8
read_u8-IsConsumer = record {
  reader = read_u8-IsReader;
  past = λ c b. elim (Option-cases (get_elem? c.bytes c.pos)) [
    | inl e ↦ rw (read_u8-none c b e) tt
    | inr (v, e) ↦ rw (read_u8-some c v b e) (omega arith)
  ];
}

read_slice-IsConsumer : (n : ℕ) → 0 < n → n ≤ 8 → IsConsumer (read_slice n)
read_slice-IsConsumer n up h = record {
  reader = read_slice-IsReader n h;
  past = λ c b. rw (read_slice_lem n c h b) (bounded c);
}
  where
    bounded :
        (c : Cursor)
        → Passes c (
            if leb (c.pos + n) (length c.bytes)
            then ok (take n (drop c.pos c.bytes), record c { pos = c.pos + n })
            else fail (truncated (c.pos + n) (length c.bytes)) c)
    bounded c = ground arith

pub read_u16-IsConsumer : IsConsumer read_u16
unfolding read_u16
read_u16-IsConsumer =
    IsConsumer-bind (read_slice 2) _ (read_slice-IsConsumer 2 (omega arith) (omega arith))
      (λ s. IsReader-pure _)

pub read_u32-IsConsumer : IsConsumer read_u32
unfolding read_u32
read_u32-IsConsumer =
    IsConsumer-bind (read_slice 4) _ (read_slice-IsConsumer 4 (omega arith) (omega arith))
      (λ s. IsReader-pure _)

pub read_u64-IsConsumer : IsConsumer read_u64
unfolding read_u64
read_u64-IsConsumer =
    IsConsumer-bind (read_slice 8) _ (read_slice-IsConsumer 8 (omega arith) (omega arith))
      (λ s. IsReader-pure _)

-- `search` with these, and the rules of readers, proves it of a chain of reads.
pub ruleset consumer_rules = (
  IsConsumer-fail, IsConsumer-else, IsConsumer-bind, IsReader-pure, read_u16-IsConsumer,
  read_u32-IsConsumer, read_u64-IsConsumer,
)
