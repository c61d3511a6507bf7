-- ===== src/Dwarf/Cursor/Stands.antt =====
-- Reads of bytes that are known to stand at the cursor.
use libunwinder.Prelude.{
  ℕ, ◌+◌, ◌≤◌, ◌++◌, ◌∷◌, sym, ap, get_elem?-drop, drop-drop, drop-append, take-append,
  length-append, length-drop, ◌≡◌, ◌∙◌, le→leb, drop, List, ok, length, arith,
}
use libunwinder.Dwarf.Cursor.{Cursor, IsInBounds, read_u8, read_slice}
use libunwinder.Dwarf.Cursor.Reads.{read_u8-some, read_slice_lem}

-- The bytes that stand at the cursor, and what is left of them behind a prefix.
abbrev pub Stands : Cursor → List ℕ → Type 0
Stands c xs = drop c.pos c.bytes ≡ xs

pub Stands-behind :
    (c : Cursor) (xs ys : List ℕ)
    → Stands c (xs ++ ys)
    → Stands (record c { pos = c.pos + length xs }) ys
Stands-behind c xs ys h =
    sym (drop-drop (length xs) c.pos c.bytes) ∙ ap (drop (length xs)) h ∙ drop-append xs ys

pub Stands-fits :
    (c : Cursor) (xs ys : List ℕ)
    → IsInBounds c
    → Stands c (xs ++ ys)
    → c.pos + length xs ≤ length c.bytes
Stands-fits c xs ys b h =
    omega (arith, length-drop c.pos c.bytes, ap (length {A = ℕ}) h, length-append xs ys, b.within)

pub read_u8_at :
    (c : Cursor) (v : ℕ) (rest : List ℕ)
    → IsInBounds c
    → Stands c (v ∷ rest)
    → read_u8 c ≡ ok (v, record c { pos = c.pos + 1 })
read_u8_at c v rest b h = read_u8-some c v b (get_elem?-drop c.pos c.bytes h)

pub read_slice_at :
    (n : ℕ) (c : Cursor) (xs rest : List ℕ)
    → n ≤ 8
    → length xs ≡ n
    → IsInBounds c
    → Stands c (xs ++ rest)
    → read_slice n c ≡ ok (xs, record c { pos = c.pos + n })
read_slice_at n c xs rest k e b h =
    rw
      (
        read_slice_lem n c k b,
        le→leb (c.pos + n) (length c.bytes) (omega (arith, Stands-fits c xs rest b h)),
        h,
        ← e,
      )
      (ap (λ (t : List ℕ). ok (t, record c { pos = c.pos + length xs })) (take-append xs rest))
