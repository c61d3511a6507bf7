-- ===== src/Benchmark/LoadRange.antt =====
-- `load_range`: the addresses that the loaded segments of an object file span.
use Prim.Native.Nat.{min, max}
use libunwinder.Prelude.{
  ℕ, ◌≤◌, ◌≡◌, ◌≢◌, refl, arith, List, [], ◌∷◌, Option, none, some, ltb, ◌==◌, if◌then◌else◌,
  saturating_add, suc, get_elem?, All, u64_max, Bool-cases, inl, inr, ◌⊎◌, lt_cases,
}
use libunwinder.Module.{Range}

-- `object::Segment`, by what is asked of it.
pub record Segment : Type 0 where
  pub address : ℕ
  pub size : ℕ

abbrev pub widen : Segment → Range → Range
widen seg r = if seg.size == 0 then r else record {
  start = min r.start seg.address;
  end = max r.end (saturating_add seg.address seg.size);
}

unfoldable pub widen_all : List Segment → Range → Range
widen_all [] r = r
widen_all (seg ∷ segs) r = widen_all segs (widen seg r)

-- `(start < end).then_some(start..end)`
abbrev pub nonempty : Range → Option Range
nonempty r = if ltb r.start r.end then some r else none

unfoldable pub load_range : List Segment → Option Range
load_range segs = nonempty (widen_all segs (record { start = u64_max; end = 0 }))

-- The addresses of a segment that does not wrap around lie in the range, unless it has none.
abbrev pub IsWithin : Range → Segment → Type 0
IsWithin r seg =
    seg.size ≢ 0 → (r.start ≤ seg.address) × (saturating_add seg.address seg.size ≤ r.end)

widen_all-grows :
    (segs : List Segment) (r : Range)
    → ((widen_all segs r).start ≤ r.start) × (r.end ≤ (widen_all segs r).end)
unfolding widen_all
widen_all-grows [] r = (omega arith, omega arith)
widen_all-grows (seg ∷ segs) r = (
  ground (arith, (widen_all-grows segs (widen seg r)).0),
  ground (arith, (widen_all-grows segs (widen seg r)).1),
)

widen_all-fits :
    (segs : List Segment) (r : Range) → r.end ≤ u64_max → (widen_all segs r).end ≤ u64_max
unfolding widen_all
widen_all-fits [] r h = h
widen_all-fits (seg ∷ segs) r h = widen_all-fits segs (widen seg r) (ground (arith, h))

widen_all-IsWithin : (segs : List Segment) (r : Range) → All (IsWithin (widen_all segs r)) segs
unfolding widen_all
widen_all-IsWithin [] r = tt
widen_all-IsWithin (seg ∷ segs) r = (
  λ ne. (
    ground (arith, (widen_all-grows segs (widen seg r)).0),
    ground (arith, (widen_all-grows segs (widen seg r)).1),
  ),
  widen_all-IsWithin segs (widen seg r),
)

-- A segment of the list that is not empty and has the property.
abbrev pub Attains : (Segment → Type 0) → List Segment → Type 0
Attains P segs = (i : ℕ) × (seg : Segment) × (get_elem? segs i ≡ some seg) × (seg.size ≢ 0) × P seg

further :
    {P : Segment → Type 0} (seg : Segment) (segs : List Segment)
    → Attains P segs
    → Attains P (seg ∷ segs)
further seg segs (i, found, e, full, held) = (suc i, found, e, full, held)

widen_all-start :
    (segs : List Segment) (r : Range)
    → ((widen_all segs r).start ≡ r.start)
      ⊎ Attains (λ seg. seg.address ≡ (widen_all segs r).start) segs
unfolding widen_all
widen_all-start [] r = inl refl
widen_all-start (seg ∷ segs) r = elim (widen_all-start segs (widen seg r)) [
  | inr found ↦ inr (further seg segs found)
  | inl same ↦ elim (Bool-cases (seg.size == 0)) [
    | inl empty ↦ inl (ground arith)
    | inr full ↦ elim (lt_cases seg.address r.start) [
      | inl lt ↦ inr (0, seg, refl, ground arith, ground arith)
      | inr ge ↦ inl (ground arith)
    ]
  ]
]

widen_all-end :
    (segs : List Segment) (r : Range)
    → ((widen_all segs r).end ≡ r.end)
      ⊎ Attains (λ seg. saturating_add seg.address seg.size ≡ (widen_all segs r).end) segs
unfolding widen_all
widen_all-end [] r = inl refl
widen_all-end (seg ∷ segs) r = elim (widen_all-end segs (widen seg r)) [
  | inr found ↦ inr (further seg segs found)
  | inl same ↦ elim (Bool-cases (seg.size == 0)) [
    | inl empty ↦ inl (ground arith)
    | inr full ↦ elim (lt_cases r.end (saturating_add seg.address seg.size)) [
      | inl lt ↦ inr (0, seg, refl, ground arith, ground arith)
      | inr le ↦ inl (ground arith)
    ]
  ]
]

-- The least range with every segment that is not empty in it.
pub record IsHull (segs : List Segment) (r : Range) : Type 0 where
  pub within : All (IsWithin r) segs
  pub first : Attains (λ seg. seg.address ≡ r.start) segs
  pub last : Attains (λ seg. saturating_add seg.address seg.size ≡ r.end) segs

-- The segments of an object without code: no addresses, or only the last one there is.
abbrev pub IsVoid : Segment → Type 0
IsVoid seg = (seg.size ≡ 0) ⊎ (u64_max ≤ seg.address)

All-IsVoid :
    (r : Range) (segs : List Segment) → r.end ≤ r.start → All (IsWithin r) segs → All IsVoid segs
All-IsVoid r [] h w = tt
All-IsVoid r (seg ∷ segs) h w = (
  elim (Bool-cases (seg.size == 0)) [
    | inl empty ↦ inl (ground arith)
    | inr full ↦ inr (ground (arith, w.0))
  ],
  All-IsVoid r segs h w.1,
)

-- `load_range` gives the least range that has every nonempty segment in it, as far as the address
-- space goes; it gives none only if each segment is empty or starts at the last address.
pub load_range-IsHull :
    (segs : List Segment)
    → ((r : Range) × (load_range segs ≡ some r) × IsHull segs r)
      ⊎ ((load_range segs ≡ none) × All IsVoid segs)
unfolding load_range
load_range-IsHull segs = elim (lt_cases r.start r.end) [
  | inl lt ↦ inl (
    r,
    ground arith,
    record {
      within = widen_all-IsWithin segs initial;
      first = elim (widen_all-start segs initial) [
        | inl same ↦ absurd (omega (arith, widen_all-fits segs initial (omega arith)))
        | inr found ↦ found
      ];
      last = elim (widen_all-end segs initial) [
        | inl same ↦ absurd (omega arith)
        | inr found ↦ found
      ];
    },
  )
  | inr ge ↦ inr (ground arith, All-IsVoid r segs (omega arith) (widen_all-IsWithin segs initial))
]
  where
    initial : Range
    initial = record { start = u64_max; end = 0 }

    r : Range
    r = widen_all segs initial
