-- ===== src/EhFrameTable/Search.antt =====
-- The binary search of `lookup`.
use native.Mathlib.Decide.{dec_lt}
use libunwinder.Prelude.{
  ℕ, zero, suc, ◌+◌, ◌-◌, ◌*◌, ◌/◌, ◌≤◌, ◌<◌, ◌≡◌, ◌⊎◌, refl, arith, List, Option, none, some, ◌==◌,
  length, get_range, take, drop, ap, ◌∙◌, false,
}
use libunwinder.EhFrameTable.{EhFrameTable, entry_pc, entry_fde, search_loop, pick, lookup}

-- On any table the search ends at an entry of the range, which is the first of it or starts at most
-- at `ip`, and whose successor is out of the range or starts behind `ip`.
pub search_loop-split :
    (pc : ℕ → ℕ) (ip fuel lo hi : ℕ)
    → lo < hi
    → hi - lo ≤ fuel
    → (lo ≤ search_loop pc ip fuel lo hi)
      × (search_loop pc ip fuel lo hi < hi)
      × ((search_loop pc ip fuel lo hi ≡ lo) ⊎ (pc (search_loop pc ip fuel lo hi) ≤ ip))
      × ((suc (search_loop pc ip fuel lo hi) ≡ hi) ⊎ (ip < pc (suc (search_loop pc ip fuel lo hi))))
unfolding search_loop
search_loop-split pc ip zero lo hi h f = absurd (omega arith)
search_loop-split pc ip (suc fuel) lo hi h f =
    let mid = lo + (hi - lo) / 2 in
    ground (arith, search_loop-split pc ip fuel mid hi, search_loop-split pc ip fuel lo mid)

-- The choice that `lookup` makes, over any table of addresses.
module _ (pc fde : ℕ → ℕ) (ip n : ℕ) (nonempty : 0 < n) where
  found : ℕ
  found = search_loop pc ip n 0 n

  choice : Option (ℕ × ℕ)
  choice = pick pc fde ip found

  choice-some :
      (p f : ℕ)
      → choice ≡ some (p, f)
      → (i : ℕ) × (i < n) × (p ≡ pc i) × (f ≡ fde i) × (p ≤ ip) × ((suc i ≡ n) ⊎ (ip < pc (suc i)))
  unfolding choice pick found
  choice-some p f h = (
    found,
    ground (arith, search_loop-split pc ip n 0 n),
    ground arith,
    ground arith,
    ground arith,
    ground (arith, search_loop-split pc ip n 0 n),
  )

  module _ (sorted : (i j : ℕ) → i ≤ j → j < n → pc i ≤ pc j) where
    found-nearest : (i : ℕ) → i < n → pc i ≤ ip → ((j : ℕ) → i < j → j < n → ip < pc j) → found ≡ i
    unfolding found
    found-nearest i h low high = ground (
      arith,
      search_loop-split pc ip n 0 n,
      sorted (suc (search_loop pc ip n 0 n)) i,
      high (search_loop pc ip n 0 n),
    )

    choice-nearest :
        (i : ℕ)
        → i < n
        → pc i ≤ ip
        → ((j : ℕ) → i < j → j < n → ip < pc j)
        → choice ≡ some (pc i, fde i)
    unfolding choice pick
    choice-nearest i h low high = rw (found-nearest i h low high) (ground arith)

    choice-none : choice ≡ none → (j : ℕ) → j < n → ip < pc j
    unfolding choice pick found
    choice-none h j k =
        ground
          (arith, search_loop-split pc ip n 0 n, sorted 0 j, sorted (search_loop pc ip n 0 n) j)

-- The bytes of a table, and the addresses that its entries name.
abbrev pub table_bytes : EhFrameTable → List ℕ → List ℕ
table_bytes t hdr = take (t.entry_count * 8) (drop t.table_data_offset hdr)

unfoldable pub pc_at : EhFrameTable → List ℕ → ℕ → ℕ
pc_at t hdr i = entry_pc t.eh_frame_hdr_avma (table_bytes t hdr) i

unfoldable pub fde_at : EhFrameTable → List ℕ → ℕ → ℕ
fde_at t hdr i = entry_fde t.eh_frame_hdr_avma (table_bytes t hdr) i

-- The table lies inside the header.
abbrev pub Fits : EhFrameTable → List ℕ → Type 0
Fits t hdr = t.table_data_offset + t.entry_count * 8 ≤ length hdr

abbrev pub IsSorted : EhFrameTable → List ℕ → Type 0
IsSorted t hdr = (i j : ℕ) → i ≤ j → j < t.entry_count → pc_at t hdr i ≤ pc_at t hdr j

module _ (t : EhFrameTable) (hdr : List ℕ) (ip : ℕ) where
  lookup-choice :
      (nonempty : 0 < t.entry_count)
      → Fits t hdr
      → lookup t hdr ip ≡ choice (pc_at t hdr) (fde_at t hdr) ip t.entry_count nonempty
  unfolding lookup choice found pc_at fde_at
  lookup-choice n f = rw (busy, inside) refl
    where
      busy : (t.entry_count == 0) ≡ false
      busy = ground arith

      same : t.table_data_offset + t.entry_count * 8 - t.table_data_offset ≡ t.entry_count * 8
      same = omega arith

      inside :
          get_range hdr t.table_data_offset (t.table_data_offset + t.entry_count * 8)
          ≡ some (table_bytes t hdr)
      inside = ground (arith, ap (λ (k : ℕ). take k (drop t.table_data_offset hdr)) same)

  lookup_empty : t.entry_count ≡ 0 → lookup t hdr ip ≡ none
  unfolding lookup
  lookup_empty e = rw e refl

  nonempty_of_some : (e : ℕ × ℕ) → lookup t hdr ip ≡ some e → 0 < t.entry_count
  nonempty_of_some e h = elim (dec_lt 0 t.entry_count) [
    | yes n ↦ n
    | no n ↦ cc (h, lookup_empty (omega arith))
  ]

  -- What `lookup` finds in any table that lies inside the header, sorted or not, is an entry of it
  -- that starts at most at the address, and the entry behind it, if there is one, starts behind
  -- the address.
  pub lookup-some :
      (pc fde : ℕ)
      → Fits t hdr
      → lookup t hdr ip ≡ some (pc, fde)
      → (i : ℕ) × (i < t.entry_count)
        × (pc ≡ pc_at t hdr i)
        × (fde ≡ fde_at t hdr i)
        × (pc ≤ ip)
        × ((suc i ≡ t.entry_count) ⊎ (ip < pc_at t hdr (suc i)))
  lookup-some pc fde f h =
      let n = nonempty_of_some (pc, fde) h in
      choice-some (pc_at t hdr) (fde_at t hdr) ip t.entry_count n pc fde
        (rw (lookup-choice n f) at h)

  -- In a sorted table that lies inside the header, `lookup` finds the last entry that starts at
  -- most at the address.
  pub lookup-nearest :
      (i : ℕ)
      → Fits t hdr
      → IsSorted t hdr
      → i < t.entry_count
      → pc_at t hdr i ≤ ip
      → ((j : ℕ) → i < j → j < t.entry_count → ip < pc_at t hdr j)
      → lookup t hdr ip ≡ some (pc_at t hdr i, fde_at t hdr i)
  lookup-nearest i f sorted h low high =
      let n : 0 < t.entry_count = omega arith in
      lookup-choice n f
      ∙ choice-nearest (pc_at t hdr) (fde_at t hdr) ip t.entry_count n sorted i h low high

  -- In a sorted table that lies inside the header `lookup` finds nothing only if every entry
  -- starts behind the address.
  pub lookup-none :
      Fits t hdr
      → IsSorted t hdr
      → lookup t hdr ip ≡ none
      → (j : ℕ) → j < t.entry_count
      → ip < pc_at t hdr j
  lookup-none f sorted h j k =
      let n : 0 < t.entry_count = omega arith in
      choice-none (pc_at t hdr) (fde_at t hdr) ip t.entry_count n sorted
        (rw (lookup-choice n f) at h) j k
