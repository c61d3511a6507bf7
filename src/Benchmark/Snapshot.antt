-- ===== src/Benchmark/Snapshot.antt =====
-- `Snapshot`: the file that the C++ side writes, and the stack memory in it. The driver runs on
-- x86-64 only, whose bytes are little end first.
use Prim.Native.String.{String}
use mathlib.Core.Option
use libunwinder.Prelude.{
  ℕ, ◌+◌, ◌-◌, ◌≤◌, ◌<◌, ◌≡◌, ◌∙◌, ◌⊎◌, ap, inl, inr, refl, arith, List, ◌++◌, not, false, Option,
  none, some, Result, ok, err, and_then, ok_or, map_err, ltb, ◌==◌, if◌then◌else◌, length, take,
  drop, get_range, from_le_bytes, to_le_bytes, checked_add, checked_sub, length-append,
  from_le_bytes-to_le_bytes, take-append, IsU64, lt_cases,
}
use libunwinder.Benchmark.{
  Failure, io, missing_u64, truncated, bad_magic, length_overflow, missing_stack_bytes,
}

pub record Snapshot : Type 0 where
  pub ip : ℕ
  pub sp : ℕ
  pub bp : ℕ
  pub stack_start : ℕ
  pub stack : List ℕ

abbrev pub snapshot_magic : ℕ
snapshot_magic = 0x4c55_5742_454e_4348

module _ {IoError ObjectError : Type 0} where
  unfoldable pub read_u64 : List ℕ → ℕ → Result (Failure IoError ObjectError) ℕ
  read_u64 bytes offset =
      and_then (ok_or (get_range bytes offset (offset + 8)) missing_u64)
        λ word. ok (from_le_bytes word)

  -- The stack behind the header, by its length in the header.
  abbrev pub stack_at :
      String → List ℕ → ℕ → ℕ → ℕ → ℕ → ℕ → Result (Failure IoError ObjectError) Snapshot
  stack_at path bytes ip sp bp stack_start stack_len =
      and_then (ok_or (checked_add 48 stack_len) length_overflow) λ stack_end.
        if ltb (length bytes) stack_end
        then err (missing_stack_bytes path)
        else ok (record {
          ip = ip;
          sp = sp;
          bp = bp;
          stack_start = stack_start;
          stack = take (stack_end - 48) (drop 48 bytes);
        })

  -- What `read` makes of the file's bytes.
  unfoldable pub parse : String → List ℕ → Result (Failure IoError ObjectError) Snapshot
  parse path bytes =
      if ltb (length bytes) 48
      then err (truncated path)
      else and_then (read_u64 bytes 0) λ magic.
        if not (magic == snapshot_magic)
        then err (bad_magic path)
        else and_then (read_u64 bytes 8) λ ip. and_then (read_u64 bytes 16) λ sp.
          and_then (read_u64 bytes 24) λ bp.
            and_then (read_u64 bytes 32)
              λ stack_start. and_then (read_u64 bytes 40) (stack_at path bytes ip sp bp stack_start)

  abbrev pub read :
      (String → Result IoError (List ℕ)) → String → Result (Failure IoError ObjectError) Snapshot
  read read_file path = and_then (map_err io (read_file path)) (parse path)

unfoldable pub read_stack : Snapshot → ℕ → Option ℕ
read_stack s addr = Option.bind (checked_sub addr s.stack_start) λ offset.
    Option.bind (checked_add offset 8)
      λ end. Option.map from_le_bytes (get_range s.stack offset end)

-- What `libunwinder_take_snapshot` writes: `SnapshotHeader`, and the stack from `sp` up.
abbrev pub header_bytes : Snapshot → List ℕ
header_bytes s =
    to_le_bytes 8 snapshot_magic
    ++ to_le_bytes 8 s.ip
    ++ to_le_bytes 8 s.sp
    ++ to_le_bytes 8 s.bp
    ++ to_le_bytes 8 s.stack_start
    ++ to_le_bytes 8 (length s.stack)

unfoldable pub snapshot_bytes : Snapshot → List ℕ
snapshot_bytes s = header_bytes s ++ s.stack

get_range_at :
    (bytes : List ℕ) (offset n : ℕ)
    → offset + n ≤ length bytes
    → get_range bytes offset (offset + n) ≡ some (take n (drop offset bytes))
get_range_at bytes offset n fits = ground (
  arith,
  ap (λ (k : ℕ). take k (drop offset bytes)) {x = offset + n - offset} {y = n} (omega arith),
)

-- The fields are words, and the file's length is one.
pub record IsSized (s : Snapshot) : Type 0 where
  pub ip : IsU64 s.ip
  pub sp : IsU64 s.sp
  pub bp : IsU64 s.bp
  pub stack_start : IsU64 s.stack_start
  pub stack : IsU64 (48 + length s.stack)

module _ (IoError ObjectError : Type 0) where
  abbrev pub Read : Type 0 → Type 0
  Read A = Result (Failure IoError ObjectError) A

  read_u64_at :
      (bytes : List ℕ) (offset v : ℕ) (rest : List ℕ)
      → drop offset bytes ≡ to_le_bytes 8 v ++ rest
      → offset + 8 ≤ length bytes
      → IsU64 v
      → ◌≡◌ {A = Read ℕ} (read_u64 bytes offset) (ok v)
  unfolding read_u64
  read_u64_at bytes offset v rest e fits small =
      (λ i. and_then (ok_or (word i) missing_u64) (λ w. ok (from_le_bytes w)))
      ∙ ap ok (from_le_bytes-to_le_bytes 8 v small)
    where
      take_word : (v : ℕ) (rest : List ℕ) → take 8 (to_le_bytes 8 v ++ rest) ≡ to_le_bytes 8 v
      take_word v rest = refl

      word : get_range bytes offset (offset + 8) ≡ some (to_le_bytes 8 v)
      word =
          get_range_at bytes offset 8 fits
          ∙ ap some (ap (λ (xs : List ℕ). take 8 xs) e ∙ take_word v rest)

  -- The six words of the header, and that the stack is there.
  record IsHeader (bytes : List ℕ) (s : Snapshot) : Type 0 where
    fits : 48 + length s.stack ≤ length bytes
    magic : ◌≡◌ {A = Read ℕ} (read_u64 bytes 0) (ok snapshot_magic)
    ip : ◌≡◌ {A = Read ℕ} (read_u64 bytes 8) (ok s.ip)
    sp : ◌≡◌ {A = Read ℕ} (read_u64 bytes 16) (ok s.sp)
    bp : ◌≡◌ {A = Read ℕ} (read_u64 bytes 24) (ok s.bp)
    stack_start : ◌≡◌ {A = Read ℕ} (read_u64 bytes 32) (ok s.stack_start)
    stack_len : ◌≡◌ {A = Read ℕ} (read_u64 bytes 40) (ok (length s.stack))
    stack : take (length s.stack) (drop 48 bytes) ≡ s.stack

  stack_at-ok :
      (path : String) (bytes : List ℕ) (s : Snapshot)
      → IsU64 (48 + length s.stack)
      → IsHeader bytes s
      → ◌≡◌ {A = Read Snapshot}
          (stack_at path bytes s.ip s.sp s.bp s.stack_start (length s.stack))
          (ok s)
  stack_at-ok path bytes s small w = ground (
    arith,
    w.fits,
    w.stack,
    ap (λ (k : ℕ). take k (drop 48 bytes)) {x = 48 + length s.stack - 48} {y = length s.stack}
        (omega arith),
  )

  parse_header :
      (path : String) (bytes : List ℕ) (s : Snapshot)
      → IsU64 (48 + length s.stack)
      → IsHeader bytes s
      → ◌≡◌ {A = Read Snapshot} (parse path bytes) (ok s)
  unfolding parse
  parse_header path bytes s small w =
      rw (ltb_ge, w.magic, w.ip, w.sp, w.bp, w.stack_start, w.stack_len)
        (stack_at-ok path bytes s small w)
    where
      ltb_ge : ltb (length bytes) 48 ≡ false
      ltb_ge = ground (arith, w.fits)

  -- `Snapshot::read` makes of the bytes that the C++ side writes for a snapshot the same snapshot,
  -- whatever follows them, if its fields and the length of the file are words of 64 bits.
  pub parse-snapshot_bytes :
      (path : String) (s : Snapshot) (rest : List ℕ)
      → IsSized s
      → ◌≡◌ {A = Read Snapshot} (parse path (snapshot_bytes s ++ rest)) (ok s)
  unfolding snapshot_bytes
  parse-snapshot_bytes path s rest w =
      parse_header path (snapshot_bytes s ++ rest) s w.stack (record {
        fits = fits;
        magic = read_u64_at _ 0 snapshot_magic _ refl (omega (arith, fits)) (omega arith);
        ip = read_u64_at _ 8 s.ip _ refl (omega (arith, fits)) w.ip;
        sp = read_u64_at _ 16 s.sp _ refl (omega (arith, fits)) w.sp;
        bp = read_u64_at _ 24 s.bp _ refl (omega (arith, fits)) w.bp;
        stack_start = read_u64_at _ 32 s.stack_start _ refl (omega (arith, fits)) w.stack_start;
        stack_len =
            read_u64_at _ 40 (length s.stack) _ refl (omega (arith, fits)) (omega (arith, w.stack));
        stack = take-append s.stack rest;
      })
    where
      fits : 48 + length s.stack ≤ length (snapshot_bytes s ++ rest)
      fits = omega (arith, length-append s.stack rest)

-- In a snapshot whose fields and file length are words of 64 bits a read gives the word at the
-- address, little end first, if its eight bytes lie in the stack, and fails otherwise.
pub read_stack-IsSlice :
    (s : Snapshot) (addr : ℕ)
    → IsSized s
    → ((s.stack_start ≤ addr)
        × (addr + 8 ≤ s.stack_start + length s.stack)
        × (read_stack s addr ≡ some (from_le_bytes (take 8 (drop (addr - s.stack_start) s.stack)))))
      ⊎ (((addr < s.stack_start) ⊎ (s.stack_start + length s.stack < addr + 8))
          × (read_stack s addr ≡ none))
unfolding read_stack Option.bind
read_stack-IsSlice s addr w = elim (lt_cases addr s.stack_start) [
  | inl lt ↦ inr (inl lt, ground arith)
  | inr low ↦ elim (lt_cases (s.stack_start + length s.stack) (addr + 8)) [
    | inl lt ↦ inr (inr lt, ground (arith, w.stack))
    | inr high ↦ inl (
      omega arith,
      omega arith,
      ground (arith, w.stack, get_range_at s.stack (addr - s.stack_start) 8 (omega arith)),
    )
  ]
]
