-- ===== src/Prelude/Text.antt =====
-- Texts as the lists of their codes, and the numbers that `write!` puts into them.
use Prim.Native.Char.{code}
use Prim.Native.String.{String}
use Prim.Native.Nat.{ℕ, zero, suc, ◌+◌, ◌-◌, ◌*◌, ◌/◌, ◌%◌, ◌^◌, ◌≤◌, ◌<◌}
use mathlib.Core.Path.{◌≡◌, refl, ap, ◌∙◌, subst}
use mathlib.Core.Bool.{◌&&◌}
use mathlib.Core.List.{List, [], ◌∷◌, ◌++◌}
use mathlib.Core.Option.{Option, none, some}
use native.Mathlib.Omega.{arith}
use mathlib.Core.Logic.{inl, inr}
use native.Mathlib.Nat.{pow-zero, pow-suc, div-add-mod', mod-lt, div-lt_iff_lt-mul, mod-eq_of_lt}
use libunwinder.Prelude.Tests.{leb, ltb, if◌then◌else◌, lt_cases, Bool-cases}
use libunwinder.Prelude.Int.{ℤ, pos, negsuc}

abbrev pub Text : Type 0
Text = List ℕ

abbrev pub codes : String → Text
codes String.[] = []
codes (String.◌∷◌ c s) = code c ∷ codes s

-- The pieces of a `write!`, one behind the other.
abbrev pub write : List Text → Text
write [] = []
write (piece ∷ pieces) = piece ++ write pieces

abbrev pub digit : ℕ → ℕ
digit d = if ltb d 10 then b'0' + d else b'a' + (d - 10)

-- The digits of `n` before `rest`, from the last one on; 64 rounds do for a word.
unfoldable pub digits : ℕ → ℕ → ℕ → Text → Text
digits radix zero n rest = rest
digits radix (suc fuel) n rest =
    let more = digits radix fuel (n / radix) (digit (n % radix) ∷ rest) in
    if ltb n radix then digit (n % radix) ∷ rest else more

-- `{}`, `{:x}` and `{:02x}`
unfoldable pub decimal : ℕ → Text
decimal n = digits 10 64 n []

unfoldable pub hex : ℕ → Text
hex n = digits 16 64 n []

unfoldable pub hex02 : ℕ → Text
hex02 n = if ltb n 16 then b'0' ∷ hex n else hex n

unfoldable pub signed : ℤ → Text
signed (pos n) = decimal n
signed (negsuc n) = b'-' ∷ decimal (n + 1)

-- The value of a digit, and of the digits that a text starts with.
abbrev pub digit_value : ℕ → ℕ → Option ℕ
digit_value radix c =
    if leb b'0' c && ltb c (b'0' + 10) && ltb (c - b'0') radix
    then some (c - b'0')
    else if leb b'a' c && ltb (c - b'a' + 10) radix
    then some (c - b'a' + 10)
    else none

abbrev pub accumulate : ℕ → Option ℕ → (ℕ → ℕ × Text) → ℕ × Text → ℕ × Text
accumulate radix none more stop = stop
accumulate radix (some d) more stop = more d

unfoldable pub read_number : ℕ → ℕ → Text → ℕ × Text
read_number radix n [] = (n, [])
read_number radix n (c ∷ text) =
    accumulate radix (digit_value radix c) (λ d. read_number radix (n * radix + d) text)
      (n, c ∷ text)

digit_value-digit :
    (radix d : ℕ) → 2 ≤ radix → radix ≤ 16 → d < radix → digit_value radix (digit d) ≡ some d
digit_value-digit radix d low high lt = elim (lt_cases d 10) [
  | inl small ↦ ground arith
  | inr big ↦ ground arith
]

read_digit :
    (radix n d : ℕ) (text : Text)
    → 2 ≤ radix
    → radix ≤ 16
    → d < radix
    → read_number radix n (digit d ∷ text) ≡ read_number radix (n * radix + d) text
unfolding read_number
read_digit radix n d text low high lt = λ i.
    accumulate radix (digit_value-digit radix d low high lt i)
      (λ d. read_number radix (n * radix + d) text) (n, digit d ∷ text)

module _ (radix : ℕ) (low : 2 ≤ radix) (high : radix ≤ 16) where
  -- Reading the digits of a number gives the number, and goes on behind them.
  read_number-digits :
      (fuel n : ℕ) (rest : Text)
      → n < radix ^ fuel
      → read_number radix 0 (digits radix fuel n rest) ≡ read_number radix n rest
  unfolding digits
  read_number-digits zero n rest h =
      ap (λ (k : ℕ). read_number radix k rest) (omega (arith, pow-zero radix))
  read_number-digits (suc fuel) n rest h = elim (Bool-cases (ltb n radix)) [
    | inl t ↦ rw t (
        read_digit radix 0 (n % radix) rest low high small
        ∙ ap (λ (k : ℕ). read_number radix k rest) {x = 0 * radix + n % radix}
            (omega (arith, mod-eq_of_lt {n = n} {m = radix} (ground arith))))
    | inr f ↦ rw f (
        read_number-digits fuel (n / radix) (digit (n % radix) ∷ rest) shorter
        ∙ read_digit radix (n / radix) (n % radix) rest low high small
        ∙ ap (λ (k : ℕ). read_number radix k rest) (div-add-mod' n radix))
  ]
    where
      small : n % radix < radix
      small = mod-lt n {m = radix} (omega arith)

      shorter : n / radix < radix ^ fuel
      shorter =
          (div-lt_iff_lt-mul {k = radix} {x = n} {y = radix ^ fuel} (omega arith)).1
            (subst (λ (k : ℕ). n < k) (pow-suc radix fuel) h)

  digits-append :
      (fuel n : ℕ) (rest text : Text)
      → digits radix fuel n rest ++ text ≡ digits radix fuel n (rest ++ text)
  unfolding digits
  digits-append zero n rest text = refl
  digits-append (suc fuel) n rest text = elim (Bool-cases (ltb n radix)) [
    | inl t ↦ rw t refl
    | inr f ↦ rw f (digits-append fuel (n / radix) (digit (n % radix) ∷ rest) text)
  ]

module _ (n : ℕ) (rest : Text) (small : n < 2 ^ 64) where
  read :
      (radix : ℕ)
      → 2 ≤ radix
      → radix ≤ 16
      → n < radix ^ 64
      → read_number radix n rest ≡ (n, rest)
      → read_number radix 0 (digits radix 64 n [] ++ rest) ≡ (n, rest)
  read radix low high fits stop =
      ap (read_number radix 0) (digits-append radix low high 64 n [] rest)
      ∙ read_number-digits radix low high 64 n rest fits
      ∙ stop

  -- A printed number is read back if no digit stands behind it.
  pub read_number-decimal :
      read_number 10 n rest ≡ (n, rest) → read_number 10 0 (decimal n ++ rest) ≡ (n, rest)
  unfolding decimal
  read_number-decimal stop = read 10 (omega arith) (omega arith) (omega arith) stop

  pub read_number-hex :
      read_number 16 n rest ≡ (n, rest) → read_number 16 0 (hex n ++ rest) ≡ (n, rest)
  unfolding hex
  read_number-hex stop = read 16 (omega arith) (omega arith) (omega arith) stop

  pub read_number-hex02 :
      read_number 16 n rest ≡ (n, rest) → read_number 16 0 (hex02 n ++ rest) ≡ (n, rest)
  unfolding hex02 read_number
  read_number-hex02 stop = elim (Bool-cases (ltb n 16)) [
    | inl t ↦ rw t (read_number-hex stop)
    | inr f ↦ rw f (read_number-hex stop)
  ]
