-- ===== src/Error/Distinct.antt =====
-- That the texts of DWARF parse errors tell them apart: a reader that takes them back.
use Prim.Native.String.{String}
use mathlib.Core.Option.{some-injective}
use mathlib.Core.List.{append-nil}
use libunwinder.Prelude.{
  ℕ, ◌≡◌, ◌∙◌, sym, ap, refl, arith, [], ◌∷◌, ◌++◌, Option, none, some, ◌==◌, if◌then◌else◌, IsU64,
  drop,
}
use libunwinder.Prelude.Text.{
  Text, codes, decimal, read_number, read_number-decimal, read_number-hex, read_number-hex02,
}
use libunwinder.Error.{
  DwarfParseErrorKind, truncated, leb128_overflow, entry_length_overflow, omitted_pointer_encoding,
  unsupported_pointer_encoding, indirect_pointer_requires_dereference,
  unsupported_pointer_application, bad_cie_id, unsupported_cie_version,
  unsupported_cie_address_size, unterminated_augmentation_string, unsupported_augmentation,
  unsupported_non_z_augmentation, fde_cie_pointer_is_zero, DwarfParseError,
}
use libunwinder.Error.ParserDisplay.{dwarf_kind, dwarf_parse_error}

-- The rest of a text behind a prefix.
strip : Text → Text → Option Text
strip [] text = some text
strip (c ∷ prefix) [] = none
strip (c ∷ prefix) (d ∷ text) = if c == d then strip prefix text else none

-- What a text is, if it has the prefix; else what the others say.
abbrev behind :
    Option Text
    → (Text → Option DwarfParseErrorKind)
    → Option DwarfParseErrorKind
    → Option DwarfParseErrorKind
behind none found others = others
behind (some rest) found others = found rest

abbrev two : (ℕ → ℕ → DwarfParseErrorKind) → ℕ → Option Text → Option DwarfParseErrorKind
two kind a none = none
two kind a (some rest) = some (kind a (read_number 10 0 rest).0)

abbrev pair : (ℕ → ℕ → DwarfParseErrorKind) → Text → Text → Option DwarfParseErrorKind
pair kind between rest =
    two kind (read_number 10 0 rest).0 (strip between (read_number 10 0 rest).1)

read_kind : Text → Option DwarfParseErrorKind
read_kind text =
    behind (strip (codes "truncated read, needed byte offset ") text)
      (pair truncated (codes " but buffer length is "))
      (behind (strip (codes "LEB128") text) (λ rest. some leb128_overflow)
        (behind (strip (codes "entry") text) (λ rest. some entry_length_overflow)
          (behind (strip (codes "DW_EH_PE_omit") text) (λ rest. some omitted_pointer_encoding)
            (behind (strip (codes "unsupported pointer encoding 0x") text)
              (λ rest. some (unsupported_pointer_encoding (read_number 16 0 rest).0))
              (behind (strip (codes "pointer encoding 0x") text)
                (λ rest. some (indirect_pointer_requires_dereference (read_number 16 0 rest).0))
                (behind (strip (codes "unsupported pointer application in encoding 0x") text)
                  (λ rest. some (unsupported_pointer_application (read_number 16 0 rest).0))
                  (behind (strip (codes "expected CIE id 0, found ") text)
                    (λ rest. some (bad_cie_id (read_number 10 0 rest).0))
                    (behind (strip (codes "unsupported CIE version ") text)
                      (λ rest. some (unsupported_cie_version (read_number 10 0 rest).0))
                      (behind (strip (codes "unsupported CIE address_size=") text)
                        (pair unsupported_cie_address_size (codes ", segment_size="))
                        (behind (strip (codes "unterminated") text)
                          (λ rest. some unterminated_augmentation_string)
                          (behind (strip (codes "unsupported CIE augmentation byte 0x") text)
                            (λ rest. some (unsupported_augmentation (read_number 16 0 rest).0))
                            (behind (strip (codes "unsupported non-z") text)
                              (λ rest. some unsupported_non_z_augmentation)
                              (behind (strip (codes "FDE") text)
                                (λ rest. some fde_cie_pointer_is_zero) none)))))))))))))

-- The numbers of an error are words.
unfoldable pub IsKindSized : DwarfParseErrorKind → Type 0
IsKindSized (truncated needed len) = IsU64 needed × IsU64 len
IsKindSized (unsupported_pointer_encoding encoding) = IsU64 encoding
IsKindSized (indirect_pointer_requires_dereference encoding) = IsU64 encoding
IsKindSized (unsupported_pointer_application encoding) = IsU64 encoding
IsKindSized (bad_cie_id cie_id) = IsU64 cie_id
IsKindSized (unsupported_cie_version version) = IsU64 version
IsKindSized (unsupported_cie_address_size address_size segment_size) =
    IsU64 address_size × IsU64 segment_size
IsKindSized (unsupported_augmentation byte) = IsU64 byte
IsKindSized _ = Unit {0}

strip-append : (prefix text : Text) → strip prefix (prefix ++ text) ≡ some text
unfolding strip
strip-append [] text = refl
strip-append (c ∷ prefix) text = ground (arith, strip-append prefix text)

pair-two :
    (kind : ℕ → ℕ → DwarfParseErrorKind) (between : Text) (a b : ℕ)
    → IsU64 a
    → IsU64 b
    → read_number 10 a (between ++ (decimal b ++ [])) ≡ (a, between ++ (decimal b ++ []))
    → pair kind between (decimal a ++ (between ++ (decimal b ++ []))) ≡ some (kind a b)
unfolding read_number
pair-two kind between a b small fits stop =
    (λ i. two kind (first i).0 (strip between (first i).1))
    ∙ (λ i. two kind a (strip-append between (decimal b ++ []) i))
    ∙ (λ i. some (kind a (read_number-decimal b [] fits refl i).0))
  where
    first :
        read_number 10 0 (decimal a ++ (between ++ (decimal b ++ [])))
        ≡ (a, between ++ (decimal b ++ []))
    first = read_number-decimal a (between ++ (decimal b ++ [])) small stop

abbrev indirect : String
indirect = " is indirect and would require tracee memory dereference"

read_kind-dwarf_kind : (k : DwarfParseErrorKind) → IsKindSized k → read_kind (dwarf_kind k) ≡ some k
unfolding read_kind strip dwarf_kind IsKindSized read_number
read_kind-dwarf_kind (truncated needed len) h =
    pair-two truncated (codes " but buffer length is ") needed len h.0 h.1 refl
read_kind-dwarf_kind leb128_overflow h = refl
read_kind-dwarf_kind entry_length_overflow h = refl
read_kind-dwarf_kind omitted_pointer_encoding h = refl
read_kind-dwarf_kind (unsupported_pointer_encoding encoding) h =
    λ i. some (unsupported_pointer_encoding (read_number-hex02 encoding [] h refl i).0)
read_kind-dwarf_kind (indirect_pointer_requires_dereference encoding) h = λ i. some (
    indirect_pointer_requires_dereference
      (read_number-hex02 encoding (codes indirect ++ []) h refl i).0)
read_kind-dwarf_kind (unsupported_pointer_application encoding) h =
    λ i. some (unsupported_pointer_application (read_number-hex02 encoding [] h refl i).0)
read_kind-dwarf_kind (bad_cie_id cie_id) h =
    λ i. some (bad_cie_id (read_number-decimal cie_id [] h refl i).0)
read_kind-dwarf_kind (unsupported_cie_version version) h =
    λ i. some (unsupported_cie_version (read_number-decimal version [] h refl i).0)
read_kind-dwarf_kind (unsupported_cie_address_size address_size segment_size) h =
    pair-two unsupported_cie_address_size (codes ", segment_size=") address_size segment_size h.0
      h.1 refl
read_kind-dwarf_kind unterminated_augmentation_string h = refl
read_kind-dwarf_kind (unsupported_augmentation byte) h =
    λ i. some (unsupported_augmentation (read_number-hex02 byte [] h refl i).0)
read_kind-dwarf_kind unsupported_non_z_augmentation h = refl
read_kind-dwarf_kind fde_cie_pointer_is_zero h = refl

unfoldable pub IsSized : DwarfParseError → Type 0
IsSized e = IsU64 e.offset × IsKindSized e.kind

-- The offset of a text and what stands behind it.
read_offset : Text → ℕ × Text
read_offset text = read_number 16 0 (drop 40 text)

read_offset-dwarf_parse_error :
    (e : DwarfParseError)
    → IsSized e
    → read_offset (dwarf_parse_error e) ≡ (e.offset, codes ": " ++ (dwarf_kind e.kind ++ []))
unfolding read_offset dwarf_parse_error IsSized read_number
read_offset-dwarf_parse_error e h =
    read_number-hex e.offset (codes ": " ++ (dwarf_kind e.kind ++ [])) h.0 refl

-- Two DWARF parse errors whose numbers are words of 64 bits and whose texts are the same are the
-- same error: the text tells the offset, the kind and its numbers.
pub dwarf_parse_error_injective :
    (e e' : DwarfParseError)
    → IsSized e
    → IsSized e'
    → dwarf_parse_error e ≡ dwarf_parse_error e'
    → e ≡ e'
unfolding IsSized
dwarf_parse_error_injective e e' h h' same = λ i. record { offset = (read i).0; kind = kinds i }
  where
    read :
        ◌≡◌ {A = ℕ × Text}
          (e.offset, codes ": " ++ (dwarf_kind e.kind ++ []))
          (e'.offset, codes ": " ++ (dwarf_kind e'.kind ++ []))
    read =
        sym (read_offset-dwarf_parse_error e h)
        ∙ ap read_offset same
        ∙ read_offset-dwarf_parse_error e' h'

    kinds : e.kind ≡ e'.kind
    kinds = some-injective e.kind e'.kind (
        sym (read_kind-dwarf_kind e.kind h.1)
        ∙ ap read_kind (sym (append-nil (dwarf_kind e.kind)))
        ∙ (λ i. read_kind (drop 2 (read i).1))
        ∙ ap read_kind (append-nil (dwarf_kind e'.kind))
        ∙ read_kind-dwarf_kind e'.kind h'.1)
