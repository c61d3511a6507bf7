-- ===== src/Tests/Errors.antt =====
-- The texts of a few errors.
use libunwinder.Prelude.{◌≡◌, refl, arith}
use libunwinder.Prelude.Text.{codes, decimal, hex, digits}
use libunwinder.Error.{DwarfParseError, unsupported_cie_version, could_not_read_stack}
use libunwinder.Error.ParserDisplay.{dwarf_parse_error, dwarf_kind}
use libunwinder.Error.Display.{error_text}
use libunwinder.Error.Distinct.{IsSized, IsKindSized, dwarf_parse_error_injective}

unread_text :
    error_text (could_not_read_stack 0x7fff_0010)
    ≡ codes "could not read stack memory at 0x7fff0010"
unfolding error_text hex digits
unread_text = refl

abbrev old_cie : DwarfParseError
old_cie = record { offset = 0x48; kind = unsupported_cie_version 7 }

old_cie_text :
    dwarf_parse_error old_cie
    ≡ codes "DWARF parse error at .eh_frame offset 0x48: unsupported CIE version 7"
unfolding dwarf_parse_error dwarf_kind hex decimal digits
old_cie_text = refl

old_cie-IsSized : IsSized old_cie
unfolding IsSized IsKindSized
old_cie-IsSized = (omega arith, omega arith)

dwarf_parse_error_injective_example : old_cie ≡ old_cie
dwarf_parse_error_injective_example =
    dwarf_parse_error_injective old_cie old_cie old_cie-IsSized old_cie-IsSized refl
