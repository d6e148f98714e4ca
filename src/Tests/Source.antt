-- ===== src/Tests/Source.antt =====
-- A source with two lines, an accent and a surrogate pair.
use portolan.Prelude.{[], ◌∷◌, ◌++◌, codes, ◌≡◌, refl, Bytes}
use portolan.Prelude.Int.{pos}
use portolan.Context.{ok, background, check, poll}
use portolan.Core.Types.{Position, Range, validate_position}
use portolan.Text.Utf8.{decode_rune, utf16_length}
use portolan.Lsp.Source.{find_line, find_unit, byte_offset, text_in_range, position_at}
use portolan.Lsp.Source.Slices.{IsPiece, text_in_range-IsPiece}
use portolan.Lsp.Source.RoundTrip.{position_at-byte_offset}

abbrev source : Bytes
source = codes "let a\nb = " ++ (0xC3 ∷ 0xA9 ∷ 0xF0 ∷ 0x9F ∷ 0x98 ∷ 0x80 ∷ codes ";\n")

abbrev first : Position
first = record { line = pos 1; character = pos 4 }

abbrev last : Position
last = record { line = pos 1; character = pos 7 }

abbrev both : Range
both = record { start = first; end = last }

offset_first : byte_offset source first background ≡ ok (10, background)
unfolding byte_offset find_line find_unit check poll validate_position decode_rune utf16_length
offset_first = refl

offset_last : byte_offset source last background ≡ ok (16, background)
unfolding byte_offset find_line find_unit check poll validate_position decode_rune utf16_length
offset_last = refl

text_both :
    text_in_range source both background
    ≡ ok (0xC3 ∷ 0xA9 ∷ 0xF0 ∷ 0x9F ∷ 0x98 ∷ 0x80 ∷ [], background)
unfolding text_in_range byte_offset find_line find_unit check poll validate_position decode_rune
    utf16_length
text_both = refl

position_at-byte_offset_example : position_at source 16 ≡ last
position_at-byte_offset_example = position_at-byte_offset source last background offset_last

text_in_range-IsPiece_example :
    IsPiece source both background (0xC3 ∷ 0xA9 ∷ 0xF0 ∷ 0x9F ∷ 0x98 ∷ 0x80 ∷ [])
text_in_range-IsPiece_example = text_in_range-IsPiece source both background text_both
