-- ===== src/Render/Atoms.antt =====
-- internal/tools/render/atom_rendering.go.
pub mod Printable
use portolan.Prelude.{
  ℕ, zero, suc, ◌+◌, ◌/◌, ◌%◌, Bool, true, false, ◌||◌, List, [], ◌∷◌, ◌++◌, Bytes, codes, ltb, leb,
  ◌==◌, if◌then◌else◌, ◌≡◌, refl, arith, is_empty,
}
use portolan.Text.Utf8.{runes, encode_rune, within}
use portolan.Text.Decimal.{itoa}
use portolan.Core.Types.{Position, Range, Symbol, SymbolKind, unset, unknown, kind_name}

unfoldable pub position_text : Position → Bytes
position_text p = itoa p.line ++ (codes ":" ++ itoa p.character)

unfoldable pub range_text : Range → Bytes
unfolding position_text
range_text r = position_text r.start ++ (codes "-" ++ position_text r.end)

-- One lower-case hexadecimal digit.
hex_digit : ℕ → ℕ
hex_digit d = if ltb d 10 then 48 + d else 87 + d

-- `unicode.IsControl`.
abbrev pub is_control : ℕ → Bool
is_control r = ltb r 0x20 || within 0x7F 0x9F r

-- `%04x` of a number with at most four hexadecimal digits.
hex4 : ℕ → Bytes
unfolding hex_digit
hex4 r =
    hex_digit (r / 4096 % 16)
    ∷ hex_digit (r / 256 % 16)
    ∷ hex_digit (r / 16 % 16)
    ∷ hex_digit (r % 16)
    ∷ []

-- What `inlineText` writes for one rune. The runes behind `\u` have four hexadecimal digits.
unfoldable pub inline_rune : ℕ → Bytes
unfolding hex4
inline_rune r =
    if r == 7
    then codes "\\a"
    else if r == 8
    then codes "\\b"
    else if r == 9
    then codes "\\t"
    else if r == 10
    then codes "\\n"
    else if r == 11
    then codes "\\v"
    else if r == 12
    then codes "\\f"
    else if r == 13
    then codes "\\r"
    else if is_control r || (r == 0x2028 || r == 0x2029)
    then codes "\\u" ++ hex4 r
    else encode_rune r

inline_runes : List ℕ → Bytes
inline_runes [] = []
inline_runes (r ∷ rs) = inline_rune r ++ inline_runes rs

unfoldable pub inline_text : Bytes → Bytes
unfolding inline_runes inline_rune
inline_text s = inline_runes (runes s)

-- `strings.Join(parts, " ")` over the kind and the name, each left out if it is empty, and the kind
-- also if it is unknown.
kind_part : SymbolKind → Bytes
kind_part unset = []
kind_part unknown = []
kind_part k = kind_name k

join_parts : Bytes → Bytes → Bytes
join_parts [] name = name
join_parts (k ∷ kind) [] = k ∷ kind
join_parts (k ∷ kind) (c ∷ name) = (k ∷ kind) ++ (codes " " ++ (c ∷ name))

unfoldable pub declaration_of : Symbol → Bytes
unfolding kind_part join_parts
declaration_of s =
    if is_empty s.signature then join_parts (kind_part s.kind) s.name else s.signature

-- `strings.Repeat("  ", depth)`.
unfoldable pub indent_of : ℕ → Bytes
indent_of zero = []
indent_of (suc depth) = b' ' ∷ b' ' ∷ indent_of depth

unfoldable pub symbol_line : Symbol → ℕ → Bytes
unfolding indent_of
symbol_line s depth =
    if is_empty (declaration_of s)
    then indent_of depth ++ (codes "[" ++ (range_text s.range ++ codes "]"))
    else indent_of depth
      ++ (inline_text (declaration_of s) ++ (codes " [" ++ (range_text s.range ++ codes "]")))
