-- ===== src/Render/Atoms/Printable.antt =====
-- What `inlineText` and the line of a symbol consist of: no control character, so no line break.
use portolan.Prelude.{
  ℕ, zero, suc, ◌<◌, ◌/◌, ◌%◌, Bool, true, false, not, ◌&&◌, List, [], ◌∷◌, ◌++◌, Bytes, codes, leb,
  ◌==◌, all_of, ◌≡◌, refl, arith, is_empty, Bool-cases, inl, inr,
}
use portolan.Prelude.Int.{ℤ, pos, negsuc}
use portolan.Core.Types.{Position, Range, Symbol}
use portolan.Text.Utf8.{runes, encode_rune}
use portolan.Text.Decimal.{is_digit, itoa, decimal, digit-decimal}
use portolan.Render.Atoms.{
  hex_digit, hex4, is_control, inline_rune, inline_runes, inline_text, position_text, range_text,
  indent_of, symbol_line, declaration_of,
}

-- A byte that is no ASCII control character.
abbrev pub is_printable : ℕ → Bool
is_printable c = leb 0x20 c && not (c == 0x7F)

abbrev pub IsPrintable : Bytes → Type 0
IsPrintable s = all_of is_printable s ≡ true

pub append-IsPrintable : (a b : Bytes) → IsPrintable a → IsPrintable b → IsPrintable (a ++ b)
append-IsPrintable [] b h k = k
append-IsPrintable (c ∷ a) b h k = ground (arith, append-IsPrintable a b)

hex_digit-is_printable : (d : ℕ) → d < 16 → is_printable (hex_digit d) ≡ true
unfolding hex_digit
hex_digit-is_printable d h = ground arith

digits4-IsPrintable :
    (a b c d : ℕ)
    → a < 16
    → b < 16
    → c < 16
    → d < 16
    → IsPrintable (hex_digit a ∷ hex_digit b ∷ hex_digit c ∷ hex_digit d ∷ [])
digits4-IsPrintable a b c d h i j k = rw (
  hex_digit-is_printable a h,
  hex_digit-is_printable b i,
  hex_digit-is_printable c j,
  hex_digit-is_printable d k,
)

hex4-IsPrintable : (r : ℕ) → IsPrintable (hex4 r)
unfolding hex4
hex4-IsPrintable r =
    digits4-IsPrintable (r / 4096 % 16) (r / 256 % 16) (r / 16 % 16) (r % 16) (omega arith)
      (omega arith) (omega arith) (omega arith)

encode_rune-IsPrintable : (r : ℕ) → is_control r ≡ false → IsPrintable (encode_rune r)
unfolding encode_rune
encode_rune-IsPrintable r h = ground arith

inline_rune-IsPrintable : (r : ℕ) → IsPrintable (inline_rune r)
unfolding inline_rune
inline_rune-IsPrintable r = ground (arith, hex4-IsPrintable r, encode_rune-IsPrintable r)

inline_runes-IsPrintable : (rs : List ℕ) → IsPrintable (inline_runes rs)
unfolding inline_runes
inline_runes-IsPrintable [] = refl
inline_runes-IsPrintable (r ∷ rs) =
    append-IsPrintable (inline_rune r) _ (inline_rune-IsPrintable r) (inline_runes-IsPrintable rs)

-- Whatever bytes a text holds, its inline form has no control character.
pub inline_text-IsPrintable : (s : Bytes) → IsPrintable (inline_text s)
unfolding inline_text
inline_text-IsPrintable s = inline_runes-IsPrintable (runes s)

digits-IsPrintable : (s : Bytes) → all_of is_digit s ≡ true → IsPrintable s
digits-IsPrintable [] h = refl
digits-IsPrintable (c ∷ s) h = ground (arith, digits-IsPrintable s)

pub decimal-IsPrintable : (n : ℕ) → IsPrintable (decimal n)
decimal-IsPrintable n = digits-IsPrintable (decimal n) (digit-decimal n)

itoa-IsPrintable : (z : ℤ) → IsPrintable (itoa z)
unfolding itoa
itoa-IsPrintable (pos n) = decimal-IsPrintable n
itoa-IsPrintable (negsuc n) = decimal-IsPrintable (suc n)

position_text-IsPrintable : (p : Position) → IsPrintable (position_text p)
unfolding position_text
position_text-IsPrintable p =
    append-IsPrintable (itoa p.line) (codes ":" ++ itoa p.character) (itoa-IsPrintable p.line)
      (itoa-IsPrintable p.character)

pub range_text-IsPrintable : (r : Range) → IsPrintable (range_text r)
unfolding range_text
range_text-IsPrintable r =
    append-IsPrintable (position_text r.start) (codes "-" ++ position_text r.end)
      (position_text-IsPrintable r.start) (position_text-IsPrintable r.end)

indent_of-IsPrintable : (d : ℕ) → IsPrintable (indent_of d)
unfolding indent_of
indent_of-IsPrintable zero = refl
indent_of-IsPrintable (suc d) = indent_of-IsPrintable d

-- The line of a symbol is one line, whatever its name, kind and signature hold.
pub symbol_line-IsPrintable : (s : Symbol) (d : ℕ) → IsPrintable (symbol_line s d)
unfolding symbol_line
symbol_line-IsPrintable s d =
    let tail =
      append-IsPrintable (range_text s.range) (codes "]") (range_text-IsPrintable s.range) refl in
    elim (Bool-cases (is_empty (declaration_of s))) [
      | inl bare ↦ rw bare (
          append-IsPrintable (indent_of d) (codes "[" ++ (range_text s.range ++ codes "]"))
            (indent_of-IsPrintable d) tail)
      | inr full ↦
          let text = inline_text (declaration_of s) in
          let rest = codes " [" ++ (range_text s.range ++ codes "]") in
          rw full (
            append-IsPrintable (indent_of d) (text ++ rest) (indent_of-IsPrintable d)
              (append-IsPrintable text rest (inline_text-IsPrintable (declaration_of s)) tail))
    ]
