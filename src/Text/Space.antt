-- ===== src/Text/Space.antt =====
-- strings.TrimSpace and strings.TrimRight. A space at either end is a whole, well-formed rune, so that
-- decoding forward finds the same runes at the end as `DecodeLastRune`.
use portolan.Prelude.{
  ℕ, zero, suc, ◌-◌, Bool, true, false, ◌&&◌, ◌||◌, [], ◌∷◌, Bytes, ◌==◌, is_empty, all_of,
  if◌then◌else◌, ◌≡◌, refl, arith,
}
use portolan.Text.Utf8.{decode_rune, within}
use portolan.Text.Decimal.{is_digit}

-- `unicode.IsSpace`.
unfoldable pub is_space : ℕ → Bool
is_space r =
    within 9 13 r
    || r == 0x20
    || r == 0x85
    || r == 0xA0
    || r == 0x1680
    || within 0x2000 0x200A r
    || r == 0x2028
    || r == 0x2029
    || r == 0x202F
    || r == 0x205F
    || r == 0x3000

-- The number is how many bytes of a rune are still to be dropped.
trim_left : ℕ → Bytes → Bytes
trim_left skip [] = []
trim_left zero (c ∷ cs) =
    let r = decode_rune (c ∷ cs) in
    let rest = trim_left (r.1 - 1) cs in if is_space r.0 then rest else c ∷ cs
trim_left (suc skip) (c ∷ cs) = trim_left skip cs

-- The number is how many bytes of a rune follow, and `space` whether that rune is one.
trim_right : ℕ → Bool → Bytes → Bytes
trim_right skip space [] = []
trim_right zero space (c ∷ cs) =
    let r = decode_rune (c ∷ cs) in
    let rest = trim_right (r.1 - 1) (is_space r.0) cs in
    if is_space r.0 && is_empty rest then [] else c ∷ rest
trim_right (suc skip) space (c ∷ cs) =
    let rest = trim_right skip space cs in if space && is_empty rest then [] else c ∷ rest

unfoldable pub trim_space : Bytes → Bytes
unfolding trim_left trim_right is_space
trim_space s = trim_right zero false (trim_left zero s)

-- `strings.TrimRight(s, "\r\n")`.
unfoldable pub trim_line_end : Bytes → Bytes
trim_line_end [] = []
trim_line_end (c ∷ cs) =
    let rest = trim_line_end cs in
    if (c == b'\n' || c == b'\r') && is_empty rest then [] else c ∷ rest

decode_rune_digit : (c : ℕ) (cs : Bytes) → is_digit c ≡ true → decode_rune (c ∷ cs) ≡ (c, 1)
unfolding decode_rune
decode_rune_digit c cs h = ground arith

is_space_digit : (c : ℕ) → is_digit c ≡ true → is_space c ≡ false
unfolding is_space
is_space_digit c h = ground arith

trim_right_digits : (s : Bytes) → all_of is_digit s ≡ true → trim_right zero false s ≡ s
unfolding trim_right
trim_right_digits [] h = refl
trim_right_digits (c ∷ cs) h =
    ground (arith, decode_rune_digit c cs, is_space_digit c, trim_right_digits cs)

trim_left_digits : (s : Bytes) → all_of is_digit s ≡ true → trim_left zero s ≡ s
unfolding trim_left
trim_left_digits [] h = refl
trim_left_digits (c ∷ cs) h = ground (arith, decode_rune_digit c cs, is_space_digit c)

-- Digits behind one blank are what is left of them.
pub trim_space_digits : (s : Bytes) → all_of is_digit s ≡ true → trim_space (b' ' ∷ s) ≡ s
unfolding trim_space decode_rune
trim_space_digits s h = rw (trim_left_digits s h) (trim_right_digits s h)
