-- ===== src/Text/Utf8.antt =====
-- unicode/utf8 and unicode/utf16 over bytes: `DecodeRune`, `AppendRune`, and the runes of a
-- `for … range` over a string, in which each byte of a malformed sequence is one U+FFFD.
use portolan.Prelude.{
  ℕ, zero, suc, ◌+◌, ◌-◌, ◌*◌, ◌/◌, ◌%◌, ◌≤◌, Bool, ◌&&◌, ◌||◌, List, [], ◌∷◌, Bytes, ltb, leb,
  ◌==◌, if◌then◌else◌, arith, length,
}

abbrev pub rune_error : ℕ
rune_error = 0xFFFD

abbrev pub within : ℕ → ℕ → ℕ → Bool
within lo hi b = leb lo b && leb b hi

-- A continuation byte, and the narrower range behind some first bytes.
abbrev pub continues : ℕ → Bool
continues b = within 0x80 0xBF b

abbrev pub second_ok : ℕ → ℕ → Bool
second_ok b c =
    if b == 0xE0
    then within 0xA0 0xBF c
    else if b == 0xED
    then within 0x80 0x9F c
    else if b == 0xF0
    then within 0x90 0xBF c
    else if b == 0xF4
    then within 0x80 0x8F c
    else continues c

-- The rune of a sequence that begins with `b`, and how many bytes it has.
decode_multi : ℕ → Bytes → ℕ × ℕ
decode_multi b (c ∷ []) =
    if within 0xC2 0xDF b && continues c then ((b % 32) * 64 + c % 64, 2) else (rune_error, 1)
decode_multi b (c ∷ d ∷ []) =
    if within 0xC2 0xDF b && continues c
    then ((b % 32) * 64 + c % 64, 2)
    else if within 0xE0 0xEF b && (second_ok b c && continues d)
    then ((b % 16) * 4096 + (c % 64) * 64 + d % 64, 3)
    else (rune_error, 1)
decode_multi b (c ∷ d ∷ e ∷ _) =
    if within 0xC2 0xDF b && continues c
    then ((b % 32) * 64 + c % 64, 2)
    else if within 0xE0 0xEF b && (second_ok b c && continues d)
    then ((b % 16) * 4096 + (c % 64) * 64 + d % 64, 3)
    else if within 0xF0 0xF4 b && (second_ok b c && (continues d && continues e))
    then ((b % 8) * 262144 + (c % 64) * 4096 + (d % 64) * 64 + e % 64, 4)
    else (rune_error, 1)
decode_multi b [] = (rune_error, 1)

-- `utf8.DecodeRune`: the rune and its size, which is 0 only at the end.
unfoldable pub decode_rune : Bytes → ℕ × ℕ
unfolding decode_multi
decode_rune [] = (rune_error, 0)
decode_rune (b ∷ rest) = if ltb b 0x80 then (b, 1) else decode_multi b rest

-- The runes of a string; the number is how many bytes of the last one are still to be passed.
unfoldable pub runes_from : ℕ → Bytes → List ℕ
runes_from skip [] = []
runes_from zero (c ∷ cs) = let r = decode_rune (c ∷ cs) in r.0 ∷ runes_from (r.1 - 1) cs
runes_from (suc skip) (c ∷ cs) = runes_from skip cs

abbrev pub runes : Bytes → List ℕ
runes s = runes_from zero s

-- `strings.Builder.WriteRune`.
unfoldable pub encode_rune : ℕ → Bytes
encode_rune r =
    if ltb r 0x80
    then r ∷ []
    else if ltb r 0x800
    then (0xC0 + r / 64) ∷ (0x80 + r % 64) ∷ []
    else if ltb 0x10FFFF r || within 0xD800 0xDFFF r
    then 0xEF ∷ 0xBF ∷ 0xBD ∷ []
    else if ltb r 0x10000
    then (0xE0 + r / 4096) ∷ (0x80 + (r / 64) % 64) ∷ (0x80 + r % 64) ∷ []
    else (0xF0 + r / 262144)
      ∷ (0x80 + (r / 4096) % 64)
      ∷ (0x80 + (r / 64) % 64)
      ∷ (0x80 + r % 64)
      ∷ []

-- `utf16.RuneLen`, of a rune that was decoded.
unfoldable pub utf16_length : ℕ → ℕ
utf16_length r = if ltb r 0x10000 then 1 else 2

-- A decoded rune takes at least one byte and at most those that there are.
pub decode_rune_size :
    (c : ℕ) (cs : Bytes)
    → (1 ≤ (decode_rune (c ∷ cs)).1) × ((decode_rune (c ∷ cs)).1 ≤ length (c ∷ cs))
unfolding decode_rune
decode_rune_size c [] = ground arith
decode_rune_size c (d ∷ []) = ground arith
decode_rune_size c (d ∷ e ∷ []) = ground arith
decode_rune_size c (d ∷ e ∷ f ∷ cs) = ground arith
