-- ===== src/Text/Atoi.antt =====
-- strconv.Atoi on a 64-bit platform: an optional sign and decimal digits, in the range of an int64.
use portolan.Prelude.{
  ℕ, ◌<◌, ◌^◌, ◌-◌, Bool, true, false, not, Option, none, some, [], ◌∷◌, Bytes, ltb, leb, ◌==◌,
  is_empty, all_of, length, if◌then◌else◌, ◌≡◌, ◌∙◌, ap, arith,
}
use portolan.Prelude.Int.{ℤ, pos, negsuc}
use portolan.Text.Decimal.{
  is_digit, value_from, decimal, value-decimal, digit-decimal, length-decimal,
}

abbrev pub int_limit : ℕ
int_limit = 2 ^ 63

negated : ℕ → ℤ
negated n = if n == 0 then pos 0 else negsuc (n - 1)

-- Unsigned digits; the flag is whether a minus stood before them.
signed : Bool → Bytes → Option ℤ
signed minus s =
    if is_empty s
    then none
    else if not (all_of is_digit s)
    then none
    else if minus
    then (if leb (value_from 0 s) int_limit then some (negated (value_from 0 s)) else none)
    else if ltb (value_from 0 s) int_limit
    then some (pos (value_from 0 s))
    else none

unfoldable pub atoi : Bytes → Option ℤ
unfolding signed negated
atoi [] = none
atoi (c ∷ cs) =
    if c == b'-'
    then signed true cs
    else if c == b'+'
    then signed false cs
    else signed false (c ∷ cs)

atoi_digits :
    (s : Bytes)
    → all_of is_digit s ≡ true
    → 0 < length s
    → value_from 0 s < int_limit
    → atoi s ≡ some (pos (value_from 0 s))
unfolding atoi
atoi_digits [] h l v = absurd (omega arith)
atoi_digits (c ∷ cs) h l v = ground arith

-- A printed number is read back, if it fits.
pub atoi-decimal : (n : ℕ) → n < int_limit → atoi (decimal n) ≡ some (pos n)
atoi-decimal n h =
    let v = value-decimal n in
    atoi_digits (decimal n) (digit-decimal n) (length-decimal n) (omega arith)
    ∙ ap (λ k. some (pos k)) v
