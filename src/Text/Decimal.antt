-- ===== src/Text/Decimal.antt =====
-- strconv: `Itoa`, and the unsigned part of `Atoi`.
use portolan.Prelude.{
  ℕ, zero, suc, ◌+◌, ◌-◌, ◌*◌, ◌/◌, ◌%◌, ◌≤◌, ◌<◌, Bool, true, ◌&&◌, [], ◌∷◌, Bytes, ltb, leb,
  if◌then◌else◌, ◌≡◌, refl, ◌∙◌, ap, arith, all_of, length, Bool-cases, inl, inr,
}
use portolan.Prelude.Int.{ℤ, pos, negsuc}

-- The digits in front of `rest`. The fuel is more than the number.
digits_onto : ℕ → ℕ → Bytes → Bytes
digits_onto zero n rest = rest
digits_onto (suc fuel) n rest =
    let more = digits_onto fuel (n / 10) ((48 + n % 10) ∷ rest) in
    if ltb n 10 then (48 + n) ∷ rest else more

unfoldable pub decimal : ℕ → Bytes
unfolding digits_onto
decimal n = digits_onto (suc n) n []

-- `strconv.Itoa`.
unfoldable pub itoa : ℤ → Bytes
unfolding decimal
itoa (pos n) = decimal n
itoa (negsuc n) = b'-' ∷ decimal (suc n)

abbrev pub is_digit : ℕ → Bool
is_digit c = leb b'0' c && leb c b'9'

-- The number that digits stand for, from a value read so far.
unfoldable pub value_from : ℕ → Bytes → ℕ
value_from acc [] = acc
value_from acc (c ∷ cs) = value_from (acc * 10 + (c - 48)) cs

value-digits_onto :
    (fuel n : ℕ) (rest : Bytes)
    → n < fuel
    → value_from 0 (digits_onto fuel n rest) ≡ value_from n rest
unfolding digits_onto value_from
value-digits_onto zero n rest h = absurd (omega arith)
value-digits_onto (suc fuel) n rest h = elim (Bool-cases (ltb n 10)) [
  | inl small ↦ rw small (ground arith)
  | inr large ↦ rw large (
      value-digits_onto fuel (n / 10) ((48 + n % 10) ∷ rest) (ground arith)
      ∙ ap (λ k. value_from k rest) (omega arith))
]

-- Reading a printed number gives the number.
pub value-decimal : (n : ℕ) → value_from 0 (decimal n) ≡ n
unfolding decimal value_from
value-decimal n = value-digits_onto (suc n) n [] (omega arith)

digit-digits_onto :
    (fuel n : ℕ) (rest : Bytes)
    → all_of is_digit rest ≡ true
    → all_of is_digit (digits_onto fuel n rest) ≡ true
unfolding digits_onto
digit-digits_onto zero n rest h = h
digit-digits_onto (suc fuel) n rest h =
    ground (arith, digit-digits_onto fuel (n / 10) ((48 + n % 10) ∷ rest))

pub digit-decimal : (n : ℕ) → all_of is_digit (decimal n) ≡ true
unfolding decimal
digit-decimal n = digit-digits_onto (suc n) n [] refl

length-digits_onto : (fuel n : ℕ) (rest : Bytes) → length rest ≤ length (digits_onto fuel n rest)
unfolding digits_onto
length-digits_onto zero n rest = omega arith
length-digits_onto (suc fuel) n rest =
    ground (arith, length-digits_onto fuel (n / 10) ((48 + n % 10) ∷ rest))

pub length-decimal : (n : ℕ) → 0 < length (decimal n)
unfolding decimal digits_onto
length-decimal n = ground (arith, length-digits_onto n (n / 10) ((48 + n % 10) ∷ []))
