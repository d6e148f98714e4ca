-- ===== src/Core/Ranges.antt =====
-- What `Validate` and `Contains` of internal/core/types.go decide, in terms of the order of positions.
use portolan.Prelude.{◌+◌, ◌≤◌, ◌<◌, ◌≡◌, ◌↔◌, ◌⊎◌, none, true, false, arith}
use portolan.Prelude.Int.{ℤ, pos_part, neg_part}
use portolan.Core.Types.{
  Position, Range, validate_position, validate_range, position_before, contains,
}

abbrev pub ◌≤ℤ◌ : ℤ → ℤ → Type 0
◌≤ℤ◌ a b = pos_part a + neg_part b ≤ pos_part b + neg_part a

-- The order of the text: by line, then by character.
abbrev pub ◌<ℤ◌ : ℤ → ℤ → Type 0
◌<ℤ◌ a b = pos_part a + neg_part b < pos_part b + neg_part a

abbrev pub Follows : Position → Position → Type 0
Follows a b = ◌<ℤ◌ a.line b.line ⊎ ((a.line ≡ b.line) × ◌≤ℤ◌ a.character b.character)

pub record IsPosition (p : Position) : Type 0 where
  pub line_nonneg : neg_part p.line ≡ 0
  pub character_nonneg : neg_part p.character ≡ 0

pub record IsRange (r : Range) : Type 0 where
  pub starts : IsPosition r.start
  pub ends : IsPosition r.end
  pub ordered : Follows r.start r.end

validate_position_iff : (p : Position) → (validate_position p ≡ none) ↔ IsPosition p
unfolding validate_position
validate_position_iff p = (λ h. ground arith, λ h. ground arith)

precedes-Follows : (a b : Position) → (position_before b a ≡ false) ↔ Follows a b
unfolding position_before
precedes-Follows a b = (λ h. ground arith, λ h. ground arith)

-- `Range.Validate` accepts exactly the ranges whose ends are positions, in the order of the text.
pub validate_range_iff : (r : Range) → (validate_range r ≡ none) ↔ IsRange r
unfolding validate_range
validate_range_iff r = (λ h. ground arith, λ h. ground arith)

-- `Contains` holds exactly where the inner range starts no earlier and ends no later than the outer one.
pub contains_iff :
    (r inner : Range)
    → (contains r inner ≡ true) ↔ (Follows r.start inner.start × Follows inner.end r.end)
unfolding contains
contains_iff r inner = (λ h. ground arith, λ h. ground arith)
