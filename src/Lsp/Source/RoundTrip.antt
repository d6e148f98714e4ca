-- ===== src/Lsp/Source/RoundTrip.antt =====
-- `positionAt` at the offset that `byteOffset` finds gives the position back.
use portolan.Prelude.{ℕ, Option, none, some, Bytes, ◌==◌, ◌≡◌, refl, sym, ◌∙◌, ap, inl, inr, arith}
use portolan.Context.{Error, ok, Context, check}
use portolan.Context.Success.{passed, passed_if, given}
use portolan.Prelude.Int.{pos, pos_part}
use portolan.Core.Types.{Position, validate_position}
use portolan.Lsp.Source.{
  Cursor, find_line, find_unit, at_unit, at_line, valid_offset, byte_offset, position_at,
}
use portolan.Lsp.Source.Runes.{find_unit-UnitWalk}
use portolan.Lsp.Source.Lines.{LineStart, line_start}

abbrev placed : ℕ → ℕ → Position
placed line units = record { line = pos line; character = pos units }

at_unit_lem :
    (p : Position) (u : Cursor) (c : Context) {n : ℕ} {d : Context}
    → at_unit p u c ≡ ok (n, d)
    → (n ≡ u.offset) × (u.count ≡ pos_part p.character)
unfolding at_unit
at_unit_lem p u c h = elim (passed_if (u.count == pos_part p.character) _ _ c h) [
  | inl v ↦ (sym (given v.1), ground (arith, v.0))
  | inr v ↦ absurd (ground (arith, v.1))
]

at_line_lem :
    (source : Bytes) (p : Position) (l : Cursor) (c : Context) {n : ℕ} {d : Context}
    → (l.count ≡ pos_part p.line → LineStart (pos_part p.line) 0 0 source l)
    → at_line p l c ≡ ok (n, d)
    → position_at source n
      ≡ record { line = pos (pos_part p.line); character = pos (pos_part p.character) }
unfolding at_line position_at
at_line_lem source p l c start h = elim (passed_if (l.count == pos_part p.line) _ _ c h) [
  | inl v ↦
      let s = start (ground (arith, v.0)) in
      let a = passed (find_unit (pos_part p.character) 0 l.offset 0 l.rest) _ c v.1 in
      let b = passed check _ a.between a.behind in
      let e = at_unit_lem p a.value b.between b.behind in
      let w = find_unit-UnitWalk (pos_part p.character) 0 l.offset 0 l.rest c a.before in
      s.from_start _ w.bytes (omega (arith, s.ends, w.ends, e.0))
      ∙ w.walk (pos_part p.line)
      ∙ ap (λ (k : ℕ). placed (pos_part p.line) k) e.1
  | inr v ↦ absurd (ground (arith, v.1))
]

valid_lem :
    (p : Position)
    → validate_position p ≡ none
    → placed (pos_part p.line) (pos_part p.character) ≡ p
unfolding validate_position
valid_lem p h = ground arith

valid_offset_lem :
    (o : Option Error) (source : Bytes) (p : Position) (c : Context) {n : ℕ} {d : Context}
    → validate_position p ≡ o
    → valid_offset o source p c ≡ ok (n, d)
    → position_at source n ≡ p
unfolding valid_offset
valid_offset_lem (some e) source p c v h = absurd cc
valid_offset_lem none source p c v h =
    let a = passed (find_line (pos_part p.line) 0 0 source) _ c h in
    at_line_lem source p a.value a.between (λ e. line_start (pos_part p.line) source c a.before e)
      a.behind
    ∙ valid_lem p v

-- If `byteOffsetContext` finds the offset of a position in a text, under whatever context and whatever
-- bytes the text has, `positionAt` gives that position back for the offset.
pub position_at-byte_offset :
    (source : Bytes) (p : Position) (c : Context) {n : ℕ} {d : Context}
    → byte_offset source p c ≡ ok (n, d)
    → position_at source n ≡ p
unfolding byte_offset
position_at-byte_offset source p c h =
    let a = passed check _ c h in
    valid_offset_lem (validate_position p) source p a.between refl a.behind
