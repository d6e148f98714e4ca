-- ===== src/Lsp/Source/Slices.antt =====
-- The offset of a position lies within the source, so that the slices of the text are.
use portolan.Prelude.{
  ℕ, zero, suc, ◌+◌, ◌-◌, ◌≤◌, not, ◌&&◌, Option, none, some, [], ◌∷◌, ◌++◌, Bytes, ltb, ◌==◌,
  if◌then◌else◌, take, drop, length, length-take, length-drop, take-append-drop, ◌≡◌, sym, subst,
  ◌∙◌, ap, inl, inr, arith, append_assoc,
}
use portolan.Context.{Error, ok, Context, check}
use portolan.Context.Success.{passed, passed_if, given}
use portolan.Text.Utf8.{decode_rune, decode_rune_size, utf16_length}
use portolan.Prelude.Int.{pos_part}
use portolan.Core.Types.{Position, Range, validate_position}
use portolan.Lsp.Source.{
  Cursor, poll_at, find_line, find_unit, at_unit, at_line, valid_offset, byte_offset, slice,
  text_in_range,
}

find_line-bounds :
    (target line offset : ℕ) (s : Bytes) (c : Context) {u : Cursor} {d : Context}
    → find_line target line offset s c ≡ ok (u, d)
    → u.offset + length u.rest ≡ offset + length s
unfolding find_line
find_line-bounds target line offset [] c h = let e = given h in ground arith
find_line-bounds target line offset (b ∷ bs) c h = elim (passed_if (ltb line target) _ _ c h) [
  | inl more ↦
      let p = passed (poll_at (offset + 1)) _ c more.1 in
      let r =
        find_line-bounds target (if b == b'\n' then line + 1 else line) (offset + 1) bs p.between
          p.behind in
      ground arith
  | inr stop ↦ let e = given stop.1 in ground arith
]

find_unit-bounds :
    (target units offset skip : ℕ) (s : Bytes) (c : Context) {u : Cursor} {d : Context}
    → skip ≤ length s
    → find_unit target units offset skip s c ≡ ok (u, d)
    → u.offset + skip ≤ offset + length s
unfolding find_unit
find_unit-bounds target units offset skip [] c v h = let e = given h in ground arith
find_unit-bounds target units offset (suc skip) (b ∷ bs) c v h =
    let r = find_unit-bounds target units offset skip bs c (omega arith) h in omega arith
find_unit-bounds target units offset zero (b ∷ bs) c v h =
    elim (passed_if (not (b == b'\n') && ltb units target) _ _ c h) [
      | inl more ↦
          let size = decode_rune_size b bs in
          let n = (decode_rune (b ∷ bs)).1 in
          let p = passed (poll_at (offset + n)) _ c more.1 in
          let r =
            find_unit-bounds target (units + utf16_length (decode_rune (b ∷ bs)).0) (offset + n)
              (n - 1) bs p.between (omega arith) p.behind in
          omega arith
      | inr stop ↦ let e = given stop.1 in ground arith
    ]

at_unit_ok :
    (p : Position) (u : Cursor) (c : Context) {n : ℕ} {d : Context}
    → at_unit p u c ≡ ok (n, d)
    → n ≡ u.offset
unfolding at_unit
at_unit_ok p u c h = elim (passed_if (u.count == pos_part p.character) _ _ c h) [
  | inl v ↦ sym (given v.1)
  | inr v ↦ absurd (ground (arith, v.1))
]

at_line-bounds :
    (p : Position) (l : Cursor) (c : Context) {n : ℕ} {d : Context}
    → at_line p l c ≡ ok (n, d)
    → n ≤ l.offset + length l.rest
unfolding at_line
at_line-bounds p l c h = elim (passed_if (l.count == pos_part p.line) _ _ c h) [
  | inl v ↦
      let a = passed (find_unit (pos_part p.character) 0 l.offset 0 l.rest) _ c v.1 in
      let b = passed check _ a.between a.behind in
      let e = at_unit_ok p a.value b.between b.behind in
      let r =
        find_unit-bounds (pos_part p.character) 0 l.offset 0 l.rest c (omega arith) a.before in
      omega arith
  | inr v ↦ absurd (ground (arith, v.1))
]

valid_offset-bounds :
    (o : Option Error) (source : Bytes) (p : Position) (c : Context) {n : ℕ} {d : Context}
    → valid_offset o source p c ≡ ok (n, d)
    → n ≤ length source
unfolding valid_offset
valid_offset-bounds (some e) source p c h = absurd cc
valid_offset-bounds none source p c h =
    let a = passed (find_line (pos_part p.line) 0 0 source) _ c h in
    let r = find_line-bounds (pos_part p.line) 0 0 source c a.before in
    let s = at_line-bounds p a.value a.between a.behind in omega arith

byte_offset-bounds :
    (source : Bytes) (p : Position) (c : Context) {n : ℕ} {d : Context}
    → byte_offset source p c ≡ ok (n, d)
    → n ≤ length source
unfolding byte_offset
byte_offset-bounds source p c h =
    let a = passed check _ c h in
    valid_offset-bounds (validate_position p) source p a.between a.behind

-- A piece of a text, between the offsets of two positions that are found one behind the other.
pub record IsPiece (source : Bytes) (r : Range) (c : Context) (t : Bytes) : Type 0 where
  pub front : Bytes
  pub back : Bytes
  pub splits : source ≡ front ++ (t ++ back)
  pub starts : Context
  pub start_is : byte_offset source r.start c ≡ ok (length front, starts)
  pub ends : Context
  pub end_is : byte_offset source r.end starts ≡ ok (length front + length t, ends)

-- Cut at two places, in order.
cut : (s : Bytes) (i j : ℕ) → s ≡ take i (take j s) ++ (drop i (take j s) ++ drop j s)
cut s i j =
    sym (take-append-drop j s)
    ∙ ap (λ t. t ++ drop j s) (sym (take-append-drop i (take j s)))
    ∙ append_assoc (take i (take j s)) (drop i (take j s)) (drop j s)

-- If `textInRange` returns a text, under whatever context, it is the piece of the source between the
-- offsets of the two positions of the range, both of which lie within the source.
pub text_in_range-IsPiece :
    (source : Bytes) (r : Range) (c : Context) {t : Bytes} {d : Context}
    → text_in_range source r c ≡ ok (t, d)
    → IsPiece source r c t
unfolding text_in_range slice
text_in_range-IsPiece source r c {t = t} h =
    let a = passed (byte_offset source r.start) _ c h in
    let b = passed (byte_offset source r.end) _ a.between a.behind in
    let i = a.value in
    let j = b.value in
    let low = byte_offset-bounds source r.start c a.before in
    let high = byte_offset-bounds source r.end a.between b.before in
    elim (passed_if (ltb j i) _ _ b.between b.behind) [
      | inl late ↦ absurd cc
      | inr fine ↦
          let e = given fine.1 in
          let order : i ≤ j = ground arith in
          let n : length (take i (take j source)) ≡ i =
            omega (arith, length-take j source, length-take i (take j source)) in
          let m : length (take i (take j source)) + length (drop i (take j source)) ≡ j = omega (
            arith,
            length-take j source,
            length-take i (take j source),
            length-drop i (take j source),
          ) in
          record {
            front = take i (take j source);
            back = drop j source;
            splits =
                subst (λ x. source ≡ take i (take j source) ++ (x ++ drop j source)) e
                  (cut source i j);
            starts = a.between;
            start_is =
                subst (λ x. byte_offset source r.start c ≡ ok (x, a.between)) (sym n) a.before;
            ends = b.between;
            end_is =
                subst (λ x. byte_offset source r.end a.between ≡ ok (x, b.between))
                  (sym (subst (λ x. length (take i (take j source)) + length x ≡ j) e m)) b.before;
          }
    ]
