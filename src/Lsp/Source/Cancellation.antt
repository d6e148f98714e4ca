-- ===== src/Lsp/Source/Cancellation.antt =====
-- Cancellation does not change the offset of a position.
use portolan.Prelude.{
  codes, ℕ, zero, suc, ◌+◌, ◌-◌, ◌%◌, not, ◌&&◌, Option, none, some, [], ◌∷◌, Bytes, ltb, ◌==◌,
  if◌then◌else◌,
}
use portolan.Prelude.Int.{pos_part}
use portolan.Context.{Error, text, M, ◌>>=◌, ◌>>◌, check, return, throw}
use portolan.Context.Polling.{
  Transparent, return-Transparent, throw-Transparent, if-Transparent, check-Transparent,
  bind-Transparent,
}
use portolan.Core.Types.{Position, validate_position}
use portolan.Text.Utf8.{decode_rune, utf16_length}
use portolan.Lsp.Source.{Cursor, find_line, find_unit, byte_offset, at_unit, at_line, valid_offset}

-- The offsets of the range.
step-Transparent :
    {A : Type 0} (n : ℕ) (m : M A)
    → Transparent m
    → Transparent ((if n % 256 == 0 then check else return tt) >> m)
step-Transparent n m h =
    bind-Transparent (if n % 256 == 0 then check else return tt) (λ _. m)
      (if-Transparent (n % 256 == 0) check (return tt) check-Transparent (return-Transparent tt))
      (λ _. h)

find_line-Transparent :
    (target line offset : ℕ) (rest : Bytes) → Transparent (find_line target line offset rest)
unfolding find_line
find_line-Transparent target line offset [] = return-Transparent _
find_line-Transparent target line offset (c ∷ cs) =
    let below = if c == b'\n' then line + 1 else line in
    let stop : Cursor = record { count = line; offset = offset; rest = c ∷ cs } in
    if-Transparent (ltb line target)
      ((if (offset + 1) % 256 == 0 then check else return tt)
        >> find_line target below (offset + 1) cs)
      (return stop)
      (step-Transparent (offset + 1) (find_line target below (offset + 1) cs)
        (find_line-Transparent target below (offset + 1) cs))
      (return-Transparent stop)

find_unit-Transparent :
    (target units offset skip : ℕ) (rest : Bytes)
    → Transparent (find_unit target units offset skip rest)
unfolding find_unit
find_unit-Transparent target units offset skip [] = return-Transparent _
find_unit-Transparent target units offset (suc skip) (c ∷ cs) =
    find_unit-Transparent target units offset skip cs
find_unit-Transparent target units offset zero (c ∷ cs) =
    let r = decode_rune (c ∷ cs) in
    let on = find_unit target (units + utf16_length r.0) (offset + r.1) (r.1 - 1) cs in
    let stop : Cursor = record { count = units; offset = offset; rest = c ∷ cs } in
    if-Transparent (not (c == b'\n') && ltb units target)
      ((if (offset + r.1) % 256 == 0 then check else return tt) >> on) (return stop)
      (step-Transparent (offset + r.1) on
        (find_unit-Transparent target (units + utf16_length r.0) (offset + r.1) (r.1 - 1) cs))
      (return-Transparent stop)

outside_line : Error
outside_line = text (codes "character is outside line")

outside_source : Error
outside_source = text (codes "line is outside source")

at_unit-Transparent : (p : Position) (u : Cursor) → Transparent (at_unit p u)
unfolding at_unit outside_line
at_unit-Transparent p u =
    if-Transparent (u.count == pos_part p.character) (return u.offset) (throw outside_line)
      (return-Transparent u.offset) (throw-Transparent outside_line)

at_line-Transparent : (p : Position) (l : Cursor) → Transparent (at_line p l)
unfolding at_line outside_source
at_line-Transparent p l =
    if-Transparent (l.count == pos_part p.line)
      (find_unit (pos_part p.character) 0 l.offset 0 l.rest >>= λ u. check >> at_unit p u)
      (throw outside_source)
      (bind-Transparent (find_unit (pos_part p.character) 0 l.offset 0 l.rest)
        (λ u. check >> at_unit p u)
        (find_unit-Transparent (pos_part p.character) 0 l.offset 0 l.rest)
        (λ u.
          bind-Transparent check (λ _. at_unit p u) check-Transparent
            (λ _. at_unit-Transparent p u)))
      (throw-Transparent outside_source)

valid_offset-Transparent :
    (o : Option Error) (source : Bytes) (p : Position) → Transparent (valid_offset o source p)
unfolding valid_offset
valid_offset-Transparent (some e) source p = throw-Transparent e
valid_offset-Transparent none source p =
    bind-Transparent (find_line (pos_part p.line) 0 0 source) (at_line p)
      (find_line-Transparent (pos_part p.line) 0 0 source) (at_line-Transparent p)

pub byte_offset-Transparent : (source : Bytes) (p : Position) → Transparent (byte_offset source p)
unfolding byte_offset
byte_offset-Transparent source p =
    bind-Transparent check (λ _. valid_offset (validate_position p) source p) check-Transparent
      (λ _. valid_offset-Transparent (validate_position p) source p)
