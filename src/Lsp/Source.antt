-- ===== src/Lsp/Source.antt =====
-- internal/lsp/signatures.go: byte offsets of positions in a source text, and the text of a range. A
-- position counts UTF-16 units.
pub mod Slices
pub mod Runes
pub mod Lines
pub mod RoundTrip
pub mod Cancellation
use portolan.Prelude.{
  ℕ, zero, suc, ◌+◌, ◌-◌, ◌%◌, Bool, true, false, not, ◌&&◌, Option, none, some, List, [], ◌∷◌,
  Bytes, codes, ltb, ◌==◌, if◌then◌else◌, take, drop,
}
use portolan.Prelude.Int.{ℤ, pos, negsuc, pos_part}
use portolan.Context.{Error, text, Result, ok, err, M, ◌>>=◌, ◌>>◌, check, return, throw}
use portolan.Text.Utf8.{decode_rune, utf16_length}
use portolan.Core.Types.{Position, Range, validate_position}

-- Where a loop over the text is: what it counts, the byte offset, and the text from there on.
pub record Cursor : Type 0 where
  pub count : ℕ
  pub offset : ℕ
  pub rest : Bytes

-- The poll after every 256 bytes.
poll_at : ℕ → M (Unit {0})
poll_at offset = if offset % 256 == 0 then check else return tt

-- The loop over the lines in front of line `target`.
unfoldable pub find_line : ℕ → ℕ → ℕ → Bytes → M Cursor
unfolding poll_at
find_line target line offset [] = return (record { count = line; offset = offset; rest = [] })
find_line target line offset (c ∷ cs) =
    if ltb line target
    then poll_at (offset + 1)
      >> find_line target (if c == b'\n' then line + 1 else line) (offset + 1) cs
    else return (record { count = line; offset = offset; rest = c ∷ cs })

-- The loop over the runes of the line, up to `target` units. The offset is that behind the last rune, of
-- which `skip` bytes are still to be passed.
unfoldable pub find_unit : ℕ → ℕ → ℕ → ℕ → Bytes → M Cursor
unfolding poll_at
find_unit target units offset skip [] =
    return (record { count = units; offset = offset; rest = [] })
find_unit target units offset (suc skip) (c ∷ cs) = find_unit target units offset skip cs
find_unit target units offset zero (c ∷ cs) =
    let r = decode_rune (c ∷ cs) in
    if not (c == b'\n') && ltb units target
    then poll_at (offset + r.1)
      >> find_unit target (units + utf16_length r.0) (offset + r.1) (r.1 - 1) cs
    else return (record { count = units; offset = offset; rest = c ∷ cs })

at_unit : Position → Cursor → M ℕ
at_unit p u =
    if u.count == pos_part p.character
    then return u.offset
    else throw (text (codes "character is outside line"))

at_line : Position → Cursor → M ℕ
unfolding at_unit
at_line p l =
    if l.count == pos_part p.line
    then (find_unit (pos_part p.character) 0 l.offset 0 l.rest >>= λ u. check >> at_unit p u)
    else throw (text (codes "line is outside source"))

valid_offset : Option Error → Bytes → Position → M ℕ
unfolding at_line
valid_offset (some e) source p = throw e
valid_offset none source p = find_line (pos_part p.line) 0 0 source >>= at_line p

-- `byteOffsetContext`; `byteOffset` is this under a context that is never canceled.
unfoldable pub byte_offset : Bytes → Position → M ℕ
unfolding valid_offset
byte_offset source p = check >> valid_offset (validate_position p) source p

slice : Bytes → ℕ → ℕ → M Bytes
slice source start end =
    if ltb end start
    then throw (text (codes "range end precedes start"))
    else return (drop start (take end source))

-- `textInRange`.
unfoldable pub text_in_range : Bytes → Range → M Bytes
unfolding slice
text_in_range source r = byte_offset source r.start >>= λ start.
    byte_offset source r.end >>= λ end. slice source start end

-- The loop of `positionAt` over the text in front of the offset.
unfoldable pub position_from : ℕ → ℕ → ℕ → Bytes → Position
position_from line units skip [] = record { line = pos line; character = pos units }
position_from line units (suc skip) (c ∷ cs) = position_from line units skip cs
position_from line units zero (c ∷ cs) =
    let r = decode_rune (c ∷ cs) in
    let same = position_from line (units + utf16_length r.0) (r.1 - 1) cs in
    let below = position_from (line + 1) 0 (r.1 - 1) cs in if r.0 == b'\n' then below else same

unfoldable pub position_at : Bytes → ℕ → Position
unfolding position_from
position_at source offset = position_from 0 0 0 (take offset source)
