-- ===== src/Lsp/Framing.antt =====
-- internal/lsp/framing.go: the base protocol of the language server. The reader is the bytes that are
-- still to come, after which it ends.
pub mod RoundTrip
pub mod Writing
use portolan.Prelude.{
  ℕ, zero, suc, ◌+◌, ◌-◌, Bool, true, false, ◌&&◌, Option, none, some, List, [], ◌∷◌, ◌++◌, map,
  Bytes, codes, equal, ltb, leb, ◌==◌, is_empty, if◌then◌else◌, length, take, drop,
}
use portolan.Prelude.Int.{ℤ, pos, negsuc}
use portolan.Context.{Error, eof, text, wrapped, Result, ok, err}
use portolan.Text.Space.{trim_space, trim_line_end}
use portolan.Text.Atoi.{atoi}
use portolan.Text.Decimal.{decimal}

-- `strings.EqualFold` with an ASCII text that has neither k nor s: no other rune folds to its letters.
abbrev lower : ℕ → ℕ
lower c = if leb b'A' c && leb c b'Z' then c - b'A' + b'a' else c

abbrev pub fold_equal : Bytes → Bytes → Bool
fold_equal a b = equal (map lower a) (map lower b)

-- `strings.SplitN(s, ":", 2)`: what stands before and behind the first colon.
unfoldable pub split_colon : Bytes → Option (Bytes × Bytes)
split_colon [] = none
split_colon (c ∷ cs) =
    if c == b':'
    then some ([], cs)
    else elim (split_colon cs) [ none ↦ none | some p ↦ some (c ∷ p.0, p.1) ]

-- What a header line does to the loop.
pub data HeaderLine : Type 0 where
  blank : HeaderLine
  next : ℤ → HeaderLine
  bad : Error → HeaderLine

after_length : Option ℤ → HeaderLine
after_length (some n) = next n
after_length none = bad (text (codes "lsp: bad Content-Length"))

after_split : ℤ → Option (Bytes × Bytes) → HeaderLine
after_split n none = next n
after_split n (some p) =
    if fold_equal (trim_space p.0) (codes "Content-Length")
    then after_length (atoi (trim_space p.1))
    else next n

unfoldable pub header_line : ℤ → Bytes → HeaderLine
unfolding after_split after_length
header_line n line =
    if is_empty (trim_line_end line)
    then blank
    else after_split n (split_colon (trim_line_end line))

-- The loop over the header lines. `line` is what `ReadString('\n')` has read of the line so far; the
-- result is the content length and what follows the blank line.
unfoldable pub read_headers : Bytes → ℤ → Bytes → Result (ℤ × Bytes)
read_headers line n [] = err eof
read_headers line n (c ∷ cs) = elim (c == b'\n') [
  | true ↦ elim (header_line n (line ++ (c ∷ []))) [
    | blank ↦ ok (n, cs)
    | next m ↦ read_headers [] m cs
    | bad e ↦ err e
  ]
  | false ↦ read_headers (line ++ (c ∷ [])) n cs
]

-- `io.ReadFull` of the body.
read_body : ℕ → Bytes → Result (Bytes × Bytes)
read_body n rest =
    if leb n (length rest)
    then ok (take n rest, drop n rest)
    else if is_empty rest
    then err eof
    else err (text (codes "unexpected EOF"))

after_headers : Result (ℤ × Bytes) → Result (Bytes × Bytes)
after_headers (err e) = err e
after_headers (ok (negsuc n, rest)) =
    err (text (codes "lsp: message missing Content-Length header"))
after_headers (ok (pos n, rest)) = read_body n rest

-- `readFrame`: one message and what is left of the stream.
unfoldable pub read_frame : Bytes → Result (Bytes × Bytes)
unfolding after_headers read_body
read_frame s = after_headers (read_headers [] (negsuc 0) s)

unfoldable pub frame_bytes : Bytes → Bytes
frame_bytes body =
    codes "Content-Length: " ++ (decimal (length body) ++ (b'\r' ∷ b'\n' ∷ b'\r' ∷ b'\n' ∷ body))
