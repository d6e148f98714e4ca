-- ===== src/Lsp/Lexical.antt =====
-- internal/lsp/declaration_headers.go: the scanner that the passes over a declaration share: comments and
-- literals, token boundaries, and the loop over `source[i:end]`, which polls the context. The text from
-- an offset up to the end of the range is a list of bytes beside that offset.
pub mod Spans
pub mod Cancellation
pub mod Loop
pub mod Local
pub mod Tokens
pub mod Body
use portolan.Prelude.{
  ℕ, zero, suc, ◌+◌, ◌-◌, ◌%◌, Bool, true, false, not, ◌&&◌, ◌||◌, Option, none, some, List, [],
  ◌∷◌, Bytes, codes, ltb, leb, ◌==◌, if◌then◌else◌, take, drop, length, equal,
}
use portolan.Context.{M, ◌>>=◌, ◌>>◌, check, return}
use portolan.Text.Utf8.{within}

pub data LexicalSpanKind : Type 0 where
  no_span comment literal : LexicalSpanKind

-- What `scanLexicalSpan` returns besides the error.
pub record Span : Type 0 where
  pub next : ℕ
  pub kind : LexicalSpanKind
  pub complete : Bool

unfoldable pub scan_context : ℕ → M (Unit {0})
scan_context scanned = if ltb 0 scanned && scanned % 256 == 0 then check else return tt

-- `// …`, from `scanned` bytes behind `start` on.
unfoldable pub line_comment : ℕ → ℕ → Bytes → M Span
line_comment start scanned [] =
    return (record { next = start + scanned; kind = comment; complete = true })
line_comment start scanned (c ∷ cs) =
    scan_context scanned
    >> (if c == b'\n'
        then return (record { next = start + scanned + 1; kind = comment; complete = true })
        else line_comment start (scanned + 1) cs)

-- `/* … */`.
unfoldable pub block_comment : ℕ → ℕ → Bytes → M Span
block_comment start scanned [] =
    return (record { next = start + scanned; kind = comment; complete = false })
block_comment start scanned (c ∷ []) =
    return (record { next = start + scanned + 1; kind = comment; complete = false })
block_comment start scanned (c ∷ d ∷ cs) =
    scan_context scanned
    >> (if c == b'*' && d == b'/'
        then return (record { next = start + scanned + 2; kind = comment; complete = true })
        else block_comment start (scanned + 1) (d ∷ cs))

-- The rest of a literal. `escaped` is the byte behind a backslash, which the loop jumps over.
unfoldable pub quoted : ℕ → ℕ → ℕ → Bool → Bytes → M Span
quoted quote start scanned escaped [] =
    return (record { next = start + scanned; kind = literal; complete = false })
quoted quote start scanned true (c ∷ cs) = quoted quote start (scanned + 1) false cs
quoted quote start scanned false (c ∷ cs) =
    scan_context scanned
    >> (if not (c == b'\\') && c == quote
        then return (record { next = start + scanned + 1; kind = literal; complete = true })
        else quoted quote start (scanned + 1) (c == b'\\') cs)

abbrev pub is_quote : ℕ → Bool
is_quote c = c == 39 || (c == 34 || c == 96)

unfoldable pub literal_span : ℕ → ℕ → Bytes → M Span
literal_span start c cs =
    if is_quote c
    then quoted c start 1 false cs
    else return (record { next = start; kind = no_span; complete = true })

-- `scanLexicalSpan`; the bytes are `source[start:end]`, of which the program reads the first.
unfoldable pub scan_lexical_span : ℕ → Bytes → M Span
unfolding literal_span
scan_lexical_span start [] = return (record { next = start; kind = no_span; complete = true })
scan_lexical_span start (c ∷ []) = literal_span start c []
scan_lexical_span start (c ∷ d ∷ cs) =
    if c == b'/' && d == b'/'
    then line_comment start 2 cs
    else if c == b'/' && d == b'*'
    then block_comment start 2 cs
    else literal_span start c (d ∷ cs)

unfoldable pub is_identifier_byte : ℕ → Bool
is_identifier_byte b =
    b == b'_'
    || b == b'$'
    || within b'0' b'9' b
    || within b'A' b'Z' b
    || within b'a' b'z' b
    || leb 0x80 b

-- `source[i]`; the callers keep `i` inside the text.
unfoldable pub byte_at : Bytes → ℕ → ℕ
byte_at [] i = 0
byte_at (c ∷ cs) zero = c
byte_at (c ∷ cs) (suc i) = byte_at cs i

unfoldable pub token_boundary : Bytes → ℕ → Bytes → Bool
token_boundary source start token =
    let before_ok = start == 0 || not (is_identifier_byte (byte_at source (start - 1))) in
    let end = start + length token in
    let after_ok = end == length source || not (is_identifier_byte (byte_at source end)) in
    equal token (codes "=>") || (before_ok && after_ok)

-- `strings.HasPrefix(s, prefix)`, as `has_prefix prefix s`.
unfoldable pub has_prefix : Bytes → Bytes → Bool
has_prefix [] s = true
has_prefix (p ∷ ps) [] = false
has_prefix (p ∷ ps) (c ∷ cs) = p == c && has_prefix ps cs

-- One round of a loop returns, or goes on behind `more + 1` bytes.
pub data Round {ℓ κ} (S : Type ℓ) (R : Type κ) : Type (ℓ ⊔ κ) where
  done : R → Round S R
  next : ℕ → S → Round S R

-- `for i := start; i < end; { … }`: `round i s rest` is the body, `finish` what stands behind the loop,
-- and the second number how many bytes are still to be passed.
unfoldable pub scan {ℓ κ} :
    {S : Type ℓ} {R : Type κ}
    → (ℕ → S → Bytes → M (Round S R))
    → (S → M R)
    → ℕ
    → ℕ
    → S
    → Bytes
    → M R
scan round finish i more s [] = finish s
scan round finish i (suc more) s (c ∷ cs) = scan round finish (i + 1) more s cs
scan round finish i zero s (c ∷ cs) = round i s (c ∷ cs) >>= λ o. elim o [
  | done r ↦ return r
  | next more t ↦ scan round finish (i + 1) more t cs
]

-- `source[start:end]`.
abbrev pub between : ℕ → ℕ → Bytes → Bytes
between start end source = drop start (take end source)
