-- ===== src/Lsp/Lexical/Body.antt =====
-- internal/lsp/declaration_headers.go: where the body of a declaration begins.
use portolan.Prelude.{
  ℕ, ◌+◌, ◌-◌, Bool, true, not, ◌&&◌, ◌||◌, Option, none, some, List, [], ◌∷◌, Bytes, codes, ltb,
  ◌==◌, if◌then◌else◌, length, equal, find,
}
use portolan.Context.{M, ◌>>=◌, ◌>>◌, check, return}
use portolan.Text.Utf8.{decode_rune}
use portolan.Text.Space.{is_space}
use portolan.Lsp.Lexical.{
  no_span, comment, literal, scan_context, scan_lexical_span, byte_at, token_boundary, has_prefix,
  Round, done, next, scan, between,
}
use portolan.Lsp.Lexical.Tokens.{any_of, behind, rune_rest}

-- `declarationContextualKeywords`.
abbrev pub contextual_keywords : List Bytes
contextual_keywords =
    codes "extends"
    ∷ codes "implements"
    ∷ codes "keyof"
    ∷ codes "typeof"
    ∷ codes "infer"
    ∷ codes "readonly"
    ∷ codes "new"
    ∷ codes "abstract"
    ∷ []

unfoldable pub declaration_keyword_at : Bytes → ℕ → Bytes → Option Bytes
declaration_keyword_at source start rest =
    find (λ k. has_prefix k rest && token_boundary source start k) contextual_keywords

abbrev pub incomplete_tokens : List Bytes
incomplete_tokens =
    (40 ∷ [])
    ∷ codes "["
    ∷ codes "{"
    ∷ codes "<"
    ∷ codes ","
    ∷ codes "?"
    ∷ codes ":"
    ∷ codes "="
    ∷ codes "=>"
    ∷ codes "&"
    ∷ codes "|"
    ∷ codes "."
    ∷ []

unfoldable pub incomplete_declaration_token : Bytes → Bool
unfolding declaration_keyword_at
incomplete_declaration_token token = elim (declaration_keyword_at token 0 token) [
  | some k ↦ true
  | none ↦ any_of (equal token) incomplete_tokens
]

-- Where the search for the body is: what is open, and the last token seen, as far as it matters.
pub record Nesting : Type 0 where
  pub paren_depth : ℕ
  pub bracket_depth : ℕ
  pub brace_depth : ℕ
  pub angle_depth : ℕ
  pub last : Bytes

abbrev pub value : Bytes
value = codes "value"

abbrev pub start_nesting : Nesting
start_nesting = record {
  paren_depth = 0;
  bracket_depth = 0;
  brace_depth = 0;
  angle_depth = 0;
  last = value;
}

abbrev pub no_brackets : Nesting → Bool
no_brackets n = n.paren_depth == 0 && (n.bracket_depth == 0 && n.brace_depth == 0)

-- `case '>'`; `arrow` is whether a `=` stands directly in front.
unfoldable pub close_angle : Bool → ℕ → Nesting → Round Nesting (Option ℕ)
close_angle arrow more n =
    if no_brackets n
    then (if arrow
        then next more (record n { last = codes "=>" })
        else if n.angle_depth == 0
            || (not (equal n.last (codes ",")) && incomplete_declaration_token n.last)
        then done none
        else next more (record n { angle_depth = n.angle_depth - 1; last = value }))
    else next more n

-- `case '{'`.
unfoldable pub open_brace : ℕ → ℕ → Nesting → Round Nesting (Option ℕ)
open_brace i more n =
    if no_brackets n && n.angle_depth == 0
    then (if incomplete_declaration_token n.last then done none else done (some i))
    else next more (record n { brace_depth = n.brace_depth + 1; last = codes "{" })

-- The default of the switch, for the rune in front.
unfoldable pub other_rune : ℕ → ℕ → Nesting → Round Nesting (Option ℕ)
other_rune r more n = next more (if is_space r then n else record n { last = value })

-- `switch source[i]`, the cases that are no bracket.
unfoldable pub body_mark : ℕ → ℕ → ℕ → Nesting → Round Nesting (Option ℕ)
unfolding other_rune
body_mark c r more n =
    if c == b';'
    then (if no_brackets n && n.angle_depth == 0
        then done none
        else next more (record n { last = value }))
    else if any_of (◌==◌ c) (codes ",?:=&|.")
    then next more (record n { last = c ∷ [] })
    else other_rune r more n

-- `switch source[i]`, with `r` the rune there.
unfoldable pub body_byte : Bool → ℕ → ℕ → ℕ → ℕ → Nesting → Round Nesting (Option ℕ)
unfolding close_angle open_brace body_mark
body_byte arrow i c r more n =
    if c == 40
    then next more (record n { paren_depth = n.paren_depth + 1; last = 40 ∷ [] })
    else if c == 41
    then (if n.paren_depth == 0
        then done none
        else next more (record n { paren_depth = n.paren_depth - 1; last = value }))
    else if c == b'['
    then next more (record n { bracket_depth = n.bracket_depth + 1; last = codes "[" })
    else if c == b']'
    then (if n.bracket_depth == 0
        then done none
        else next more (record n { bracket_depth = n.bracket_depth - 1; last = value }))
    else if c == b'<'
    then next more (
        if no_brackets n then record n { angle_depth = n.angle_depth + 1; last = codes "<" } else n)
    else if c == b'>'
    then close_angle arrow more n
    else if c == b'{'
    then open_brace i more n
    else if c == b'}'
    then (if n.brace_depth == 0
        then done none
        else next more (record n { brace_depth = n.brace_depth - 1; last = value }))
    else body_mark c r more n

-- A round outside comments and literals: a contextual keyword, or one rune.
unfoldable pub body_here : Bytes → ℕ → ℕ → Nesting → Bytes → Round Nesting (Option ℕ)
unfolding body_byte
body_here source start i n rest = elim (declaration_keyword_at source i rest) [
  | some k ↦ next (length k - 1) (record n { last = if equal n.last (codes ".") then value else k })
  | none ↦
      body_byte (ltb start i && byte_at source (i - 1) == b'=') i (byte_at rest 0)
        (decode_rune rest).0 (rune_rest rest) n
]

unfoldable pub body_round : Bytes → ℕ → ℕ → Nesting → Bytes → M (Round Nesting (Option ℕ))
unfolding body_here
body_round source start i n rest =
    scan_context (i - start)
    >> (scan_lexical_span i rest >>= λ s. elim s.kind [
      | no_span ↦ return (body_here source start i n rest)
      | comment ↦ return (behind i s n none)
      | literal ↦ return (behind i s (record n { last = value }) none)
    ])

unfoldable pub declaration_body_offset : Bytes → ℕ → ℕ → M (Option ℕ)
unfolding body_round
declaration_body_offset source start end =
    scan (body_round source start) (λ n. check >> return none) start 0 start_nesting
      (between start end source)
