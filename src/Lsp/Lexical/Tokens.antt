-- ===== src/Lsp/Lexical/Tokens.antt =====
-- internal/lsp/declaration_headers.go: the search for a token outside all brackets, and what stands between
-- a keyword and the name that it declares.
use portolan.Prelude.{
  ℕ, ◌+◌, ◌-◌, Bool, false, not, ◌&&◌, ◌||◌, Option, none, some, List, [], ◌∷◌, Bytes, ◌==◌,
  if◌then◌else◌,
}
use portolan.Context.{M, ◌>>=◌, ◌>>◌, check, return}
use portolan.Text.Utf8.{decode_rune}
use portolan.Text.Space.{is_space}
use portolan.Lsp.Lexical.{
  no_span, comment, literal, Span, scan_context, scan_lexical_span, byte_at, token_boundary,
  has_prefix, Round, done, next, scan, between,
}

abbrev pub any_of {ℓ} : {A : Type ℓ} → (A → Bool) → List A → Bool
any_of p [] = false
any_of p (x ∷ xs) = p x || any_of p xs

-- How many bytes of the rune in front are still to be passed once its first byte is.
abbrev pub rune_rest : Bytes → ℕ
rune_rest rest = (decode_rune rest).1 - 1

-- `i = next` behind a comment or a literal that ends.
unfoldable pub behind {ℓ κ} : {S : Type ℓ} {R : Type κ} → ℕ → Span → S → R → Round S R
behind i s t r = if s.complete then next (s.next - i - 1) t else done r

pub record Depths : Type 0 where
  pub paren_depth : ℕ
  pub bracket_depth : ℕ
  pub brace_depth : ℕ

abbrev pub outside : Depths
outside = record { paren_depth = 0; bracket_depth = 0; brace_depth = 0 }

unfoldable pub nest : ℕ → Depths → Depths
nest c d =
    if c == 40
    then record d { paren_depth = d.paren_depth + 1 }
    else if c == 41
    then record d { paren_depth = d.paren_depth - 1 }
    else if c == b'['
    then record d { bracket_depth = d.bracket_depth + 1 }
    else if c == b']'
    then record d { bracket_depth = d.bracket_depth - 1 }
    else if c == b'{'
    then record d { brace_depth = d.brace_depth + 1 }
    else if c == b'}'
    then record d { brace_depth = d.brace_depth - 1 }
    else d

abbrev pub at_top : Depths → Bool
at_top d = d.paren_depth == 0 && (d.bracket_depth == 0 && d.brace_depth == 0)

-- One of the tokens begins here.
abbrev pub token_here : Bytes → List Bytes → ℕ → Bytes → Bool
token_here source tokens i rest =
    any_of (λ t. has_prefix t rest && token_boundary source i t) tokens

unfoldable pub token_byte : Bytes → List Bytes → ℕ → Depths → Bytes → Round Depths (Option ℕ)
unfolding nest
token_byte source tokens i d rest =
    let e = nest (byte_at rest 0) d in
    if at_top e && token_here source tokens i rest then done (some i) else next (rune_rest rest) e

unfoldable pub token_round :
    Bytes → List Bytes → ℕ → ℕ → Depths → Bytes → M (Round Depths (Option ℕ))
unfolding token_byte behind
token_round source tokens start i d rest =
    scan_context (i - start)
    >> (scan_lexical_span i rest >>= λ s. elim s.kind [
      | no_span ↦ return (token_byte source tokens i d rest)
      | comment ↦ return (behind i s d none)
      | literal ↦ return (behind i s d none)
    ])

unfoldable pub declaration_token_offset : Bytes → ℕ → ℕ → List Bytes → M (Option ℕ)
unfolding token_round
declaration_token_offset source start end tokens =
    scan (token_round source tokens start) (λ d. check >> return none) start 0 outside
      (between start end source)

unfoldable pub trivia_round : ℕ → ℕ → Unit {0} → Bytes → M (Round (Unit {0}) (Option ℕ))
unfolding behind
trivia_round start i u rest =
    scan_context (i - start)
    >> (scan_lexical_span i rest >>= λ s. elim s.kind [
      | no_span ↦
          return
            (if not (is_space (decode_rune rest).0) then done (some i) else next (rune_rest rest) u)
      | comment ↦ return (behind i s u none)
      | literal ↦ return (done none)
    ])

unfoldable pub skip_declaration_trivia : Bytes → ℕ → ℕ → M (Option ℕ)
unfolding trivia_round
skip_declaration_trivia source start end =
    scan (trivia_round start) (λ u. return none) start 0 tt (between start end source)
