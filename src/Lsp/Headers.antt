-- ===== src/Lsp/Headers.antt =====
-- internal/lsp/declaration_headers.go: the header of a class or an interface, cut out of the source text in
-- front of its body, with comments dropped and white space collapsed.
pub mod Collapsed
pub mod Found
pub mod Growth
pub mod Lockstep
pub mod Cuts
pub mod Named
pub mod Titled
pub mod Cancellation
use portolan.Prelude.{
  ℕ, zero, suc, ◌+◌, ◌-◌, Bool, true, false, not, ◌&&◌, ◌||◌, Option, none, some, List, [], ◌∷◌,
  ◌++◌, Bytes, codes, ltb, ◌==◌, if◌then◌else◌, take, drop, length, equal, find, is_empty,
}
use portolan.Context.{M, ◌>>=◌, ◌>>◌, check, return}
use portolan.Core.Types.{Symbol, SymbolKind}
use portolan.Text.Utf8.{decode_rune}
use portolan.Text.Space.{is_space}
use portolan.Lsp.Source.{byte_offset}
use portolan.Lsp.Lexical.{
  no_span, comment, literal, Span, scan_context, scan_lexical_span, byte_at, token_boundary,
  has_prefix, Round, done, next, scan, between,
}
use portolan.Lsp.Lexical.Tokens.{
  any_of, behind, rune_rest, declaration_token_offset, skip_declaration_trivia,
}
use portolan.Lsp.Lexical.Body.{declaration_body_offset}

-- What `normalizeDeclarationHeader` builds: the text, and whether a blank is due.
pub record Normalized : Type 0 where
  pub written : Bytes
  pub pending_space : Bool

-- `appendDeclarationSpace` and the `WriteString` behind it.
unfoldable pub append_piece : Normalized → Bytes → Normalized
append_piece h piece = record {
  written =
      if h.pending_space && not (is_empty h.written)
      then h.written ++ (b' ' ∷ piece)
      else h.written ++ piece;
  pending_space = false;
}

abbrev pub is_line_break : ℕ → Bool
is_line_break b = b == 13 || b == 10

unfoldable pub normalize_literal : ℕ → Span → Normalized → Bytes → Round Normalized (Option Bytes)
unfolding append_piece
normalize_literal i s h rest =
    let piece = take (s.next - i) rest in
    if not s.complete || any_of is_line_break piece
    then done none
    else next (s.next - i - 1) (append_piece h piece)

unfoldable pub normalize_rune : Normalized → Bytes → Round Normalized (Option Bytes)
unfolding append_piece
normalize_rune h rest =
    let r = decode_rune rest in
    next (rune_rest rest)
      (if is_space r.0 then record h { pending_space = true } else append_piece h (take r.1 rest))

unfoldable pub normalize_round : ℕ → ℕ → Normalized → Bytes → M (Round Normalized (Option Bytes))
unfolding normalize_literal normalize_rune behind
normalize_round start i h rest =
    scan_context (i - start)
    >> (scan_lexical_span i rest >>= λ s. elim s.kind [
      | no_span ↦ return (normalize_rune h rest)
      | comment ↦ return (behind i s (record h { pending_space = true }) none)
      | literal ↦ return (normalize_literal i s h rest)
    ])

unfoldable pub normalize_end : Normalized → M (Option Bytes)
normalize_end h = check >> return (if is_empty h.written then none else some h.written)

unfoldable pub normalize_declaration_header : Bytes → ℕ → ℕ → M (Option Bytes)
unfolding normalize_round normalize_end
normalize_declaration_header source start end =
    scan (normalize_round start) normalize_end start 0
      (record { written = []; pending_space = false }) (between start end source)

-- `if err != nil || !ok { return "", false, err }`.
abbrev pub and_then {ℓ κ} :
    {A : Type ℓ} {B : Type κ} → M (Option A) → (A → M (Option B)) → M (Option B)
and_then m f = m >>= λ o. elim o [ none ↦ return none | some a ↦ f a ]

unfoldable pub header_keyword : SymbolKind → Option Bytes
header_keyword SymbolKind.class = some (codes "class")
header_keyword SymbolKind.interface = some (codes "interface")
header_keyword k = none

-- The symbol's name stands at `at`.
abbrev pub name_here : Bytes → Bytes → ℕ → ℕ → Bool
name_here source name at end =
    not (is_empty name)
    && (has_prefix name (between at end source) && token_boundary source at name)

unfoldable pub header_behind_name : Bytes → Bytes → ℕ → ℕ → ℕ → M (Option Bytes)
header_behind_name source name keyword at end =
    and_then (declaration_body_offset source (at + length name) end)
      (λ body. normalize_declaration_header source keyword body)

unfoldable pub header_behind_keyword : Bytes → Bytes → ℕ → ℕ → ℕ → M (Option Bytes)
unfolding header_behind_name
header_behind_keyword source name keyword behind_keyword end =
    and_then (skip_declaration_trivia source behind_keyword end) (λ at.
      if name_here source name at end
      then header_behind_name source name keyword at end
      else return none)

unfoldable pub header_in : Bytes → Bytes → Bytes → ℕ → ℕ → M (Option Bytes)
unfolding header_behind_keyword
header_in source name word start end =
    and_then (declaration_token_offset source start end (word ∷ []))
      (λ keyword. header_behind_keyword source name keyword (keyword + length word) end)

-- `extractDeclarationHeader`; `ok` false is `none`.
unfoldable pub extract_declaration_header : Bytes → Symbol → M (Option Bytes)
unfolding header_keyword header_in
extract_declaration_header source symbol = elim (header_keyword symbol.kind) [
  | none ↦ return none
  | some word ↦
      check
      >> (byte_offset source symbol.range.start >>= λ start.
          byte_offset source symbol.range.end >>= λ end.
          if ltb end start then return none else header_in source symbol.name word start end)
]
