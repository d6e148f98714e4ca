-- ===== src/Lsp/Signatures.antt =====
-- internal/lsp/signatures.go: what is asked of the language server for a symbol's signature, and what is cut
-- out of the source text instead. The hover requests of the plans are in the child Pool.
pub mod Plans
pub mod Pool
pub mod Whole
use portolan.Prelude.{
  ℕ, Bool, true, false, not, ◌&&◌, ◌||◌, Option, none, some, List, [], ◌∷◌, ◌++◌, Bytes, codes, ltb,
  ◌==◌, if◌then◌else◌, equal, is_empty,
}
use portolan.Prelude.Int.{eqb_ℤ}
use portolan.Context.{Error, text, Result, ok, err, Context, M, ◌>>=◌, return, throw, lift}
use portolan.Core.Types.{Position, Range, Symbol, SymbolKind}
use portolan.Text.Space.{trim_space}
use portolan.Lsp.Source.{byte_offset, text_in_range, position_at}
use portolan.Lsp.Conversion.{LspPosition, to_lsp_position}
use portolan.Lsp.Requests.{in_context}
use portolan.Lsp.Lexical.Tokens.{any_of, declaration_token_offset}
use portolan.Lsp.Headers.{extract_declaration_header}

-- `signaturePlan`.
pub record SignaturePlan : Type 0 where
  pub position : Position
  pub direct : Bytes
  pub symbol : Symbol

abbrev pub same_position : Position → Position → Bool
same_position a b = eqb_ℤ a.line b.line && eqb_ℤ a.character b.character

-- `symbol.SelRange.Start == symbol.SelRange.End && symbol.Name != "constructor"`.
unfoldable pub is_anonymous : Symbol → Bool
is_anonymous s =
    same_position s.sel_range.start s.sel_range.end && not (equal s.name (codes "constructor"))

unfoldable pub has_header : SymbolKind → Bool
has_header SymbolKind.class = true
has_header SymbolKind.interface = true
has_header k = false

unfoldable pub needs_signature_source : List Symbol → Bool
unfolding is_anonymous has_header
needs_signature_source [] = false
needs_signature_source (s ∷ ss) = (has_header s.kind || is_anonymous s) || needs_signature_source ss

-- `fmt.Errorf("lsp: … %w", err)` around a failure, a cancellation included.
abbrev pub wrap_error {ℓ} : {A : Type ℓ} → Bytes → M A → M A
wrap_error message m c = in_context message (m c)

-- `findDeclarationToken`.
unfoldable pub find_declaration_token : Bytes → Range → List Bytes → M (Option Position)
find_declaration_token source r tokens = byte_offset source r.start >>= λ start.
    byte_offset source r.end >>= λ end.
    if ltb end start
    then throw (text (codes "range end precedes start"))
    else (declaration_token_offset source start end tokens >>= λ o.
        return (elim o [ none ↦ none | some offset ↦ some (position_at source offset) ]))

-- `strings.TrimSuffix(s, ";")`.
unfoldable pub trim_semicolon : Bytes → Bytes
trim_semicolon [] = []
trim_semicolon (c ∷ []) = if c == b';' then [] else c ∷ []
trim_semicolon (c ∷ d ∷ cs) = c ∷ trim_semicolon (d ∷ cs)

abbrev pub source_names : List Bytes
source_names = (40 ∷ 41 ∷ []) ∷ (codes "new" ++ (40 ∷ 41 ∷ [])) ∷ codes "[]" ∷ []

-- The tokens that stand for a symbol without a name.
unfoldable pub anonymous_tokens : SymbolKind → List Bytes
anonymous_tokens SymbolKind.function = codes "function" ∷ codes "=>" ∷ []
anonymous_tokens SymbolKind.class = codes "class" ∷ []
anonymous_tokens k = []

abbrev pub plan_of : Symbol → SignaturePlan
plan_of s = record { position = s.sel_range.start; direct = []; symbol = s }

unfoldable pub plan_direct : Symbol → Bytes → M SignaturePlan
unfolding trim_semicolon
plan_direct s source =
    wrap_error (codes "lsp: extracting " ++ (s.name ++ codes " signature"))
      (text_in_range source s.range)
    >>= λ t. return (record (plan_of s) { direct = trim_semicolon (trim_space t) })

unfoldable pub plan_located : Symbol → Bytes → M SignaturePlan
unfolding anonymous_tokens find_declaration_token
plan_located s source =
    if is_empty (anonymous_tokens s.kind)
    then return (plan_of s)
    else (wrap_error (codes "lsp: locating " ++ (s.name ++ codes " signature"))
          (find_declaration_token source s.range (anonymous_tokens s.kind))
        >>= λ o.
            return (elim o [ none ↦ plan_of s | some p ↦ record (plan_of s) { position = p } ]))

-- Behind the attempt at a header.
unfoldable pub plan_behind_header : Symbol → Bytes → M SignaturePlan
unfolding is_anonymous plan_direct plan_located
plan_behind_header s source =
    if not (is_anonymous s)
    then return (plan_of s)
    else if any_of (equal s.name) source_names
    then plan_direct s source
    else plan_located s source

-- `planSignature`.
unfoldable pub plan_signature : Symbol → Bytes → M SignaturePlan
unfolding has_header plan_behind_header
plan_signature s source =
    if has_header s.kind
    then (wrap_error (codes "lsp: extracting " ++ (s.name ++ codes " declaration header"))
          (extract_declaration_header source s)
        >>= λ o. elim o [
          | some header ↦ return (record (plan_of s) { direct = header })
          | none ↦ plan_behind_header s source
        ])
    else plan_behind_header s source

-- The loop over the symbols.
unfoldable pub plan_signatures : List Symbol → Bytes → M (List SignaturePlan)
plan_signatures [] source = return []
plan_signatures (s ∷ ss) source =
    plan_signature s source >>= λ p. plan_signatures ss source >>= λ ps. return (p ∷ ps)

-- What `requestSignatures` has for a plan: its text, or where to ask.
pub data Slot : Type 0 where
  direct : Bytes → Slot
  asked : LspPosition → Symbol → Slot

unfoldable pub slot : SignaturePlan → Result Slot
slot p = elim (is_empty p.direct) [
  | false ↦ ok (direct p.direct)
  | true ↦ elim (in_context (codes "lsp: invalid hover position") (to_lsp_position p.position)) [
    | ok at ↦ ok (asked at p.symbol)
    | err e ↦ err e
  ]
]

-- The first loop of `requestSignatures`.
unfoldable pub slots : List SignaturePlan → M (List Slot)
unfolding slot
slots [] = return []
slots (p ∷ ps) = lift (slot p) >>= λ x. slots ps >>= λ xs. return (x ∷ xs)
