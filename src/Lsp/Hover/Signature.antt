-- ===== src/Lsp/Hover/Signature.antt =====
-- internal/lsp/hover_conversion.go: the signature of a symbol, from the text that tsgo displays for it.
use portolan.Prelude.{Bool, true, false, ◌&&◌, ◌||◌, [], Bytes, codes, if◌then◌else◌, equal}
use portolan.Context.{wrapped, Result, ok, err}
use portolan.Core.Types.{Symbol, SymbolKind}
use portolan.Lsp.Requests.{Reply, json_null, malformed, decoded}
use portolan.Lsp.Lexical.{has_prefix}
use portolan.Lsp.Hover.{
  has_suffix, normalize_ts_go_member, normalize_ts_go_constructor,
  normalize_ts_go_anonymous_function, anonymous_function, HoverContents, decode_hover_contents,
}

unfoldable pub is_kind : SymbolKind → SymbolKind → Bool
is_kind SymbolKind.method SymbolKind.method = true
is_kind SymbolKind.property SymbolKind.property = true
is_kind SymbolKind.constructor SymbolKind.constructor = true
is_kind SymbolKind.function SymbolKind.function = true
is_kind a b = false

abbrev method_prefix : Bytes
method_prefix = codes "(method) "

abbrev property_prefix : Bytes
property_prefix = codes "(property) "

abbrev accessor_prefix : Bytes
accessor_prefix = codes "(accessor) "

-- A symbol whose signature an anonymous function may have.
unfoldable pub takes_anonymous : Symbol → Bool
unfolding is_kind has_suffix
takes_anonymous s =
    is_kind s.kind SymbolKind.function
    && (equal s.name (codes "default") || has_suffix (codes " callback") s.name)

unfoldable pub normalize_ts_go_signature : Bytes → Symbol → Bytes
unfolding is_kind takes_anonymous
normalize_ts_go_signature display s =
    if has_prefix method_prefix display
    then (if is_kind s.kind SymbolKind.method
        then normalize_ts_go_member display s.name method_prefix (codes "(?<")
        else [])
    else if has_prefix property_prefix display
    then (if is_kind s.kind SymbolKind.property
        then normalize_ts_go_member display s.name property_prefix (codes ":?!")
        else [])
    else if has_prefix accessor_prefix display
    then (if is_kind s.kind SymbolKind.property
        then normalize_ts_go_member display s.name accessor_prefix (codes ":")
        else [])
    else if has_prefix (codes "constructor ") display
    then (if is_kind s.kind SymbolKind.constructor && equal s.name (codes "constructor")
        then normalize_ts_go_constructor display
        else [])
    else if has_prefix anonymous_function display
    then (if takes_anonymous s then normalize_ts_go_anonymous_function display else [])
    else display

-- `decodeHoverSignature`, of a reply whose JSON is decoded.
unfoldable pub decode_hover_signature : Reply HoverContents → Symbol → Result Bytes
unfolding normalize_ts_go_signature
decode_hover_signature json_null s = ok []
decode_hover_signature (malformed e) s = err (wrapped (codes "lsp: decoding hover result") e)
decode_hover_signature (decoded contents) s = elim (decode_hover_contents contents) [
  | err e ↦ err e
  | ok display ↦ ok (normalize_ts_go_signature display s)
]
