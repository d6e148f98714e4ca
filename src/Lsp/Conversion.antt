-- ===== src/Lsp/Conversion.antt =====
-- internal/lsp/conversion.go, with the wire types of internal/lsp/protocol.go as decoded: positions,
-- ranges, symbols and locations of the server become those of the program, or an error.
pub mod Symbols
pub mod Locations
use portolan.Prelude.{
  ℕ, Bool, true, false, ◌&&◌, ◌||◌, Option, none, some, List, [], ◌∷◌, Bytes, codes, equal,
  is_empty, if◌then◌else◌,
}
use portolan.Prelude.Int.{ℤ, pos, negsuc}
use portolan.Context.{Error, text, wrapped, Result, ok, err, M, ◌>>=◌, check, lift, return, throw}
use portolan.Core.Types.{
  Position, Range, validate_position, validate_range, contains, Location, Symbol, SymbolNode, node,
  Nodes, nil, cons,
}
use portolan.Lsp.Kinds.{symbol_kind_name}

pub record LspPosition : Type 0 where
  pub line : ℤ
  pub character : ℤ

pub record LspRange : Type 0 where
  pub start : LspPosition
  pub end : LspPosition

-- `isJSONNull`.
unfoldable pub is_json_null : Bytes → Bool
is_json_null raw = is_empty raw || equal raw (codes "null")

checked {ℓ} : {A : Type ℓ} → Option Error → A → Result A
checked none a = ok a
checked (some e) a = err e

unfoldable pub to_core_position : LspPosition → Result Position
unfolding checked
to_core_position p =
    let position : Position = record { line = p.line; character = p.character } in
    checked (validate_position position) position

unfoldable pub to_lsp_position : Position → Result LspPosition
unfolding checked
to_lsp_position p =
    checked (validate_position p) (record { line = p.line; character = p.character })

with_ends : Result Position → Result Position → Result Range
unfolding checked
with_ends (err e) end = err e
with_ends (ok start) (err e) = err e
with_ends (ok start) (ok end) =
    let converted : Range = record { start = start; end = end } in
    checked (validate_range converted) converted

unfoldable pub to_core_range : LspRange → Result Range
unfolding with_ends
to_core_range r = with_ends (to_core_position r.start) (to_core_position r.end)

-- The fields of `lspDocumentSymbol` but its children.
pub record LspSymbol : Type 0 where
  pub name : Bytes
  pub detail : Bytes
  pub kind : ℤ
  pub range : LspRange
  pub selection_range : LspRange

-- `lspDocumentSymbol` and its `Children`.
mutual
  pub data LspNode : Type 0 where
    lsp_node : LspSymbol → LspNodes → LspNode

  pub data LspNodes : Type 0 where
    none_left : LspNodes
    with_next : LspNode → LspNodes → LspNodes

in_symbol {ℓ} : {A : Type ℓ} → Bytes → Result A → Result A
in_symbol prefix (ok a) = ok a
in_symbol prefix (err e) = err (wrapped prefix e)

with_ranges : Bytes → LspSymbol → Result Range → Result Range → Result Symbol
with_ranges file s (err e) selection_range = err e
with_ranges file s (ok range) (err e) = err e
with_ranges file s (ok range) (ok selection_range) =
    if contains range selection_range
    then ok (record {
      name = s.name;
      kind = symbol_kind_name s.kind;
      file = file;
      range = range;
      sel_range = selection_range;
      signature = [];
      detail = s.detail;
    })
    else err (text (codes "lsp: selection range for symbol lies outside its full range"))

-- `toCoreSymbol` behind its loop: the symbol without its children.
unfoldable pub to_symbol : Bytes → LspSymbol → Result Symbol
unfolding with_ranges in_symbol
to_symbol file s =
    with_ranges file s (in_symbol (codes "lsp: invalid range for symbol") (to_core_range s.range)) (
      in_symbol (codes "lsp: invalid selection range for symbol") (to_core_range s.selection_range))

-- The loop over a list of symbols, with `toCoreSymbol` of each. The context is polled at each symbol,
-- and the children are converted before the symbol's own ranges are looked at.
unfoldable pub convert_symbols : Bytes → LspNodes → M Nodes
convert_symbols file none_left = return nil
convert_symbols file (with_next (lsp_node s kids) rest) = check >>= λ _.
    convert_symbols file kids >>= λ children. lift (to_symbol file s) >>= λ symbol.
    convert_symbols file rest >>= λ others. return (cons (node symbol children) others)

-- The work of `decodeDocumentSymbols` on symbols that JSON has decoded.
unfoldable pub decode_document_symbols : Bytes → LspNodes → M Nodes
unfolding convert_symbols
decode_document_symbols file none_left = return nil
decode_document_symbols file (with_next n ns) =
    convert_symbols file (with_next n ns) >>= λ out. check >>= λ _. return out

-- `rawLocation`: a Location or a LocationLink.
pub record RawLocation : Type 0 where
  pub uri : Bytes
  pub range : Option LspRange
  pub target_uri : Bytes
  pub target_range : Option LspRange
  pub target_selection_range : Option LspRange

-- The two fields that `toLocation` goes on with.
unfoldable pub chosen_range : RawLocation → Option LspRange
chosen_range rl =
    if is_empty rl.uri && (if is_empty rl.target_uri then false else true)
    then elim rl.target_selection_range [ some r ↦ some r | none ↦ rl.target_range ]
    else rl.range

unfoldable pub chosen_uri : RawLocation → Bytes
chosen_uri rl =
    if is_empty rl.uri && (if is_empty rl.target_uri then false else true)
    then rl.target_uri
    else rl.uri

with_range : Bytes → Result Range → Result (Option Location)
with_range path (ok range) = ok (some (record { file = path; range = range }))
with_range path (err e) = err (wrapped (codes "lsp: invalid location range") e)

module _ (path_from_uri : Bytes → Result Bytes) where
  with_path : Result Bytes → LspRange → Result (Option Location)
  unfolding with_range
  with_path (err e) r = err e
  with_path (ok path) r = with_range path (to_core_range r)

  located : Bytes → Option LspRange → Result (Option Location)
  unfolding with_path
  located uri none = ok none
  located uri (some r) = if is_empty uri then ok none else with_path (path_from_uri uri) r

  -- `toLocation`; `none` is its false.
  unfoldable pub to_location : RawLocation → Result (Option Location)
  unfolding located
  to_location rl = located (chosen_uri rl) (chosen_range rl)

  kept : Option Location → List Location → List Location
  kept none ls = ls
  kept (some l) ls = l ∷ ls

  -- The loop of `decodeLocations`.
  unfoldable pub convert_locations : List RawLocation → M (List Location)
  unfolding kept
  convert_locations [] = return []
  convert_locations (rl ∷ rls) = check >>= λ _.
      lift (to_location rl) >>= λ l. convert_locations rls >>= λ ls. return (kept l ls)

  -- The work of `decodeLocations` on the list that JSON has decoded.
  unfoldable pub decode_locations : List RawLocation → M (List Location)
  unfolding convert_locations
  decode_locations [] = return []
  decode_locations (rl ∷ rls) = convert_locations (rl ∷ rls) >>= λ out. check >>= λ _. return out
