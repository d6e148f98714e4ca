-- ===== src/Lsp/Conversion/Symbols.antt =====
-- Which symbols of the server `decodeDocumentSymbols` accepts, and what becomes of them.
use portolan.Prelude.{[], true, none, Bytes, ◌≡◌, refl, sym, ◌∙◌, arith}
use portolan.Context.{Result, ok, err, Context, background, check, poll, lift}
use portolan.Context.Success.{passed, given, bind_ok, lifted}
use portolan.Core.Types.{Position, Range, validate_range, contains, Symbol, node, Nodes, nil, cons}
use portolan.Lsp.Kinds.{symbol_kind_name}
use portolan.Lsp.Conversion.{
  LspPosition, LspRange, LspSymbol, lsp_node, LspNodes, none_left, with_next, checked,
  to_core_position, with_ends, to_core_range, in_symbol, with_ranges, to_symbol, convert_symbols,
  decode_document_symbols,
}

abbrev pub as_position : LspPosition → Position
as_position p = record { line = p.line; character = p.character }

abbrev pub as_range : LspRange → Range
as_range r = record { start = as_position r.start; end = as_position r.end }

-- `toCoreRange` accepts a valid range as it stands, and nothing else.
pub to_core_range_ok :
    (r : LspRange) → validate_range (as_range r) ≡ none → to_core_range r ≡ ok (as_range r)
unfolding to_core_range to_core_position with_ends checked validate_range
to_core_range_ok r h = ground arith

pub to_core_range-eq_ok :
    (r : LspRange) (c : Range)
    → to_core_range r ≡ ok c
    → (c ≡ as_range r) × (validate_range (as_range r) ≡ none)
unfolding to_core_range to_core_position with_ends checked validate_range
to_core_range-eq_ok r c h = ground arith

-- A symbol whose two ranges are valid, the selection within the whole.
pub record IsSound (s : LspSymbol) : Type 0 where
  pub whole : validate_range (as_range s.range) ≡ none
  pub selected : validate_range (as_range s.selection_range) ≡ none
  pub within : contains (as_range s.range) (as_range s.selection_range) ≡ true

abbrev pub core_symbol : Bytes → LspSymbol → Symbol
core_symbol path s = record {
  name = s.name;
  kind = symbol_kind_name s.kind;
  file = path;
  range = as_range s.range;
  sel_range = as_range s.selection_range;
  signature = [];
  detail = s.detail;
}

to_symbol_ok :
    (path : Bytes) (s : LspSymbol) → IsSound s → to_symbol path s ≡ ok (core_symbol path s)
unfolding to_symbol in_symbol with_ranges
to_symbol_ok path s v = ground (arith, to_core_range_ok s.range, to_core_range_ok s.selection_range)

-- The two ranges of a symbol that is accepted.
record Ranges (path : Bytes) (s : LspSymbol) (a b : Result Range) (c : Symbol) : Type 0 where
  first : Range
  second : Range
  first_is : a ≡ ok first
  second_is : b ≡ ok second
  nested : contains first second ≡ true
  symbol_is : c ≡ record (core_symbol path s) { range = first; sel_range = second }

with_ranges-eq_ok :
    (path p q : Bytes) (s : LspSymbol) (a b : Result Range) (c : Symbol)
    → with_ranges path s (in_symbol p a) (in_symbol q b) ≡ ok c
    → Ranges path s a b c
unfolding with_ranges in_symbol
with_ranges-eq_ok path p q s (err e) b c h = absurd (ground arith)
with_ranges-eq_ok path p q s (ok x) (err e) c h = absurd (ground arith)
with_ranges-eq_ok path p q s (ok x) (ok y) c h = record {
  first = x;
  second = y;
  first_is = refl;
  second_is = refl;
  nested = ground arith;
  symbol_is = ground arith;
}

to_symbol-eq_ok :
    (path : Bytes) (s : LspSymbol) (c : Symbol)
    → to_symbol path s ≡ ok c
    → IsSound s × (c ≡ core_symbol path s)
unfolding to_symbol
to_symbol-eq_ok path s c h =
    let v =
      with_ranges-eq_ok path _ _ s (to_core_range s.range) (to_core_range s.selection_range) c h in
    let a = to_core_range-eq_ok s.range v.first v.first_is in
    let b = to_core_range-eq_ok s.selection_range v.second v.second_is in
    (record { whole = a.1; selected = b.1; within = ground arith }, ground arith)

abbrev pub AllSound : LspNodes → Type 0
AllSound none_left = Unit
AllSound (with_next (lsp_node s kids) rest) = IsSound s × AllSound kids × AllSound rest

abbrev pub core_nodes : Bytes → LspNodes → Nodes
core_nodes path none_left = nil
core_nodes path (with_next (lsp_node s kids) rest) =
    cons (node (core_symbol path s) (core_nodes path kids)) (core_nodes path rest)

convert_symbols_ok :
    (path : Bytes) (ns : LspNodes)
    → AllSound ns
    → convert_symbols path ns background ≡ ok (core_nodes path ns, background)
unfolding convert_symbols check poll
convert_symbols_ok path none_left v = refl
convert_symbols_ok path (with_next (lsp_node s kids) rest) v =
    rw (convert_symbols_ok path kids v.1, to_symbol_ok path s v.0, convert_symbols_ok path rest v.2)
      refl

-- What a conversion that succeeds has found and made.
pub record Converted (path : Bytes) (ns : LspNodes) (out : Nodes) : Type 0 where
  pub sound : AllSound ns
  pub made : out ≡ core_nodes path ns

convert_symbols-Converted :
    (path : Bytes) (ns : LspNodes) (c : Context) {out : Nodes} {d : Context}
    → convert_symbols path ns c ≡ ok (out, d)
    → Converted path ns out
unfolding convert_symbols
convert_symbols-Converted path none_left c h = record { sound = tt; made = ground arith }
convert_symbols-Converted path (with_next (lsp_node s kids) rest) c h =
    let p = passed check _ c h in
    let q = passed (convert_symbols path kids) _ p.between p.behind in
    let r = passed (lift (to_symbol path s)) _ q.between q.behind in
    let u = passed (convert_symbols path rest) _ r.between r.behind in
    let below = convert_symbols-Converted path kids p.between q.before in
    let beside = convert_symbols-Converted path rest r.between u.before in
    let own = to_symbol-eq_ok path s r.value (lifted (to_symbol path s) q.between r.before) in
    record { sound = (own.0, below.sound, beside.sound); made = sym (given u.behind) ∙ cc }

-- Under a context that is not canceled, a tree of symbols is converted if every symbol in it has two
-- valid ranges, the selection within the whole; each keeps its place, name, detail and ranges, and gets
-- the file and the kind of its number.
pub decode_document_symbols_ok :
    (path : Bytes) (ns : LspNodes)
    → AllSound ns
    → decode_document_symbols path ns background ≡ ok (core_nodes path ns, background)
unfolding decode_document_symbols check poll
decode_document_symbols_ok path none_left v = refl
decode_document_symbols_ok path (with_next n ns) v =
    bind_ok (convert_symbols path (with_next n ns)) _ background
      (convert_symbols_ok path (with_next n ns) v)

-- If a tree of symbols is converted, under whatever context, every symbol in it has two valid ranges,
-- the selection within the whole, and the result is the tree with each symbol in its place.
pub decode_document_symbols-Converted :
    (path : Bytes) (ns : LspNodes) (c : Context) {out : Nodes} {d : Context}
    → decode_document_symbols path ns c ≡ ok (out, d)
    → Converted path ns out
unfolding decode_document_symbols
decode_document_symbols-Converted path none_left c h = record { sound = tt; made = ground arith }
decode_document_symbols-Converted path (with_next n ns) c h =
    let p = passed (convert_symbols path (with_next n ns)) _ c h in
    let q = passed check _ p.between p.behind in
    let v = convert_symbols-Converted path (with_next n ns) c p.before in
    record { sound = v.sound; made = sym (given q.behind) ∙ v.made }
