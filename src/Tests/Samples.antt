-- ===== src/Tests/Samples.antt =====
-- A small source file as its provider sees it, and tools over that provider.
use portolan.Prelude.{ℕ, [], ◌∷◌, Bytes, codes}
use portolan.Prelude.Int.{pos}
use portolan.Context.{ok}
use portolan.Core.Types.{
  Position, Range, Location, Symbol, SymbolKind, class, method, function, SymbolNode, node, Nodes,
  nil, cons,
}
use portolan.Core.Config.{Config}
use portolan.Tools.Run.{Provider, Tools}

abbrev pub at : ℕ → ℕ → Position
at l c = record { line = pos l; character = pos c }

abbrev pub span : ℕ → ℕ → ℕ → ℕ → Range
span a b c d = record { start = at a b; end = at c d }

abbrev pub make_symbol : Bytes → SymbolKind → Range → Range → Symbol
make_symbol name kind range sel = record {
  name = name;
  kind = kind;
  file = codes "/p/a.ts";
  range = range;
  sel_range = sel;
  signature = [];
  detail = [];
}

abbrev pub box : Symbol
box = make_symbol (codes "Box") class (span 0 0 4 1) (span 0 6 0 9)

abbrev pub area : Symbol
area = make_symbol (codes "area") method (span 1 2 3 3) (span 1 2 1 6)

abbrev pub free_area : Symbol
free_area = make_symbol (codes "area") function (span 6 0 8 1) (span 6 9 6 13)

abbrev pub box_node : SymbolNode
box_node = node box (cons (node area nil) nil)

abbrev pub others : Nodes
others = cons (node free_area nil) nil

abbrev pub place : ℕ → Location
place l = record { file = codes "/p/a.ts"; range = span l 0 l 4 }

abbrev pub elsewhere : ℕ → Location
elsewhere l = record { file = codes "/p/b.ts"; range = span l 0 l 4 }

abbrev pub sample_provider : Provider
sample_provider = record {
  definition = λ _ _. ok (place 6 ∷ elsewhere 1 ∷ place 7 ∷ []);
  references = λ _ _ _. ok (place 6 ∷ []);
  document_symbols = λ _. ok (cons box_node others);
  symbol_signatures = λ _ _. ok (codes "class Box" ∷ codes "area(): number" ∷ []);
}

abbrev pub sample_config : Config
sample_config = record {
  project_root = codes "/p";
  session_id = codes "s";
  graph_mode = codes "graph";
  tsgo_path = [];
  jsonl_path = [];
  control_socket = [];
  max_results = pos 2;
}

abbrev pub sample : Tools
sample = record {
  provider = sample_provider;
  config = sample_config;
  canonicalize = λ p. ok p;
  quote = λ s. s;
}
