-- ===== src/Core/Types.antt =====
-- internal/core/types.go. A Go `int` is an integer here; JSON delivers negative ones, which
-- `Validate` rejects.
use portolan.Prelude.{ℕ, Bool, not, ◌&&◌, ◌||◌, Option, none, some, [], Bytes, codes, if◌then◌else◌}
use portolan.Prelude.Int.{ℤ, pos, ltb_ℤ, eqb_ℤ}
use portolan.Context.{Error, text, wrapped}

pub record Position : Type 0 where
  pub line : ℤ
  pub character : ℤ

pub record Range : Type 0 where
  pub start : Position
  pub end : Position

-- `nil` is `none`.
unfoldable pub validate_position : Position → Option Error
validate_position p =
    if ltb_ℤ p.line (pos 0) || ltb_ℤ p.character (pos 0)
    then some (text (codes "negative position"))
    else none

unfoldable pub validate_range : Range → Option Error
unfolding validate_position
validate_range r = elim (validate_position r.start) [
  | some e ↦ some (wrapped (codes "range start") e)
  | none ↦ elim (validate_position r.end) [
    | some e ↦ some (wrapped (codes "range end") e)
    | none ↦
        if ltb_ℤ r.end.line r.start.line
          || (eqb_ℤ r.end.line r.start.line && ltb_ℤ r.end.character r.start.character)
        then some (text (codes "range end precedes start"))
        else none
  ]
]

unfoldable pub position_before : Position → Position → Bool
position_before a b = ltb_ℤ a.line b.line || (eqb_ℤ a.line b.line && ltb_ℤ a.character b.character)

unfoldable pub contains : Range → Range → Bool
unfolding position_before
contains r inner =
    not (position_before inner.start r.start) && not (position_before r.end inner.end)

pub record Location : Type 0 where
  pub file : Bytes
  pub range : Range

-- The Go type is a string; `unset` is the empty one.
pub data SymbolKind : Type 0 where
  unset unknown file module_kind namespace package_kind class method property field : SymbolKind
  constructor enum interface function variable constant string number boolean array : SymbolKind
  object key null enum_member struct event operator type_parameter : SymbolKind

-- The string constants.
unfoldable pub kind_name : SymbolKind → Bytes
kind_name unset = []
kind_name unknown = codes "unknown"
kind_name file = codes "file"
kind_name module_kind = codes "module"
kind_name namespace = codes "namespace"
kind_name package_kind = codes "package"
kind_name class = codes "class"
kind_name method = codes "method"
kind_name property = codes "property"
kind_name field = codes "field"
kind_name constructor = codes "constructor"
kind_name enum = codes "enum"
kind_name interface = codes "interface"
kind_name function = codes "function"
kind_name variable = codes "variable"
kind_name constant = codes "constant"
kind_name string = codes "string"
kind_name number = codes "number"
kind_name boolean = codes "boolean"
kind_name array = codes "array"
kind_name object = codes "object"
kind_name key = codes "key"
kind_name null = codes "null"
kind_name enum_member = codes "enummember"
kind_name struct = codes "struct"
kind_name event = codes "event"
kind_name operator = codes "operator"
kind_name type_parameter = codes "typeparameter"

pub record Symbol : Type 0 where
  pub name : Bytes
  pub kind : SymbolKind
  pub file : Bytes
  pub range : Range
  pub sel_range : Range
  pub signature : Bytes
  pub detail : Bytes

-- `SymbolNode` and its `Children`.
mutual
  pub data SymbolNode : Type 0 where
    node : Symbol → Nodes → SymbolNode

  pub data Nodes : Type 0 where
    nil : Nodes
    cons : SymbolNode → Nodes → Nodes

pub record Freshness : Type 0 where
  pub generation : ℕ
  pub stale : Bool
