-- ===== src/Lsp/Kinds.antt =====
-- The table of internal/lsp/protocol.go from the numbers of the LSP SymbolKind to the program's kinds.
use portolan.Prelude.{ℕ, true, false, List, [], ◌∷◌, ◌==◌}
use portolan.Prelude.Int.{ℤ, pos, negsuc}
use portolan.Core.Types.{
  SymbolKind, unknown, file, module_kind, namespace, package_kind, class, method, property, field,
  constructor, enum, interface, function, variable, constant, string, number, boolean, array,
  object, key, null, enum_member, struct, event, operator, type_parameter,
}

-- `symbolKindNames`.
abbrev symbol_kind_names : List (ℕ × SymbolKind)
symbol_kind_names =
    (1, file)
    ∷ (2, module_kind)
    ∷ (3, namespace)
    ∷ (4, package_kind)
    ∷ (5, class)
    ∷ (6, method)
    ∷ (7, property)
    ∷ (8, field)
    ∷ (9, constructor)
    ∷ (10, enum)
    ∷ (11, interface)
    ∷ (12, function)
    ∷ (13, variable)
    ∷ (14, constant)
    ∷ (15, string)
    ∷ (16, number)
    ∷ (17, boolean)
    ∷ (18, array)
    ∷ (19, object)
    ∷ (20, key)
    ∷ (21, null)
    ∷ (22, enum_member)
    ∷ (23, struct)
    ∷ (24, event)
    ∷ (25, operator)
    ∷ (26, type_parameter)
    ∷ []

look_up : ℕ → List (ℕ × SymbolKind) → SymbolKind
look_up k [] = unknown
look_up k (row ∷ rows) = elim (row.0 == k) [ true ↦ row.1 | false ↦ look_up k rows ]

unfoldable pub symbol_kind_name : ℤ → SymbolKind
unfolding look_up
symbol_kind_name (pos k) = look_up k symbol_kind_names
symbol_kind_name (negsuc k) = unknown
