-- ===== src/Tests/Tools.antt =====
-- The tools and their text at the sample file.
use portolan.Prelude.{
  true, List, [], ◌∷◌, ◌++◌, map, take, ltb, length, Bytes, codes, equal, none, some, ◌≡◌, ◌⊎◌,
  refl,
}
use portolan.Prelude.Int.{pos}
use portolan.Context.{Error, canceled, ok, err, Context, background, until, check, poll}
use portolan.Core.Types.{Location, cons}
use portolan.Core.Config.{cap_of, current}
use portolan.Tools.Walk.{preorder, walk}
use portolan.Tools.Resolve.{
  visit_named, resolved, entries, resolve_symbol_position, resolve_symbol_position-resolved,
}
use portolan.Tools.Flatten.{outlined, flatten_symbols, flatten_symbols-outlined}
use portolan.Tools.Navigate.{NavigationInput, find_definition}
use portolan.Tools.Navigate.Contract.{IsContract, find_definition-IsContract, find_definition_lem}
use portolan.Tools.Outline.{GetOutlineOutput, get_outline}
use portolan.Tools.Outline.Contract as OutlineContract
use portolan.Tools.Outline.Contract.{bare, signature_of, get_outline-IsContract, get_outline_lem}
use portolan.Text.Decimal.{decimal}
use portolan.Render.Shared.{group_locations, file_line, footer}
use portolan.Render.Shared.Grouping.{
  files_of, first_appearances, Distinct, ranges_of, ranges_in, group_locations_lem,
}
use portolan.Render.Outline.{render_outline, range_convention}
use portolan.Render.Outline.Lines.{lines_of, row_lines, lines_of-render_outline}
use portolan.Tests.Samples.{at, box, area, box_node, others, place, elsewhere, sample}

abbrev area_input : NavigationInput
area_input = record { file = codes "/p/a.ts"; symbol = codes "area"; line = some (pos 6) }

resolve_area :
    resolve_symbol_position (cons box_node others) (codes "area") (some (pos 6)) background
    ≡ ok (some (at 6 9), background)
unfolding resolve_symbol_position walk visit_named check poll equal
resolve_area = refl

resolve_symbol_position-resolved_example :
    (resolve_symbol_position (cons box_node others) (codes "area") none background
      ≡ ok (resolved (entries (cons box_node others)) (codes "area") none, background))
    × (((e : Error) × (resolve_symbol_position
              (cons box_node others)
              (codes "area")
              none
              (until 1 canceled)
            ≡ err e))
        ⊎ ((d : Context) × (resolve_symbol_position
                (cons box_node others)
                (codes "area")
                none
                (until 1 canceled)
              ≡ ok (resolved (entries (cons box_node others)) (codes "area") none, d))))
resolve_symbol_position-resolved_example =
    resolve_symbol_position-resolved (cons box_node others) (codes "area") none (until 1 canceled)

flatten_symbols-outlined_example :
    (flatten_symbols (cons box_node others) 2 background
      ≡ ok (outlined (preorder 0 (cons box_node others)) 2, background))
    × (((e : Error) × (flatten_symbols (cons box_node others) 2 (until 9 canceled) ≡ err e))
        ⊎ ((d : Context) × (flatten_symbols (cons box_node others) 2 (until 9 canceled)
              ≡ ok (outlined (preorder 0 (cons box_node others)) 2, d))))
flatten_symbols-outlined_example =
    flatten_symbols-outlined (cons box_node others) 2 (until 9 canceled)

find_definition-IsContract_example :
    IsContract sample
      (codes "find_definition")
      7
      []
      (find_definition sample area_input 7 3 (until 4 canceled) [])
find_definition-IsContract_example =
    find_definition-IsContract sample area_input 7 3 (until 4 canceled) []

find_definition_lem_example :
    ((find_definition sample area_input 7 3 background []).0.found ≡ true)
    × ((find_definition sample area_input 7 3 background []).0.locations
        ≡ take (cap_of (pos 2)) (place 6 ∷ elsewhere 1 ∷ place 7 ∷ []))
    × ((find_definition sample area_input 7 3 background []).0.truncated
        ≡ ltb (cap_of (pos 2)) (length (place 6 ∷ elsewhere 1 ∷ place 7 ∷ [])))
    × ((find_definition sample area_input 7 3 background []).0.error ≡ [])
unfolding resolved preorder equal
find_definition_lem_example =
    find_definition_lem sample area_input 7 3 [] (codes "/p/a.ts") (cons box_node others) (at 6 9)
      (place 6) (elsewhere 1 ∷ place 7 ∷ []) refl refl refl refl

get_outline-IsContract_example :
    OutlineContract.IsContract sample 7 []
      (get_outline sample decimal (codes "/p/a.ts") 7 3 (until 2 canceled) [])
get_outline-IsContract_example =
    get_outline-IsContract sample decimal (codes "/p/a.ts") 7 3 (until 2 canceled) []

get_outline_lem_example :
    let out = (get_outline sample decimal (codes "/p/a.ts") 7 3 background []).0 in
    let spec = outlined (preorder 0 (cons box_node others)) (cap_of (pos 2)) in
    (out.found ≡ true)
    × (out.file ≡ codes "/p/a.ts")
    × (map bare out.symbols ≡ map bare spec.outline)
    × (map signature_of out.symbols ≡ codes "class Box" ∷ codes "area(): number" ∷ [])
    × (out.truncated ≡ spec.truncated)
    × (out.error ≡ [])
unfolding outlined preorder cap_of
get_outline_lem_example =
    get_outline_lem sample decimal (codes "/p/a.ts") 7 3 [] (codes "/p/a.ts") box_node others
      (codes "class Box" ∷ codes "area(): number" ∷ []) refl refl refl refl

abbrev some_places : List Location
some_places = place 6 ∷ elsewhere 1 ∷ place 7 ∷ []

group_locations_lem_example :
    (files_of (group_locations some_places) ≡ first_appearances [] some_places)
    × Distinct (files_of (group_locations some_places))
    × ((f : Bytes) → ranges_of f (group_locations some_places) ≡ ranges_in f some_places)
group_locations_lem_example = group_locations_lem some_places

abbrev two_rows : GetOutlineOutput
two_rows = record {
  found = true;
  file = codes "/p/a.ts";
  symbols = record { symbol = box; depth = 0 } ∷ record { symbol = area; depth = 1 } ∷ [];
  truncated = true;
  freshness = current 7;
  message = [];
  error = [];
}

lines_of-render_outline_example :
    lines_of (render_outline two_rows)
    ≡ file_line (codes "/p/a.ts")
      ∷ range_convention
      ∷ (row_lines true 0 two_rows.symbols
          ++ ([] ∷ footer (length two_rows.symbols) (codes "symbol") (codes "symbols") true ∷ []))
lines_of-render_outline_example = lines_of-render_outline two_rows refl refl
