-- ===== src/Tests/Conversion.antt =====
-- A class with a method, and the locations of two answers, as the server sends them.
use portolan.Prelude.{none, some, [], ◌∷◌, codes, ◌≡◌, refl, Bytes, List}
use portolan.Prelude.Int.{pos}
use portolan.Context.{Result, ok, background, check, poll}
use portolan.Core.Types.{validate_range, contains, position_before, Location}
use portolan.Lsp.Conversion.{
  LspRange, LspSymbol, lsp_node, LspNodes, none_left, with_next, RawLocation, decode_locations,
  convert_locations, to_location, chosen_uri, chosen_range, to_core_range, to_core_position,
}
use portolan.Lsp.Conversion.Symbols.{AllSound}

abbrev line : LspRange
line = record {
  start = record { line = pos 1; character = pos 2 };
  end = record { line = pos 1; character = pos 9 };
}

abbrev name_of_it : LspRange
name_of_it = record {
  start = record { line = pos 1; character = pos 4 };
  end = record { line = pos 1; character = pos 6 };
}

abbrev wire_symbol : LspSymbol
wire_symbol = record {
  name = codes "go";
  detail = [];
  kind = pos 6;
  range = line;
  selection_range = name_of_it;
}

abbrev pub wire_tree : LspNodes
wire_tree =
    with_next (lsp_node wire_symbol (with_next (lsp_node wire_symbol none_left) none_left))
      none_left

pub wire_tree-AllSound : AllSound wire_tree
unfolding validate_range contains position_before
wire_tree-AllSound = (
  record { whole = refl; selected = refl; within = refl },
  (record { whole = refl; selected = refl; within = refl }, tt, tt),
  tt,
)

abbrev plain : RawLocation
plain = record {
  uri = codes "file:///p/a.ts";
  range = some line;
  target_uri = [];
  target_range = none;
  target_selection_range = none;
}

abbrev link : RawLocation
link = record {
  uri = [];
  range = none;
  target_uri = codes "file:///p/b.ts";
  target_range = some line;
  target_selection_range = some name_of_it;
}

-- A conversion of the two URIs that the answers have.
abbrev some_paths : Bytes → Result Bytes
some_paths uri = ok (codes "/p/a.ts")

abbrev two_places : List Location
two_places =
    record {
      file = codes "/p/a.ts";
      range = record {
        start = record { line = pos 1; character = pos 2 };
        end = record { line = pos 1; character = pos 9 };
      };
    }
    ∷ record {
      file = codes "/p/a.ts";
      range = record {
        start = record { line = pos 1; character = pos 4 };
        end = record { line = pos 1; character = pos 6 };
      };
    }
    ∷ []

decode_two :
    decode_locations some_paths (plain ∷ link ∷ []) background ≡ ok (two_places, background)
unfolding decode_locations convert_locations to_location chosen_uri chosen_range to_core_range
    to_core_position validate_range check poll
decode_two = refl
