-- ===== src/Render/Shared.antt =====
-- internal/tools/render/shared_rendering.go.
pub mod Grouping
use portolan.Prelude.{
  ℕ, Bool, true, false, List, [], ◌∷◌, ◌++◌, map, Bytes, codes, equal, ◌==◌, if◌then◌else◌,
}
use portolan.Core.Types.{Range, Location}
use portolan.Text.Decimal.{decimal}
use portolan.Render.Atoms.{inline_text, range_text}

pub record LocationGroup : Type 0 where
  pub file : Bytes
  pub ranges : List Range

-- One step of the loop: the group of the location's file takes its range, and a file that has no
-- group yet gets one at the end. `groupIndexes` holds the place of each file in `groups`.
unfoldable pub add_location : Location → List LocationGroup → List LocationGroup
add_location l [] = record { file = l.file; ranges = l.range ∷ [] } ∷ []
add_location l (g ∷ gs) =
    if equal g.file l.file
    then record g { ranges = g.ranges ++ (l.range ∷ []) } ∷ gs
    else g ∷ add_location l gs

unfoldable pub group_from : List LocationGroup → List Location → List LocationGroup
group_from groups [] = groups
group_from groups (l ∷ ls) = group_from (add_location l groups) ls

abbrev pub group_locations : List Location → List LocationGroup
group_locations ls = group_from [] ls

ranges_text : List Range → Bytes
ranges_text [] = []
ranges_text (r ∷ []) = range_text r
ranges_text (r ∷ s ∷ rs) = range_text r ++ (codes ", " ++ ranges_text (s ∷ rs))

unfoldable pub group_line : LocationGroup → Bytes
unfolding ranges_text
group_line g = inline_text g.file ++ (codes " [" ++ (ranges_text g.ranges ++ codes "]"))

groups_text : List LocationGroup → Bytes
groups_text [] = []
groups_text (g ∷ []) = group_line g
groups_text (g ∷ h ∷ gs) = group_line g ++ (codes "\n" ++ groups_text (h ∷ gs))

-- `Locations`.
unfoldable pub locations_text : List Location → Bytes
unfolding groups_text
locations_text ls = groups_text (group_locations ls)

unfoldable pub file_line : Bytes → Bytes
file_line file = codes "file " ++ inline_text file

unfoldable pub empty_text : Bytes → Bytes
empty_text m = codes "empty: " ++ inline_text m

unfoldable pub error_text : Bytes → Bytes
error_text m = codes "error: " ++ inline_text m

unfoldable pub count_text : ℕ → Bytes → Bytes → Bytes
count_text count singular plural =
    decimal count ++ (codes " " ++ inline_text (if count == 1 then singular else plural))

unfoldable pub footer : ℕ → Bytes → Bytes → Bool → Bytes
footer count singular plural truncated =
    if truncated
    then count_text count singular plural
      ++ (codes "; truncated: more " ++ (inline_text plural ++ codes " exist"))
    else count_text count singular plural ++ codes "; complete"
