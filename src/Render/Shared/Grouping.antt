-- ===== src/Render/Shared/Grouping.antt =====
-- `Locations` groups by file: every range once, in the provider's order within its file, and the
-- files in the order of their first appearance.
use portolan.Prelude.{
  Bool, true, false, List, [], ◌∷◌, ◌++◌, map, append-nil, append_assoc, Bytes, equal, equal_iff,
  if◌then◌else◌, ◌≡◌, refl, sym, subst, ◌∙◌, ap, arith, Bool-cases, inl, inr,
}
use portolan.Core.Types.{Range, Location}
use portolan.Render.Shared.{LocationGroup, add_location, group_from, group_locations}

-- The ranges that the groups have for a file.
abbrev pub ranges_of : Bytes → List LocationGroup → List Range
ranges_of f [] = []
ranges_of f (g ∷ gs) = if equal g.file f then g.ranges else ranges_of f gs

-- The ranges that the provider gave for a file, in its order.
abbrev pub ranges_in : Bytes → List Location → List Range
ranges_in f [] = []
ranges_in f (l ∷ ls) = if equal l.file f then l.range ∷ ranges_in f ls else ranges_in f ls

abbrev pub mem_file : Bytes → List Bytes → Bool
mem_file f [] = false
mem_file f (g ∷ gs) = if equal g f then true else mem_file f gs

-- The files in the order of their first appearance, behind those already seen.
abbrev pub first_appearances : List Bytes → List Location → List Bytes
first_appearances seen [] = seen
first_appearances seen (l ∷ ls) =
    first_appearances (if mem_file l.file seen then seen else seen ++ (l.file ∷ [])) ls

abbrev pub files_of : List LocationGroup → List Bytes
files_of gs = map (λ g. g.file) gs

ranges_of-add_location :
    (f : Bytes) (l : Location) (gs : List LocationGroup)
    → ranges_of f (add_location l gs)
      ≡ (if equal l.file f then ranges_of f gs ++ (l.range ∷ []) else ranges_of f gs)
unfolding add_location
ranges_of-add_location f l [] = refl
ranges_of-add_location f l (g ∷ gs) = ground (
  arith,
  equal_iff g.file l.file,
  equal_iff g.file f,
  equal_iff l.file f,
  ranges_of-add_location f l gs,
)

ranges_of-group_from :
    (f : Bytes) (gs : List LocationGroup) (ls : List Location)
    → ranges_of f (group_from gs ls) ≡ ranges_of f gs ++ ranges_in f ls
unfolding group_from
ranges_of-group_from f gs [] = sym (append-nil (ranges_of f gs))
ranges_of-group_from f gs (l ∷ ls) = ground (
  arith,
  ranges_of-group_from f (add_location l gs) ls,
  ranges_of-add_location f l gs,
  append_assoc (ranges_of f gs) (l.range ∷ []) (ranges_in f ls),
)

files_of-add_location :
    (l : Location) (gs : List LocationGroup)
    → files_of (add_location l gs)
      ≡ (if mem_file l.file (files_of gs) then files_of gs else files_of gs ++ (l.file ∷ []))
unfolding add_location
files_of-add_location l [] = refl
files_of-add_location l (g ∷ gs) = ground (arith, files_of-add_location l gs)

files_of-group_from :
    (gs : List LocationGroup) (ls : List Location)
    → files_of (group_from gs ls) ≡ first_appearances (files_of gs) ls
unfolding group_from
files_of-group_from gs [] = refl
files_of-group_from gs (l ∷ ls) =
    files_of-group_from (add_location l gs) ls
    ∙ ap (λ fs. first_appearances fs ls) (files_of-add_location l gs)

-- No file stands twice.
abbrev pub Distinct : List Bytes → Type 0
Distinct [] = Unit
Distinct (f ∷ fs) = (mem_file f fs ≡ false) × Distinct fs

mem_file-append :
    (f g : Bytes) (fs : List Bytes)
    → mem_file f (fs ++ (g ∷ [])) ≡ (if mem_file f fs then true else equal g f)
mem_file-append f g [] = ground arith
mem_file-append f g (x ∷ fs) = ground (arith, mem_file-append f g fs)

Distinct-append :
    (g : Bytes) (fs : List Bytes) → Distinct fs → mem_file g fs ≡ false → Distinct (fs ++ (g ∷ []))
Distinct-append g [] d h = (refl, tt)
Distinct-append g (x ∷ fs) d h = (
  ground (arith, mem_file-append x g fs, equal_iff g x, equal_iff x g),
  Distinct-append g fs d.1 (ground arith),
)

Distinct-first_appearances :
    (seen : List Bytes) (ls : List Location) → Distinct seen → Distinct (first_appearances seen ls)
Distinct-first_appearances seen [] d = d
Distinct-first_appearances seen (l ∷ ls) d = elim (Bool-cases (mem_file l.file seen)) [
  | inl old ↦ rw old (Distinct-first_appearances seen ls d)
  | inr new ↦
      rw new
        (Distinct-first_appearances (seen ++ (l.file ∷ [])) ls (Distinct-append l.file seen d new))
]

-- `Locations` makes one group for each file, in the order in which the provider first names the files,
-- and the group of a file has exactly the ranges that the provider gave for it, in its order.
pub group_locations_lem :
    (ls : List Location)
    → (files_of (group_locations ls) ≡ first_appearances [] ls)
      × Distinct (files_of (group_locations ls))
      × ((f : Bytes) → ranges_of f (group_locations ls) ≡ ranges_in f ls)
group_locations_lem ls =
    let files = files_of-group_from [] ls in
    (
      files,
      subst Distinct (sym files) (Distinct-first_appearances [] ls tt),
      λ f. ranges_of-group_from f [] ls,
    )
