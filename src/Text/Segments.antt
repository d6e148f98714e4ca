-- ===== src/Text/Segments.antt =====
-- strings.Split at a slash, and path.Clean of a rooted path, which Go describes by the segments between
-- slashes: an empty one and `.` are dropped, `..` takes the one before it away, and no `..` is left at
-- the root.
pub mod Clean
use portolan.Prelude.{
  ℕ, Bool, true, false, not, ◌&&◌, ◌||◌, List, [], ◌∷◌, ◌++◌, append-nil, append_assoc, Bytes,
  codes, equal, ◌==◌, is_empty, all_of, if◌then◌else◌, ◌≡◌, refl, sym, ◌∙◌, ap, arith, Bool-cases,
  inl, inr,
}

unfoldable pub prepend : ℕ → List Bytes → List Bytes
prepend b [] = (b ∷ []) ∷ []
prepend b (s ∷ ss) = (b ∷ s) ∷ ss

-- `strings.Split(s, "/")`.
unfoldable pub split_slash : Bytes → List Bytes
unfolding prepend
split_slash [] = [] ∷ []
split_slash (b ∷ bs) = let rest = split_slash bs in if b == b'/' then [] ∷ rest else prepend b rest

-- Each segment behind a slash.
unfoldable pub slashed : List Bytes → Bytes
slashed [] = []
slashed (s ∷ ss) = b'/' ∷ (s ++ slashed ss)

unfoldable pub rooted : List Bytes → Bytes
rooted [] = b'/' ∷ []
rooted (s ∷ ss) = slashed (s ∷ ss)

abbrev drop_last : List Bytes → List Bytes
drop_last [] = []
drop_last (s ∷ []) = []
drop_last (s ∷ t ∷ ts) = s ∷ drop_last (t ∷ ts)

-- One more segment behind those that are kept.
put_segment : List Bytes → Bytes → List Bytes
put_segment out s =
    if is_empty s || equal s (codes ".")
    then out
    else if equal s (codes "..")
    then drop_last out
    else out ++ (s ∷ [])

unfoldable pub resolve_segments : List Bytes → List Bytes → List Bytes
unfolding put_segment
resolve_segments out [] = out
resolve_segments out (s ∷ ss) = resolve_segments (put_segment out s) ss

-- `path.Clean` of a path that begins with a slash.
unfoldable pub clean_rooted : Bytes → Bytes
unfolding split_slash resolve_segments rooted
clean_rooted p = rooted (resolve_segments [] (split_slash p))

-- No segment is left that `..` takes away.
ends_in_dots : List Bytes → Bool
ends_in_dots [] = true
ends_in_dots (s ∷ []) = equal s (codes "..")
ends_in_dots (s ∷ t ∷ ts) = ends_in_dots (t ∷ ts)

-- The same for a path that is not rooted, where `..` stays when no segment is left to take away.
put_relative : List Bytes → Bytes → List Bytes
unfolding ends_in_dots
put_relative out s =
    if is_empty s || equal s (codes ".")
    then out
    else if not (equal s (codes ".."))
    then out ++ (s ∷ [])
    else if ends_in_dots out
    then out ++ (s ∷ [])
    else drop_last out

resolve_relative : List Bytes → List Bytes → List Bytes
unfolding put_relative
resolve_relative out [] = out
resolve_relative out (s ∷ ss) = resolve_relative (put_relative out s) ss

-- `strings.Join(rest, "/")`.
unfoldable pub join_slash : List Bytes → Bytes
join_slash [] = []
join_slash (s ∷ []) = s
join_slash (s ∷ t ∷ ts) = s ++ (b'/' ∷ join_slash (t ∷ ts))

or_dot : List Bytes → Bytes
unfolding join_slash
or_dot [] = codes "."
or_dot (s ∷ ss) = join_slash (s ∷ ss)

-- `path.Clean`.
unfoldable pub clean : Bytes → Bytes
unfolding clean_rooted resolve_relative or_dot split_slash
clean [] = codes "."
clean (b ∷ bs) =
    if b == b'/' then clean_rooted (b ∷ bs) else or_dot (resolve_relative [] (split_slash (b ∷ bs)))

abbrev pub no_slash : ℕ → Bool
no_slash b = not (b == b'/')

-- A segment of a clean path.
abbrev pub is_proper : Bytes → Bool
is_proper s =
    (not (is_empty s || equal s (codes ".")) && not (equal s (codes ".."))) && all_of no_slash s
