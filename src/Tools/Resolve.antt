-- ===== src/Tools/Resolve.antt =====
-- internal/tools/resolve.go: from a symbol's name to the position that a navigation request wants.
use portolan.Prelude.{
  ℕ, Bool, true, false, ◌&&◌, Option, none, some, List, [], ◌∷◌, Bytes, equal, find, ◌≡◌, refl, ap,
  arith, if◌then◌else◌, ◌⊎◌,
}
use portolan.Prelude.Int.{ℤ, eqb_ℤ}
use portolan.Context.{Error, ok, err, Context, background, M, ◌>>=◌, return, check, poll}
use portolan.Context.Polling.{
  Transparent, Transparent-value, return-Transparent, check-Transparent, bind-Transparent,
}
use portolan.Core.Types.{Position, Symbol, Nodes}
use portolan.Tools.Walk.{preorder, walk, scan, walk-scan, walk-Transparent}

-- The variables that the closure captures.
pub record Matches : Type 0 where
  pub first : Option Symbol
  pub line_match : Option Symbol

abbrev first_or : Option Symbol → Symbol → Option Symbol
first_or none s = some s
first_or (some f) s = some f

-- What follows a match of the name.
visit_line : Option ℤ → Symbol → Matches → Bool × Matches
visit_line none s m = (true, record m { first = first_or m.first s })
visit_line (some l) s m =
    if eqb_ℤ s.sel_range.start.line l
    then (true, record { first = first_or m.first s; line_match = some s })
    else (false, record m { first = first_or m.first s })

unfoldable pub visit_named : Bytes → Option ℤ → ℕ → Symbol → Matches → Bool × Matches
unfolding visit_line
visit_named name line d s m = if equal s.name name then visit_line line s m else (false, m)

abbrev pub no_matches : Matches
no_matches = record { first = none; line_match = none }

-- The choice behind the walk.
choose : Option Symbol → Option Symbol → Option Position
choose (some s) first = some s.sel_range.start
choose none (some s) = some s.sel_range.start
choose none none = none

unfoldable pub resolve_symbol_position : Nodes → Bytes → Option ℤ → M (Option Position)
unfolding choose
resolve_symbol_position symbols name line = check >>= λ _.
    walk (visit_named name line) symbols 0 no_matches >>= λ r.
    return (choose r.1.line_match r.1.first)

-- The declarations of the outline in the order of the file.
abbrev pub entries : Nodes → List (ℕ × Symbol)
entries ns = preorder 0 ns

abbrev pub is_named : Bytes → ℕ × Symbol → Bool
is_named name e = equal e.1.name name

abbrev pub is_named_at : Bytes → ℤ → ℕ × Symbol → Bool
is_named_at name l e = equal e.1.name name && eqb_ℤ e.1.sel_range.start.line l

abbrev start_of : Option (ℕ × Symbol) → Option Position
start_of none = none
start_of (some e) = some e.1.sel_range.start

-- The specification: with no line the first symbol of that name; with a line the first of that name
-- that starts on it, and failing that the first of that name.
unfoldable pub resolved : List (ℕ × Symbol) → Bytes → Option ℤ → Option Position
resolved es name none = start_of (find (is_named name) es)
resolved es name (some l) = elim (find (is_named_at name l) es) [
  | some e ↦ some e.1.sel_range.start
  | none ↦ start_of (find (is_named name) es)
]

-- The loop from a state that has seen no line match.
scan_any :
    (name : Bytes) (es : List (ℕ × Symbol))
    → let r = scan (visit_named name none) es no_matches in
      choose r.1.line_match r.1.first ≡ start_of (find (is_named name) es)
unfolding scan visit_named choose
scan_any name [] = refl
scan_any name ((d, s) ∷ es) = ground (arith, scan_any name es)

or_start : Option Symbol → Option Position → Option Position
or_start (some s) p = some s.sel_range.start
or_start none p = p

scan_line :
    (name : Bytes) (l : ℤ) (first : Option Symbol) (es : List (ℕ × Symbol))
    → let r = scan (visit_named name (some l)) es (record { first = first; line_match = none }) in
      choose r.1.line_match r.1.first ≡ elim (find (is_named_at name l) es) [
        | some e ↦ some e.1.sel_range.start
        | none ↦ or_start first (start_of (find (is_named name) es))
      ]
unfolding scan visit_named choose or_start
scan_line name l none [] = refl
scan_line name l (some s) [] = refl
scan_line name l none ((d, s) ∷ es) =
    ground (arith, scan_line name l none es, scan_line name l (some s) es)
scan_line name l (some f) ((d, s) ∷ es) = ground (arith, scan_line name l (some f) es)

-- Resolution is that of the specification, under a context that is not canceled.
pub resolve_symbol_position_lem :
    (symbols : Nodes) (name : Bytes) (line : Option ℤ)
    → resolve_symbol_position symbols name line background
      ≡ ok (resolved (entries symbols) name line, background)
unfolding resolve_symbol_position resolved or_start check poll
resolve_symbol_position_lem symbols name none =
    rw (walk-scan (visit_named name none) symbols 0 no_matches, ◌>>=◌)
      (ap (λ p. ok (p, background)) (scan_any name (entries symbols)))
resolve_symbol_position_lem symbols name (some l) =
    rw (walk-scan (visit_named name (some l)) symbols 0 no_matches, ◌>>=◌)
      (ap (λ p. ok (p, background)) (scan_line name l none (entries symbols)))

pub resolve_symbol_position-Transparent :
    (symbols : Nodes) (name : Bytes) (line : Option ℤ)
    → Transparent (resolve_symbol_position symbols name line)
unfolding resolve_symbol_position
resolve_symbol_position-Transparent symbols name line =
    bind-Transparent check _ check-Transparent λ _.
      bind-Transparent (walk (visit_named name line) symbols 0 no_matches) _
        (walk-Transparent (visit_named name line) symbols 0 no_matches) λ r. return-Transparent _

-- Under a context that is never canceled `resolveSymbolPosition` gives the start of the name of the first
-- symbol of that name that starts on the given line, or of the first of that name where there is none or
-- no line is given, and nothing where no symbol has the name; in any context it fails or gives the same.
pub resolve_symbol_position-resolved :
    (symbols : Nodes) (name : Bytes) (line : Option ℤ) (c : Context)
    → (resolve_symbol_position symbols name line background
        ≡ ok (resolved (entries symbols) name line, background))
      × (((e : Error) × (resolve_symbol_position symbols name line c ≡ err e))
          ⊎ ((d : Context) × (resolve_symbol_position symbols name line c
                ≡ ok (resolved (entries symbols) name line, d))))
resolve_symbol_position-resolved symbols name line c =
    let whole = resolve_symbol_position_lem symbols name line in
    (
      whole,
      Transparent-value (resolve_symbol_position symbols name line) c
          (resolve_symbol_position-Transparent symbols name line) whole,
    )
