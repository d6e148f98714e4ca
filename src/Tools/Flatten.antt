-- ===== src/Tools/Flatten.antt =====
-- `flattenSymbols` of internal/tools/get_outline.go: a bounded, depth-first outline.
use portolan.Prelude.{
  ℕ, zero, suc, ◌+◌, Bool, true, false, List, [], ◌∷◌, ◌++◌, map, append-nil, append_assoc, ◌≡◌,
  arith, ltb, ◌==◌, if◌then◌else◌, length, length-append, length-map, length-take, ltb→lt, ◌⊎◌,
  take, min,
}
use portolan.Context.{Error, ok, err, Context, background, M, ◌>>=◌, return, check, poll}
use portolan.Context.Polling.{
  Transparent, Transparent-value, return-Transparent, check-Transparent, bind-Transparent,
}
use portolan.Core.Types.{Symbol, Nodes}
use portolan.Tools.Walk.{preorder, walk, scan, walk-scan, walk-Transparent}

pub record OutlineSymbol : Type 0 where
  pub symbol : Symbol
  pub depth : ℕ

pub record FlattenedSymbols : Type 0 where
  pub outline : List OutlineSymbol
  pub originals : List Symbol
  pub truncated : Bool

abbrev outline_symbol : ℕ × Symbol → OutlineSymbol
outline_symbol e = record { symbol = e.1; depth = e.0 }

unfoldable pub visit_outline : ℕ → ℕ → Symbol → FlattenedSymbols → Bool × FlattenedSymbols
visit_outline limit d s flat = if length flat.outline == limit then (true, flat) else (
  false,
  record flat {
    outline = flat.outline ++ (record { symbol = s; depth = d } ∷ []);
    originals = flat.originals ++ (s ∷ []);
  },
)

abbrev pub empty_outline : FlattenedSymbols
empty_outline = record { outline = []; originals = []; truncated = false }

unfoldable pub flatten_symbols : Nodes → ℕ → M FlattenedSymbols
flatten_symbols symbols limit = check >>= λ _.
    walk (visit_outline limit) symbols 0 empty_outline >>= λ r.
    return (record (r.1) { truncated = r.0 })

-- The specification: the first `cap` symbols in the order of the file, each with its depth.
unfoldable pub outlined : List (ℕ × Symbol) → ℕ → FlattenedSymbols
outlined es limit = record {
  outline = map outline_symbol (take limit es);
  originals = map (λ e. e.1) (take limit es);
  truncated = ltb limit (length es);
}

-- The loop with room for `room` more.
scan_outline :
    (limit room : ℕ) (es : List (ℕ × Symbol)) (flat : FlattenedSymbols)
    → length flat.outline + room ≡ limit
    → scan (visit_outline limit) es flat ≡ (
      ltb room (length es),
      record flat {
        outline = flat.outline ++ map outline_symbol (take room es);
        originals = flat.originals ++ map (λ e. e.1) (take room es);
      },
    )
unfolding scan visit_outline
scan_outline limit zero [] flat h = rw (append-nil flat.outline, append-nil flat.originals)
scan_outline limit (suc room) [] flat h =
    rw (append-nil flat.outline, append-nil flat.originals) (ground arith)
scan_outline limit zero ((d, s) ∷ es) flat h =
    rw (append-nil flat.outline, append-nil flat.originals) (ground arith)
scan_outline limit (suc room) ((d, s) ∷ es) flat h =
    let next = record flat {
      outline = flat.outline ++ (record { symbol = s; depth = d } ∷ []);
      originals = flat.originals ++ (s ∷ []);
    } in
    ground (
      arith,
      length-append flat.outline (record { symbol = s; depth = d } ∷ []),
      scan_outline limit room es next,
      append_assoc flat.outline (outline_symbol (d, s) ∷ []) (map outline_symbol (take room es)),
      append_assoc flat.originals (s ∷ []) (map (λ (e : ℕ × Symbol). e.1) (take room es)),
    )

-- Under a context that is not canceled the outline is that of the specification.
pub flatten_symbols_lem :
    (symbols : Nodes) (cap : ℕ)
    → flatten_symbols symbols cap background ≡ ok (outlined (preorder 0 symbols) cap, background)
unfolding flatten_symbols outlined check poll
flatten_symbols_lem symbols limit =
    rw (walk-scan (visit_outline limit) symbols 0 empty_outline, ◌>>=◌)
      (rw (scan_outline limit limit (preorder 0 symbols) empty_outline (omega arith)))

pub flatten_symbols-Transparent :
    (symbols : Nodes) (cap : ℕ) → Transparent (flatten_symbols symbols cap)
unfolding flatten_symbols
flatten_symbols-Transparent symbols limit = bind-Transparent check _ check-Transparent λ _.
    bind-Transparent (walk (visit_outline limit) symbols 0 empty_outline) _
      (walk-Transparent (visit_outline limit) symbols 0 empty_outline) λ r. return-Transparent _

-- Under a context that is never canceled `flattenSymbols` returns the first symbols of the walk in order,
-- up to the cap, each with its depth, and is truncated exactly when there are more; in any context it
-- fails or returns the same.
pub flatten_symbols-outlined :
    (symbols : Nodes) (limit : ℕ) (c : Context)
    → (flatten_symbols symbols limit background
        ≡ ok (outlined (preorder 0 symbols) limit, background))
      × (((e : Error) × (flatten_symbols symbols limit c ≡ err e))
          ⊎ ((d : Context) × (flatten_symbols symbols limit c
                ≡ ok (outlined (preorder 0 symbols) limit, d))))
flatten_symbols-outlined symbols limit c =
    let whole = flatten_symbols_lem symbols limit in
    (
      whole,
      Transparent-value (flatten_symbols symbols limit) c
          (flatten_symbols-Transparent symbols limit) whole,
    )

pub length-outlined :
    (es : List (ℕ × Symbol)) (limit : ℕ)
    → (length (outlined es limit).outline ≡ min limit (length es))
      × ((outlined es limit).truncated ≡ true → length (outlined es limit).outline ≡ limit)
unfolding outlined
length-outlined es limit =
    let n = length-map outline_symbol (take limit es) in
    let m = length-take limit es in (omega arith, λ h. omega (arith, ltb→lt limit (length es) h))
