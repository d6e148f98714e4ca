-- ===== src/Render/Outline/Lines.antt =====
-- The line grammar of `RenderOutline`.
use portolan.Prelude.{
  ℕ, Bool, true, false, ◌&&◌, ◌||◌, List, [], ◌∷◌, ◌++◌, append_assoc, Bytes, codes, ltb, ◌==◌,
  length, if◌then◌else◌, ◌≡◌, refl, ap, ◌∙◌, arith, Bool-cases, inl, inr,
}
use portolan.Tools.Flatten.{OutlineSymbol}
use portolan.Tools.Outline.{GetOutlineOutput}
use portolan.Text.Decimal.{decimal}
use portolan.Render.Atoms.{symbol_line, inline_text}
use portolan.Render.Atoms.Printable.{
  IsPrintable, append-IsPrintable, inline_text-IsPrintable, decimal-IsPrintable,
  symbol_line-IsPrintable,
}
use portolan.Render.Shared.{file_line, count_text, footer}
use portolan.Render.Outline.{range_convention, rows_text, render_outline}

-- The lines of a text: it is cut at each line feed.
extend_line : ℕ → List Bytes → List Bytes
extend_line c [] = (c ∷ []) ∷ []
extend_line c (l ∷ ls) = (c ∷ l) ∷ ls

pub lines_of : Bytes → List Bytes
lines_of [] = [] ∷ []
lines_of (c ∷ s) = if c == b'\n' then [] ∷ lines_of s else extend_line c (lines_of s)

lines_of-cons : (l s : Bytes) → IsPrintable l → lines_of (l ++ (b'\n' ∷ s)) ≡ l ∷ lines_of s
unfolding lines_of extend_line
lines_of-cons [] s h = refl
lines_of-cons (c ∷ l) s h = ground (arith, lines_of-cons l s)

lines_of-last : (l : Bytes) → IsPrintable l → lines_of l ≡ l ∷ []
unfolding lines_of extend_line
lines_of-last [] h = refl
lines_of-last (c ∷ l) h = ground (arith, lines_of-last l)

-- The lines of the rows: one for each symbol, and an empty one before the first and before each
-- top-level symbol behind a nested one.
pub row_lines : Bool → ℕ → List OutlineSymbol → List Bytes
row_lines first before [] = []
row_lines first before (o ∷ os) =
    if first || (o.depth == 0 && ltb 0 before)
    then [] ∷ symbol_line o.symbol o.depth ∷ row_lines false o.depth os
    else symbol_line o.symbol o.depth ∷ row_lines false o.depth os

lines_of-row :
    (o : OutlineSymbol) (more rest : Bytes)
    → lines_of ((symbol_line o.symbol o.depth ++ (b'\n' ∷ more)) ++ rest)
      ≡ symbol_line o.symbol o.depth ∷ lines_of (more ++ rest)
lines_of-row o more rest =
    ap lines_of (append_assoc (symbol_line o.symbol o.depth) (b'\n' ∷ more) rest)
    ∙ lines_of-cons (symbol_line o.symbol o.depth) (more ++ rest)
        (symbol_line-IsPrintable o.symbol o.depth)

lines_of-rows_text :
    (first : Bool) (before : ℕ) (os : List OutlineSymbol) (rest : Bytes)
    → lines_of (rows_text first before os ++ rest) ≡ row_lines first before os ++ lines_of rest
unfolding rows_text row_lines lines_of
lines_of-rows_text first before [] rest = refl
lines_of-rows_text first before (o ∷ os) rest =
    let row =
      lines_of-row o (rows_text false o.depth os) rest
      ∙ ap (◌∷◌ (symbol_line o.symbol o.depth)) (lines_of-rows_text false o.depth os rest) in
    elim (Bool-cases (first || (o.depth == 0 && ltb 0 before))) [
      | inl blank ↦ rw blank (ap (◌∷◌ []) row)
      | inr dense ↦ rw dense row
    ]

file_line-IsPrintable : (file : Bytes) → IsPrintable (file_line file)
unfolding file_line
file_line-IsPrintable file = inline_text-IsPrintable file

footer-IsPrintable :
    (n : ℕ) (one many : Bytes) (truncated : Bool) → IsPrintable (footer n one many truncated)
unfolding footer count_text
footer-IsPrintable n one many truncated = go truncated
  where
    noun : Bytes
    noun = inline_text (if n == 1 then one else many)

    counted : IsPrintable (decimal n ++ (codes " " ++ noun))
    counted =
        append-IsPrintable (decimal n) (codes " " ++ noun) (decimal-IsPrintable n)
          (inline_text-IsPrintable (if n == 1 then one else many))

    go : (b : Bool) → IsPrintable (footer n one many b)
    go true =
        append-IsPrintable (decimal n ++ (codes " " ++ noun))
          (codes "; truncated: more " ++ (inline_text many ++ codes " exist")) counted
          (append-IsPrintable (inline_text many) (codes " exist") (inline_text-IsPrintable many)
            refl)
    go false =
        append-IsPrintable (decimal n ++ (codes " " ++ noun)) (codes "; complete") counted refl

-- The text of an outline that was found without an error is, line by line: the file, the range
-- convention, the rows, an empty line and the footer, which says whether there are more symbols.
pub lines_of-render_outline :
    (out : GetOutlineOutput)
    → out.error ≡ []
    → out.found ≡ true
    → lines_of (render_outline out)
      ≡ file_line out.file
        ∷ range_convention
        ∷ (row_lines true 0 out.symbols
            ++ ([]
                ∷ footer (length out.symbols) (codes "symbol") (codes "symbols") out.truncated
                ∷ []))
unfolding render_outline
lines_of-render_outline out e f =
    let foot = footer (length out.symbols) (codes "symbol") (codes "symbols") out.truncated in
    rw (e, f)
      (lines_of-cons (file_line out.file) _ (file_line-IsPrintable out.file)
        ∙ ap (◌∷◌ (file_line out.file)) (
            lines_of-cons range_convention (rows_text true 0 out.symbols ++ (b'\n' ∷ foot)) refl
            ∙ ap (◌∷◌ range_convention) (
                lines_of-rows_text true 0 out.symbols (b'\n' ∷ foot)
                ∙ ap (λ ls. row_lines true 0 out.symbols ++ ls)
                    (lines_of-cons [] foot refl
                      ∙ ap (◌∷◌ []) (
                          lines_of-last foot (
                            footer-IsPrintable (length out.symbols) (codes "symbol")
                              (codes "symbols") out.truncated))))))
