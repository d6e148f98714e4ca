-- ===== src/Render/Outline.antt =====
-- internal/tools/outline_render.go.
pub mod Lines
use portolan.Prelude.{
  ℕ, Bool, true, false, ◌&&◌, ◌||◌, List, [], ◌∷◌, ◌++◌, map, Bytes, codes, is_empty, not, ltb,
  ◌==◌, if◌then◌else◌, length,
}
use portolan.Tools.Flatten.{OutlineSymbol}
use portolan.Tools.Outline.{GetOutlineOutput}
use portolan.Render.Atoms.{symbol_line}
use portolan.Render.Shared.{file_line, empty_text, error_text, footer}

abbrev pub range_convention : Bytes
range_convention = codes "ranges 0-based"

-- The loop over the rows: a blank line stands before the first, and where nesting closed. `before` is
-- the depth of the row before.
rows_text : Bool → ℕ → List OutlineSymbol → Bytes
rows_text first before [] = []
rows_text first before (o ∷ os) =
    (if first || (o.depth == 0 && ltb 0 before) then codes "\n" else [])
    ++ (symbol_line o.symbol o.depth ++ (codes "\n" ++ rows_text false o.depth os))

unfoldable pub render_outline : GetOutlineOutput → Bytes
unfolding rows_text
render_outline out =
    if not (is_empty out.error)
    then error_text (out.message ++ (codes ": " ++ out.error))
    else if not out.found
    then empty_text out.message
    else file_line out.file
      ++ (codes "\n"
          ++ (range_convention
              ++ (codes "\n"
                  ++ (rows_text true 0 out.symbols
                      ++ (codes "\n"
                          ++ footer (length out.symbols) (codes "symbol") (codes "symbols")
                              out.truncated)))))
