-- ===== src/Tests/Control.antt =====
-- A connection that is open when the shutdown begins, and one that sends two commands.
use portolan.Prelude.{
  ◌+◌, true, not, ◌||◌, List, [], ◌∷◌, ◌++◌, codes, equal, length, all_of, ◌≡◌, refl,
}
use portolan.Core.Config.{bump}
use portolan.Text.Space.{trim_space}
use portolan.Text.Utf8.{decode_rune}
use portolan.Text.Decimal.{decimal}
use portolan.Mcp.Control.{
  Line, handle_lines, handle_command, handle_fields, fields, Control, is_in, accept, begin_shutdown,
  new_control, accepts, begins_shutdown, Reach, start, next,
}
use portolan.Mcp.Control.Connections.{Reach-counted}

abbrev two_lines : List Line
two_lines =
    record { bytes = codes " sync now"; is_written = true }
    ∷ record { bytes = codes "help"; is_written = true }
    ∷ []

replies :
    (handle_lines 4 two_lines).0
    ≡ (codes "ok generation=5" ++ (b'\n' ∷ [])) ∷ (codes "err unknown" ++ (b'\n' ∷ [])) ∷ []
unfolding handle_lines handle_command handle_fields fields bump trim_space decode_rune equal decimal
replies = refl

abbrev shut_down : Control
shut_down = begin_shutdown (accept new_control)

shut_down-Reach : Reach shut_down
unfolding accept new_control
shut_down-Reach =
    next (next start (accepts new_control)) (begins_shutdown (accept new_control) refl)

Reach-counted_example :
    (shut_down.handlers ≡ length shut_down.connections + shut_down.leaving)
    × (all_of (λ n. not shut_down.shutting_down || is_in n shut_down.closed) shut_down.connections
        ≡ true)
Reach-counted_example = Reach-counted shut_down-Reach
