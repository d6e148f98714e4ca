-- ===== src/Mcp/Control/Commands.antt =====
-- The generation counts the syncs.
use portolan.Prelude.{
  ℕ, ◌+◌, ◌%◌, ◌<◌, Bool, false, List, [], ◌∷◌, Bytes, codes, equal, is_empty, if◌then◌else◌, ◌≡◌,
  refl, ◌∙◌, arith, Bool-cases, inl, inr,
}
use portolan.Core.Config.{bump, generation_modulus}
use portolan.Text.Space.{trim_space}
use portolan.Mcp.Control.{Line, fields, handle_fields, handle_command, handle_lines}

unfoldable pub is_sync : List Bytes → Bool
is_sync [] = false
is_sync (command ∷ arguments) = equal command (codes "sync")

-- The syncs among the lines up to the first whose reply is not written, that one included.
unfoldable pub syncs : List Line → ℕ
unfolding is_sync
syncs [] = 0
syncs (l ∷ ls) =
    let line = trim_space l.bytes in
    let rest = syncs ls in
    let sync = if is_sync (fields line) then 1 else 0 in
    if is_empty line then rest else if l.is_written then sync + rest else sync

-- One command counts at most one sync.
handle_command-generation :
    (g : ℕ) (line : Bytes)
    → g < generation_modulus
    → (handle_command g line).1
      ≡ (g + (if is_sync (fields line) then 1 else 0)) % generation_modulus
unfolding handle_command handle_fields is_sync bump
handle_command-generation g line h =
    elim (fields line)
      as (λ fs. (handle_fields g fs).1 ≡ (g + (if is_sync fs then 1 else 0)) % generation_modulus) [
        | [] ↦ omega (arith, h)
        | command ∷ arguments ↦ elim (Bool-cases (equal command (codes "sync"))) [
          | inl sync ↦ rw sync refl
          | inr other ↦ rw other (omega (arith, h))
        ]
      ]

-- For any lines of a connection, the generation grows by the number of syncs among those that are handled,
-- which end with the first reply that is not written, and wraps around at 2 ^ 64.
pub handle_lines-syncs :
    (g : ℕ) (ls : List Line)
    → g < generation_modulus
    → (handle_lines g ls).1 ≡ (g + syncs ls) % generation_modulus
unfolding handle_lines syncs
handle_lines-syncs g [] h = omega (arith, h)
handle_lines-syncs g (l ∷ ls) h =
    let line = trim_space l.bytes in
    let one = handle_command-generation g line h in
    let small : (handle_command g line).1 < generation_modulus = rw one (omega arith) in
    let rest = handle_lines-syncs (handle_command g line).1 ls small in
    let skipped = handle_lines-syncs g ls h in
    elim (Bool-cases (is_empty line)) [
      | inl blank ↦ rw blank skipped
      | inr command ↦ elim (Bool-cases (l.is_written)) [
        | inr lost ↦ rw (command, lost) one
        | inl written ↦ rw (command, written) (rest ∙ rw one (omega arith))
      ]
    ]
