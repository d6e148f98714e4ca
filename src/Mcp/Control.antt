-- ===== src/Mcp/Control.antt =====
-- internal/mcp/control_lifecycle.go: the commands of the control channel and the connections that carry
-- them. A step is a critical section under connMu or the close of a connection; a connection's number is
-- its identity.
pub mod Commands
pub mod Connections
use portolan.Prelude.{
  ℕ, zero, suc, ◌+◌, ◌-◌, Bool, true, false, not, ◌&&◌, ◌||◌, List, [], ◌∷◌, ◌++◌, Bytes, codes,
  equal, ◌==◌, is_empty, if◌then◌else◌, ◌≡◌,
}
use portolan.Core.Config.{bump}
use portolan.Text.Utf8.{decode_rune}
use portolan.Text.Space.{is_space, trim_space}
use portolan.Text.Segments.{prepend}
use portolan.Text.Decimal.{decimal}

-- The text between runes of white space. The number is how many bytes of a rune follow, and `drop` whether
-- that rune is white space.
split_spaces : ℕ → Bool → Bytes → List Bytes
split_spaces skip drop [] = [] ∷ []
split_spaces zero drop (c ∷ cs) =
    let r = decode_rune (c ∷ cs) in
    let rest = split_spaces (r.1 - 1) (is_space r.0) cs in
    if is_space r.0 then [] ∷ rest else prepend c rest
split_spaces (suc skip) drop (c ∷ cs) =
    let rest = split_spaces skip drop cs in if drop then rest else prepend c rest

not_blank : List Bytes → List Bytes
not_blank [] = []
not_blank (s ∷ ss) = let rest = not_blank ss in if is_empty s then rest else s ∷ rest

-- `strings.Fields`.
unfoldable pub fields : Bytes → List Bytes
unfolding split_spaces not_blank prepend is_space
fields s = not_blank (split_spaces zero false s)

abbrev unknown : Bytes
unknown = codes "err unknown" ++ (b'\n' ∷ [])

unfoldable pub handle_fields : ℕ → List Bytes → Bytes × ℕ
handle_fields generation [] = (unknown, generation)
handle_fields generation (command ∷ arguments) =
    if equal command (codes "sync")
    then (codes "ok generation=" ++ (decimal (bump generation) ++ (b'\n' ∷ [])), bump generation)
    else (unknown, generation)

-- The reply, and the generation behind the command.
unfoldable pub handle_command : ℕ → Bytes → Bytes × ℕ
unfolding handle_fields
handle_command generation line = handle_fields generation (fields line)

-- A line that the scanner gives, and whether its reply is written.
pub record Line : Type 0 where
  pub bytes : Bytes
  pub is_written : Bool

-- `handleConn`: the replies that were written, and the generation.
unfoldable pub handle_lines : ℕ → List Line → List Bytes × ℕ
handle_lines generation [] = ([], generation)
handle_lines generation (l ∷ ls) =
    let line = trim_space l.bytes in
    let (reply, bumped) = handle_command generation line in
    let skipped = handle_lines generation ls in
    let rest = handle_lines bumped ls in
    if is_empty line
    then skipped
    else if l.is_written
    then (reply ∷ rest.0, rest.1)
    else ([], bumped)

-- The connections. `leaving` are the handlers between the removal of their connection and their end.
pub record Control : Type 0 where
  pub shutting_down : Bool
  pub connections : List ℕ
  pub closed : List ℕ
  pub handlers : ℕ
  pub leaving : ℕ
  pub accepted : ℕ

unfoldable pub is_in : ℕ → List ℕ → Bool
is_in n [] = false
is_in n (m ∷ ms) = let rest = is_in n ms in n == m || rest

unfoldable pub delete : ℕ → List ℕ → List ℕ
delete n [] = []
delete n (m ∷ ms) = let rest = delete n ms in if n == m then rest else m ∷ rest

-- An authorized connection, under the lock of `acceptLoop`.
unfoldable pub accept : Control → Control
accept c =
    let conn = c.accepted in
    if c.shutting_down
    then record c { closed = conn ∷ c.closed; accepted = suc conn }
    else record c {
      connections = conn ∷ c.connections;
      handlers = suc c.handlers;
      accepted = suc conn;
    }

-- One that is not authorized is closed.
unfoldable pub refuse : Control → Control
refuse c = record c { closed = c.accepted ∷ c.closed; accepted = suc c.accepted }

-- `beginShutdown` under the lock.
unfoldable pub begin_shutdown : Control → Control
begin_shutdown c = record c { shutting_down = true; closed = c.connections ++ c.closed }

-- `handleConn` ends with the close of its connection.
unfoldable pub close_connection : ℕ → Control → Control
close_connection conn c = record c { closed = conn ∷ c.closed }

-- The deferred removal of the connection, under the lock.
unfoldable pub unregister : ℕ → Control → Control
unfolding delete
unregister conn c = record c { connections = delete conn c.connections; leaving = suc c.leaving }

-- `handlers.Done`.
unfoldable pub handler_done : Control → Control
handler_done c = record c { handlers = c.handlers - 1; leaving = c.leaving - 1 }

unfoldable pub new_control : Control
new_control = record {
  shutting_down = false;
  connections = [];
  closed = [];
  handlers = 0;
  leaving = 0;
  accepted = 0;
}

pub data Step : Control → Control → Type 0 where
  accepts : (c : Control) → Step c (accept c)
  refuses : (c : Control) → Step c (refuse c)
  begins_shutdown : (c : Control) → c.shutting_down ≡ false → Step c (begin_shutdown c)
  closes :
      (c : Control) (conn : ℕ) → is_in conn c.connections ≡ true → Step c (close_connection conn c)
  unregisters :
      (c : Control) (conn : ℕ)
      → is_in conn c.connections ≡ true
      → is_in conn c.closed ≡ true
      → Step c (unregister conn c)
  ends : (c : Control) (n : ℕ) → c.leaving ≡ suc n → Step c (handler_done c)

pub data Reach : Control → Type 0 where
  start : Reach new_control
  next : {c d : Control} → Reach c → Step c d → Reach d
