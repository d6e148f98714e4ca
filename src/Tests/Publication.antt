-- ===== src/Tests/Publication.antt =====
-- A stale socket that is replaced, and one that another daemon replaced first.
use portolan.Prelude.{none, some, List, [], ◌∷◌, ◌≡◌, refl}
use portolan.Mcp.Publication.{
  public, staged, quarantine, other_error, moved, linked, unlinked, Turn, interfere, make_dir,
  rename, link, remove, is_same_file, restore_path_no_replace, publish, drop_stale, replace_stale,
  install_staged_socket,
}
use portolan.Mcp.Publication.Calls.{start}

abbrev calm : Turn
calm = record { replaced = none; failure = none }

-- Another daemon puts its socket, inode 9, at the path before the rename.
abbrev contested : List Turn
contested = calm ∷ record { replaced = some (some 9); failure = none } ∷ []

install_staged_socket-stale :
    (install_staged_socket (some 5) (start (some 5) (some 7) [])).1.log
    ≡ unlinked staged 7 ∷ linked 7 public ∷ unlinked quarantine 5 ∷ moved 5 ∷ []
unfolding install_staged_socket make_dir rename link remove is_same_file publish drop_stale
    replace_stale interfere
install_staged_socket-stale = refl

install_staged_socket-contested :
    (install_staged_socket (some 5) (start (some 5) (some 7) contested)).1.at_public ≡ some 9
unfolding install_staged_socket make_dir rename link remove is_same_file publish drop_stale
    replace_stale interfere restore_path_no_replace
install_staged_socket-contested = refl

-- The removal of the staged name fails, and another daemon has replaced the path before the roll back.
abbrev late : List Turn
late =
    calm
    ∷ record { replaced = none; failure = some other_error }
    ∷ record { replaced = some (some 9); failure = none }
    ∷ []

install_staged_socket-late :
    (install_staged_socket none (start none (some 7) late)).1.log
    ≡ unlinked public 9 ∷ linked 7 public ∷ []
unfolding install_staged_socket link remove publish interfere
install_staged_socket-late = refl
