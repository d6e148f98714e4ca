-- ===== src/Tests/Start.antt =====
-- A start over a stale socket, with another daemon at work on the path.
use portolan.Prelude.{true, none, some, List, [], ◌∷◌, ◌≡◌, refl}
use portolan.Mcp.Publication.{
  Turn, install_staged_socket, make_dir, rename, link, remove, is_same_file, publish, drop_stale,
  replace_stale, interfere,
}
use portolan.Mcp.Publication.Calls
use portolan.Mcp.Start.{
  nothing_held, listen, connection_refused, socket, listening, lock_taken, Surroundings,
  prepare_path, listen_staged, listen_from, start,
}
use portolan.Mcp.Start.Settled.{Settled, start-Settled}

abbrev surroundings : Surroundings
surroundings = record {
  has_context = true;
  runtime_dir = none;
  socket_dir = none;
  open_lock = none;
  lock = lock_taken;
  inspected = socket 5;
  dialed = connection_refused;
  attempt = λ n. listening 7;
  chmod = none;
}

socket_info-start :
    (start surroundings (nothing_held (Calls.start (some 5) none []))).1.socket_info ≡ some 7
unfolding start nothing_held listen prepare_path listen_staged listen_from install_staged_socket
    make_dir rename link remove is_same_file publish drop_stale replace_stale interfere
socket_info-start = refl

abbrev contested : List Turn
contested = record { replaced = some (some 9); failure = none } ∷ []

start-Settled_example :
    Settled (start surroundings (nothing_held (Calls.start (some 5) none contested)))
start-Settled_example = start-Settled surroundings (some 5) contested
