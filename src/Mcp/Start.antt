-- ===== src/Mcp/Start.antt =====
-- internal/mcp/control.go and control_publication.go: how the control channel starts. What the file system
-- and the network answer are inputs; the publication of the socket is Mcp/Publication's.
pub mod Settled
use portolan.Prelude.{
  ℕ, zero, suc, ◌+◌, ◌-◌, Bool, true, false, not, ◌&&◌, Option, none, some, List, [], ◌∷◌, Bytes,
  codes, if◌then◌else◌, ◌≡◌, refl, arith, ◌⊎◌, inl, inr,
}
use portolan.Context.{Error, text, wrapped, Result, ok, err}
use portolan.Mcp.Publication.{staged, set_at, remove, Errno, World, Call, install_staged_socket}

-- What os.Lstat says of the socket's path.
pub data Inspected : Type 0 where
  nothing_there not_a_socket : Inspected
  unreadable : Error → Inspected
  socket : ℕ → Inspected

-- What net.DialTimeout says: a listener answers, the socket is stale, or neither is certain.
pub data Dialed : Type 0 where
  answered : Dialed
  connection_refused no_entry connection_reset not_connected : Dialed
  unclear : Error → Dialed

confirmed_stale_socket : Dialed → Bool
confirmed_stale_socket connection_refused = true
confirmed_stale_socket no_entry = true
confirmed_stale_socket connection_reset = true
confirmed_stale_socket not_connected = true
confirmed_stale_socket _ = false

probe : ℕ → Dialed → Result (Option ℕ)
unfolding confirmed_stale_socket
probe inode answered = err (text (codes "control socket already has a live listener"))
probe inode (unclear e) = err (wrapped (codes "control socket: probing") e)
probe inode d =
    if confirmed_stale_socket d
    then ok (some inode)
    else err (text (codes "control socket: probing"))

-- `preparePath`: the stale inode, if there is one.
unfoldable pub prepare_path : Inspected → Dialed → Result (Option ℕ)
unfolding probe
prepare_path nothing_there d = ok none
prepare_path not_a_socket d =
    err (text (codes "control socket already exists and is not a unix socket"))
prepare_path (unreadable e) d = err (wrapped (codes "control socket: inspecting") e)
prepare_path (socket inode) d = probe inode d

-- What `Start` has in hand: the lock file, open, locked and kept in `c.lockFile`; how many listeners are open,
-- and whether `c.listener` keeps one; `c.socketInfo`; and the names, for the publication.
pub record Held : Type 0 where
  pub is_lock_open : Bool
  pub is_locked : Bool
  pub keeps_lock : Bool
  pub listeners : ℕ
  pub keeps_listener : Bool
  pub socket_info : Option ℕ
  pub world : World

unfoldable pub nothing_held : World → Held
nothing_held w = record {
  is_lock_open = false;
  is_locked = false;
  keeps_lock = false;
  listeners = 0;
  keeps_listener = false;
  socket_info = none;
  world = w;
}

-- `lockFile.Close()`, which gives the lock up.
close_lock_file : Held → Held
close_lock_file c = record c { is_lock_open = false; is_locked = false }

-- `releaseLock`.
release_lock : Held → Held
unfolding close_lock_file
release_lock c = if c.keeps_lock then record (close_lock_file c) { keeps_lock = false } else c

-- `net.Listen` at a staged name, with the inode of the socket.
unfoldable pub listen : ℕ → Held → Held
listen inode c = record c {
  listeners = c.listeners + 1;
  world = set_at staged (some inode) c.world;
}

-- `ln.Close()`.
close_listener : Held → Held
close_listener c = record c { listeners = c.listeners - 1 }

-- `os.Remove(stagedPath)`.
remove_staged : Held → Held
remove_staged c = record c { world = (remove staged c.world).1 }

-- One attempt of `listenStaged` at a random name: behind net.Listen with the inode of the socket.
pub data Attempt : Type 0 where
  no_random : Error → Attempt
  name_taken : Attempt
  refused : Error → Attempt
  not_unix : ℕ → Attempt
  lost : ℕ → Error → Attempt
  listening : ℕ → Attempt

-- `listenStaged`, with the attempts that are left, each at a name of its own: the inode of the socket.
unfoldable pub listen_from : ℕ → (ℕ → Attempt) → Held → Result ℕ × Held
unfolding listen close_listener remove_staged
listen_from zero attempt c = (err (text (codes "could not allocate a staged socket pathname")), c)
listen_from (suc n) attempt c =
    let rest = listen_from n attempt c in
    elim (attempt n) [
      | no_random e ↦ (err e, c)
      | name_taken ↦ rest
      | refused e ↦ (err e, c)
      | not_unix inode ↦ (
        err (text (codes "listener is not a unix listener")),
        remove_staged (close_listener (listen inode c)),
      )
      | lost inode e ↦ (err e, remove_staged (close_listener (listen inode c)))
      | listening inode ↦ (ok inode, listen inode c)
    ]

unfoldable pub listen_staged : (ℕ → Attempt) → Held → Result ℕ × Held
listen_staged = listen_from 8

pub data LockAnswer : Type 0 where
  lock_taken lock_busy : LockAnswer
  lock_failed : Error → LockAnswer

-- What `Start` meets. The first three are the checks of the runtime directory and of the socket's, and the
-- opening of the lock file.
pub record Surroundings : Type 0 where
  pub has_context : Bool
  pub runtime_dir : Option Error
  pub socket_dir : Option Error
  pub open_lock : Option Error
  pub lock : LockAnswer
  pub inspected : Inspected
  pub dialed : Dialed
  pub attempt : ℕ → Attempt
  pub chmod : Option Error

-- `Start` behind installStagedSocket, which left its error and the names.
installed : ℕ → Held → Call → Option Error × Held
unfolding release_lock close_listener remove_staged
installed inode c (some x, w) = (
  some (text (codes "control socket: installing")),
  release_lock (remove_staged (close_listener (record c { world = w }))),
)
installed inode c (none, w) =
    (none, record c { keeps_listener = true; socket_info = some inode; world = w })

-- `Start` behind listenStaged.
publish_listener : Surroundings → Option ℕ → ℕ → Held → Option Error × Held
unfolding installed release_lock close_listener remove_staged
publish_listener s stale inode c = elim s.chmod [
  | some e ↦ (
    some (wrapped (codes "control socket: chmod") e),
    release_lock (remove_staged (close_listener c)),
  )
  | none ↦ installed inode c (install_staged_socket stale c.world)
]

-- What `Start` makes of the result of listenStaged.
listened : Surroundings → Option ℕ → Result ℕ × Held → Option Error × Held
unfolding publish_listener release_lock
listened s stale (err e, c) = (some (wrapped (codes "control socket: listen") e), release_lock c)
listened s stale (ok inode, c) = publish_listener s stale inode c

-- `Start` behind the lock.
start_locked : Surroundings → Held → Option Error × Held
unfolding listened release_lock
start_locked s c = elim (prepare_path s.inspected s.dialed) [
  | err e ↦ (some e, release_lock c)
  | ok stale ↦ listened s stale (listen_staged s.attempt c)
]

-- The checks in front of the lock.
unsafe : Surroundings → Option Error
unsafe s =
    if not s.has_context
    then some (text (codes "control socket: nil context"))
    else elim s.runtime_dir [
      | some e ↦ some (wrapped (codes "control socket: preparing private runtime directory") e)
      | none ↦ elim s.socket_dir [
        | some e ↦ some (wrapped (codes "control socket: unsafe socket directory") e)
        | none ↦ elim s.open_lock [
          | some e ↦ some (wrapped (codes "control socket: opening ownership lock") e)
          | none ↦ none
        ]
      ]
    ]

-- `Start` from the lock on, with the lock file open.
after_lock : Surroundings → Held → Option Error × Held
unfolding start_locked close_lock_file
after_lock s c = elim (s.lock) [
  | lock_busy ↦
      (some (text (codes "control socket is already owned by another daemon")), close_lock_file c)
  | lock_failed e ↦ (some (wrapped (codes "control socket: locking") e), close_lock_file c)
  | lock_taken ↦ start_locked s (record c { is_locked = true; keeps_lock = true })
]

-- `Start`: its error, and what it has in hand when it returns.
unfoldable pub start : Surroundings → Held → Option Error × Held
unfolding after_lock unsafe
start s c = elim (unsafe s) [
  | some e ↦ (some e, c)
  | none ↦ after_lock s (record c { is_lock_open = true })
]
