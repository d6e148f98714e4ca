-- ===== src/Mcp/Start/Settled.antt =====
-- What `Start` leaves behind.
use portolan.Prelude.{
  ℕ, zero, suc, true, false, Option, none, some, List, [], codes, ◌≡◌, refl, arith, inl, inr,
}
use portolan.Context.{Error, text, wrapped, Result, ok, err}
use portolan.Mcp.Publication.{Turn, World, staged, set_at, Call, install_staged_socket, publish}
use portolan.Mcp.Publication.Calls.{is_safe, is_kept, start}
use portolan.Mcp.Publication.Installation.{
  Published, Ended, publish-Ended, install_staged_socket-Ended,
}
use portolan.Mcp.Start.{
  Surroundings, Held, nothing_held, close_lock_file, release_lock, listen, close_listener,
  remove_staged, Attempt, no_random, name_taken, refused, not_unix, lost, listening, listen_from,
  prepare_path, listen_staged, installed, publish_listener, listened, start_locked, unsafe,
  after_lock, lock_taken, lock_busy, lock_failed,
}
use portolan.Mcp.Start

-- Either an error is returned, the lock file is closed, without a lock, and no listener is left open; or no
-- error is returned, the lock file is open, locked and kept, one listener is open and kept, and its socket,
-- whose inode is known, was linked to the public path.
pub data Settled (r : Option Error × Held) : Type 0 where
  withdrawn :
      (e : Error)
      → r.0 ≡ some e
      → r.1.is_lock_open ≡ false
      → r.1.is_locked ≡ false
      → r.1.keeps_lock ≡ false
      → r.1.listeners ≡ 0
      → r.1.keeps_listener ≡ false
      → Settled r
  running :
      (inode : ℕ)
      → r.0 ≡ none
      → r.1.is_lock_open ≡ true
      → r.1.is_locked ≡ true
      → r.1.keeps_lock ≡ true
      → r.1.listeners ≡ 1
      → r.1.keeps_listener ≡ true
      → r.1.socket_info ≡ some inode
      → Published inode r.1.world
      → Settled r

-- With the lock, and a number of listeners.
abbrev owner : ℕ → World → Held
owner n w = record {
  is_lock_open = true;
  is_locked = true;
  keeps_lock = true;
  listeners = n;
  keeps_listener = false;
  socket_info = none;
  world = w;
}

-- listenStaged opens one listener, with its socket at the staged name, or leaves none open.
data Listened (w : World) : Result ℕ × Held → Type 0 where
  none_open : (e : Error) (v : World) → Listened w (err e, owner 0 v)
  one_open : (inode : ℕ) → Listened w (ok inode, owner 1 (set_at staged (some inode) w))

listen_from-Listened :
    (n : ℕ) (attempt : ℕ → Attempt) (w : World) → Listened w (listen_from n attempt (owner 0 w))
unfolding listen_from listen close_listener remove_staged
listen_from-Listened zero attempt w = none_open _ w
listen_from-Listened (suc n) attempt w =
    elim (attempt n)
      as (λ a. Listened w (elim a [
        | no_random e ↦ (err e, owner 0 w)
        | name_taken ↦ listen_from n attempt (owner 0 w)
        | refused e ↦ (err e, owner 0 w)
        | not_unix inode ↦ (
          err (text (codes "listener is not a unix listener")),
          remove_staged (close_listener (listen inode (owner 0 w))),
        )
        | lost inode e ↦ (err e, remove_staged (close_listener (listen inode (owner 0 w))))
        | listening inode ↦ (ok inode, listen inode (owner 0 w))
      ])) [
        | no_random e ↦ none_open e w
        | name_taken ↦ listen_from-Listened n attempt w
        | refused e ↦ none_open e w
        | not_unix inode ↦ none_open _ _
        | lost inode e ↦ none_open e _
        | listening inode ↦ one_open inode
      ]

installed-Settled :
    (stale inode : ℕ) (v : World) (c : Call)
    → Ended stale inode c
    → Settled (installed inode (owner 1 v) c)
unfolding installed Ended release_lock close_lock_file close_listener remove_staged
installed-Settled stale inode v (some x, w) h = withdrawn _ refl refl refl refl refl refl
installed-Settled stale inode v (none, w) h = elim (h.1) [
  | inl failed ↦ absurd (ground arith)
  | inr published ↦ running inode refl refl refl refl refl refl refl published
]

install_staged_socket-Settled :
    (stale : Option ℕ) (inode : ℕ) (at_public : Option ℕ) (turns : List Turn)
    → Settled (
        installed inode
          (owner 1 (start at_public (some inode) turns))
          (install_staged_socket stale (start at_public (some inode) turns)))
install_staged_socket-Settled none inode at_public turns =
    unfold install_staged_socket in
    installed-Settled 0 inode (start at_public (some inode) turns)
      (publish (start at_public (some inode) turns))
      (publish-Ended 0 inode [] none (unfold is_safe in refl) (unfold is_kept in refl)
        (start at_public (some inode) turns) (record { history = refl; held = refl; ready = refl }))
install_staged_socket-Settled (some stale) inode at_public turns =
    installed-Settled stale inode (start at_public (some inode) turns)
      (install_staged_socket (some stale) (start at_public (some inode) turns))
      (install_staged_socket-Ended stale inode at_public turns)

module _ (s : Surroundings) (at_public : Option ℕ) (turns : List Turn) where
  publish_listener-Settled :
      (stale : Option ℕ) (inode : ℕ)
      → Settled (publish_listener s stale inode (owner 1 (start at_public (some inode) turns)))
  unfolding publish_listener release_lock close_lock_file close_listener remove_staged
  publish_listener-Settled stale inode =
      let c = owner 1 (start at_public (some inode) turns) in
      elim (s.chmod)
        as (λ o. Settled (elim o [
          | some e ↦ (
            some (wrapped (codes "control socket: chmod") e),
            release_lock (remove_staged (close_listener c)),
          )
          | none ↦ installed inode c (install_staged_socket stale c.world)
        ])) [
          | some e ↦ withdrawn _ refl refl refl refl refl refl
          | none ↦ install_staged_socket-Settled stale inode at_public turns
        ]

  listened-Settled :
      (stale : Option ℕ) {r : Result ℕ × Held}
      → Listened (start at_public none turns) r
      → Settled (listened s stale r)
  unfolding listened release_lock close_lock_file
  listened-Settled stale (none_open e v) = withdrawn _ refl refl refl refl refl refl
  listened-Settled stale (one_open inode) = publish_listener-Settled stale inode

  start_locked-Settled : Settled (start_locked s (owner 0 (start at_public none turns)))
  unfolding start_locked listen_staged release_lock close_lock_file
  start_locked-Settled =
      let c = owner 0 (start at_public none turns) in
      elim (prepare_path s.inspected s.dialed)
        as (λ o. Settled (elim o [
          | err e ↦ (some e, release_lock c)
          | ok stale ↦ listened s stale (listen_staged s.attempt c)
        ])) [
          | err e ↦ withdrawn _ refl refl refl refl refl refl
          | ok stale ↦
              listened-Settled stale (listen_from-Listened 8 s.attempt (start at_public none turns))
        ]

  -- With the lock file open.
  abbrev opened : Held
  opened = record (nothing_held (start at_public none turns)) { is_lock_open = true }

  after_lock-Settled : Settled (after_lock s opened)
  unfolding after_lock close_lock_file nothing_held
  after_lock-Settled =
      elim (s.lock)
        as (λ l. Settled (elim l [
          | lock_busy ↦ (
            some (text (codes "control socket is already owned by another daemon")),
            close_lock_file opened,
          )
          | lock_failed e ↦
              (some (wrapped (codes "control socket: locking") e), close_lock_file opened)
          | lock_taken ↦ start_locked s (record opened { is_locked = true; keeps_lock = true })
        ])) [
          | lock_busy ↦ withdrawn _ refl refl refl refl refl refl
          | lock_failed e ↦ withdrawn _ refl refl refl refl refl refl
          | lock_taken ↦ start_locked-Settled
        ]

-- Whatever Start meets, and whatever other processes do to the public path while it publishes its socket, it
-- returns an error with its lock file closed, the lock given up and every listener that it opened closed, or it
-- returns none, with the lock file open, locked and kept, and one listener open and kept, and it knows the inode
-- of its socket and has linked that socket to the public path.
pub start-Settled :
    (s : Surroundings) (at_public : Option ℕ) (turns : List Turn)
    → Settled (Start.start s (nothing_held (start at_public none turns)))
unfolding Start.start unsafe nothing_held
start-Settled s at_public turns =
    elim (unsafe s)
      as (λ o. Settled (elim o [
        | some e ↦ (some e, nothing_held (start at_public none turns))
        | none ↦ after_lock s (opened s at_public turns)
      ])) [
        | some e ↦ withdrawn _ refl refl refl refl refl refl
        | none ↦ after_lock-Settled s at_public turns
      ]
