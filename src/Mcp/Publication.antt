-- ===== src/Mcp/Publication.antt =====
-- internal/mcp/control_publication.go: how the control socket's path is published and taken back while
-- other processes may change what stands there. Each system call is one step, in front of which another
-- process may have changed the public path; the staged name and the quarantine are private. A call fails
-- as the file system decides. An inode's number is its identity (os.SameFile).
pub mod Calls
pub mod Removal
pub mod Installation
use portolan.Prelude.{
  ℕ, Bool, true, false, not, ◌&&◌, ◌||◌, Option, none, some, List, [], ◌∷◌, ◌==◌, if◌then◌else◌,
}

pub data Name : Type 0 where
  public staged quarantine : Name

-- The errors that the code tells apart.
pub data Errno : Type 0 where
  not_exist already_exists other_error : Errno

pub data Action : Type 0 where
  moved : ℕ → Action
  linked : ℕ → Name → Action
  unlinked : Name → ℕ → Action

-- What happens around one system call: what another process left at the public path, if it touched it, and
-- whether the call fails.
pub record Turn : Type 0 where
  pub replaced : Option (Option ℕ)
  pub failure : Option Errno

-- The inodes at the three names, what the process did so far, its last action first, and what is to come:
-- without a turn, nobody interferes and the call does not fail.
pub record World : Type 0 where
  pub at_public : Option ℕ
  pub at_staged : Option ℕ
  pub at_quarantine : Option ℕ
  pub log : List Action
  pub turns : List Turn

abbrev pub at : Name → World → Option ℕ
at public w = w.at_public
at staged w = w.at_staged
at quarantine w = w.at_quarantine

abbrev pub set_at : Name → Option ℕ → World → World
set_at public o w = record w { at_public = o }
set_at staged o w = record w { at_staged = o }
set_at quarantine o w = record w { at_quarantine = o }

abbrev pub note : Action → World → World
note a w = record w { log = a ∷ w.log }

-- The other processes go first.
unfoldable pub interfere : World → Option Errno × World
interfere w = elim (w.turns) [
  | [] ↦ (none, w)
  | t ∷ ts ↦ (
    t.failure,
    record w { at_public = elim (t.replaced) [ none ↦ w.at_public | some o ↦ o ]; turns = ts },
  )
]

abbrev pub Call : Type 0
Call = Option Errno × World

-- A call that does not fail of itself.
abbrev pub attempt : (World → Call) → World → Call
attempt f w = let (e, v) = interfere w in elim e [ some x ↦ (some x, v) | none ↦ f v ]

-- `os.MkdirTemp` and the removal of the empty directory do not touch the three names.
unfoldable pub make_dir : World → Call
make_dir = attempt (λ w. (none, w))

-- `os.Rename(publicPath, quarantine)`.
unfoldable pub rename : World → Call
rename = attempt (λ w. elim (w.at_public) [
  | none ↦ (some not_exist, w)
  | some n ↦ (none, note (moved n) (record w { at_public = none; at_quarantine = some n }))
])

-- `os.Link`, which does not replace what is there.
unfoldable pub link : Name → Name → World → Call
link a b = attempt (λ w. elim (at a w) [
  | none ↦ (some not_exist, w)
  | some n ↦ elim (at b w) [
    | some m ↦ (some already_exists, w)
    | none ↦ (none, note (linked n b) (set_at b (some n) w))
  ]
])

-- `os.Remove`.
unfoldable pub remove : Name → World → Call
remove a = attempt (λ w. elim (at a w) [
  | none ↦ (some not_exist, w)
  | some n ↦ (none, note (unlinked a n) (set_at a none w))
])

-- `os.Lstat(quarantine)`, with os.SameFile: whether it succeeded and found the inode.
unfoldable pub is_same_file : ℕ → World → Bool × Call
is_same_file inode w =
    let (e, v) = interfere w in
    elim e [
      | some x ↦ (false, (some x, v))
      | none ↦ elim (v.at_quarantine) [
        | none ↦ (false, (some not_exist, v))
        | some n ↦ (n == inode, (none, v))
      ]
    ]

unfoldable pub restore_path_no_replace : World → Call
restore_path_no_replace w =
    let (e, v) = link quarantine public w in
    elim e [ some x ↦ (some x, v) | none ↦ remove quarantine v ]

-- `removeOwnedSocket` behind the rename.
unfoldable pub settle_quarantine : ℕ → World → World
settle_quarantine owned w =
    let (same, (e, v)) = is_same_file owned w in
    if same then (remove quarantine v).1 else (restore_path_no_replace v).1

unfoldable pub remove_owned_socket : ℕ → World → World
remove_owned_socket owned w =
    let (e, v) = make_dir w in
    elim e [
      | some x ↦ v
      | none ↦ let (f, u) = rename v in elim f [ some x ↦ u | none ↦ settle_quarantine owned u ]
    ]

-- The end of `installStagedSocket`.
unfoldable pub publish : World → Call
publish w =
    let (e, v) = link staged public w in
    elim e [
      | some x ↦ (some x, v)
      | none ↦
          let (f, u) = remove staged v in
          elim f [ some x ↦ (some x, (remove public u).1) | none ↦ (none, u) ]
    ]

-- `installStagedSocket` behind the rename: only the stale inode is removed.
unfoldable pub drop_stale : ℕ → World → Call
drop_stale stale w =
    let (same, (e, v)) = is_same_file stale w in
    if same
    then (let (f, u) = remove quarantine v in elim f [ some x ↦ (some x, u) | none ↦ publish u ])
    else (some other_error, (restore_path_no_replace v).1)

-- `installStagedSocket` from the rename on: a path that is gone needs no removal.
unfoldable pub replace_stale : ℕ → Call → Call
replace_stale stale (none, w) = drop_stale stale w
replace_stale stale (some not_exist, w) = publish w
replace_stale stale (some x, w) = (some x, w)

unfoldable pub install_staged_socket : Option ℕ → World → Call
unfolding replace_stale
install_staged_socket none w = publish w
install_staged_socket (some stale) w =
    let (e, v) = make_dir w in
    elim e [ some x ↦ (some x, v) | none ↦ replace_stale stale (rename v) ]
