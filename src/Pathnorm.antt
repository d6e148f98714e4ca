-- ===== src/Pathnorm.antt =====
-- internal/pathnorm/pathnorm.go: the canonical identity of a host path. The environment is a parameter:
-- WSL_DISTRO_NAME, and strings.EqualFold, whose tables of letters are not modelled. A path is rooted
-- wherever path.Clean gets it.
pub mod Canonical
pub mod Mount
pub mod Uri
pub mod Windows
use portolan.Prelude.{
  ℕ, ◌+◌, ◌-◌, Bool, true, false, not, ◌&&◌, ◌||◌, Option, none, some, List, [], ◌∷◌, ◌++◌, map,
  Bytes, codes, leb, ◌==◌, is_empty, all_of, if◌then◌else◌,
}
use portolan.Context.{Error, text, Result, ok, err}
use portolan.Text.Segments.{split_slash, clean_rooted, clean, join_slash}

pub record Host : Type 0 where
  pub distro_name : Bytes
  pub equal_fold : Bytes → Bytes → Bool

abbrev pub backslash : ℕ
backslash = 92

unfoldable pub is_ascii_letter : ℕ → Bool
is_ascii_letter b = (leb b'a' b && leb b b'z') || (leb b'A' b && leb b b'Z')

-- `strings.ToLower` and `strings.ToUpper` of one ASCII letter.
unfoldable pub to_lower : ℕ → ℕ
to_lower b = if leb b'A' b && leb b b'Z' then b + 32 else b

unfoldable pub to_upper : ℕ → ℕ
to_upper b = if leb b'a' b && leb b b'z' then b - 32 else b

is_separator : ℕ → Bool
is_separator b = b == backslash || b == b'/'

unfoldable pub is_drive_letter_path : Bytes → Bool
unfolding is_ascii_letter is_separator
is_drive_letter_path (d ∷ c ∷ []) = is_ascii_letter d && c == b':'
is_drive_letter_path (d ∷ c ∷ s ∷ _) = (is_ascii_letter d && c == b':') && is_separator s
is_drive_letter_path _ = false

unfoldable pub is_unc_path : Bytes → Bool
is_unc_path (a ∷ b ∷ _) = a == backslash && b == backslash
is_unc_path _ = false

is_windows_path : Bytes → Bool
unfolding is_drive_letter_path is_unc_path
is_windows_path p = is_drive_letter_path p || is_unc_path p

abbrev not_nul : ℕ → Bool
not_nul b = not (b == 0)

-- `strings.ReplaceAll(s, "\\", "/")`, and the other way round.
abbrev pub to_slash : ℕ → ℕ
to_slash b = if b == backslash then b'/' else b

abbrev to_backslash : ℕ → ℕ
to_backslash b = if b == b'/' then backslash else b

-- `strings.TrimLeft(s, "/")`.
unfoldable pub trim_slashes : Bytes → Bytes
trim_slashes [] = []
trim_slashes (b ∷ bs) = let rest = trim_slashes bs in if b == b'/' then rest else b ∷ bs

unfoldable pub starts_with_slash : Bytes → Bool
starts_with_slash [] = false
starts_with_slash (b ∷ _) = b == b'/'

unfoldable pub starts_with_two_slashes : Bytes → Bool
starts_with_two_slashes (a ∷ b ∷ _) = a == b'/' && b == b'/'
starts_with_two_slashes _ = false

-- What stands behind `/mnt/`.
abbrev below_mnt : Bytes → Option Bytes
below_mnt (a ∷ b ∷ c ∷ d ∷ e ∷ rem) =
    if (a == b'/' && b == b'm') && ((c == b'n' && d == b't') && e == b'/') then some rem else none
below_mnt _ = none

-- The drive, in lower case, and the rest.
split_drive : Bytes → Option (ℕ × Bytes)
split_drive [] = none
split_drive (d ∷ []) = if is_ascii_letter d then some (to_lower d, []) else none
split_drive (d ∷ s ∷ rest) =
    if is_ascii_letter d && s == b'/' then some (to_lower d, s ∷ rest) else none

unfoldable pub split_mount_drive : Bytes → Option (ℕ × Bytes)
unfolding split_drive is_ascii_letter to_lower
split_mount_drive p = elim (below_mnt p) [ none ↦ none | some rem ↦ split_drive rem ]

unfoldable pub mount : ℕ → Bytes → Bytes
mount drive rest = b'/' ∷ b'm' ∷ b'n' ∷ b't' ∷ b'/' ∷ drive ∷ rest

unfoldable pub mounted : Bytes → Option (ℕ × Bytes) → Bytes
unfolding mount
mounted cleaned (some (drive, rest)) = mount drive rest
mounted cleaned none = cleaned

unfoldable pub canonical_posix : Bytes → Result Bytes
unfolding starts_with_two_slashes mounted
canonical_posix p =
    if not (all_of not_nul p)
    then err (text (codes "pathnorm: path contains NUL"))
    else if starts_with_two_slashes p
    then err (text (codes "pathnorm: unsupported network path"))
    else ok (mounted (clean_rooted p) (split_mount_drive (clean_rooted p)))

-- What `Canonicalize` puts behind the drive: nothing for the root.
unfoldable pub below_drive : Bytes → Bytes
below_drive (b ∷ []) = []
below_drive p = p

-- The last branch of `Canonicalize`.
canonical_drive : Bytes → Result Bytes
unfolding below_drive mount trim_slashes
canonical_drive (d ∷ c ∷ s ∷ rest) = ok (
    mount (to_lower d) (below_drive (clean_rooted (b'/' ∷ trim_slashes (map to_slash (s ∷ rest))))))
canonical_drive _ = err (text (codes "pathnorm: bare drive"))

-- `strings.TrimPrefix(s, "/")`.
unfoldable pub trim_slash : Bytes → Bytes
trim_slash [] = []
trim_slash (b ∷ bs) = if b == b'/' then bs else b ∷ bs

module _ (h : Host) where
  -- `currentDistro` and the checks of `canonicalWSLPath` in front of it.
  wsl_error : Bytes → Bytes → Option Error
  wsl_error server distro =
      if not (h.equal_fold server (codes "wsl$"))
        && not (h.equal_fold server (codes "wsl.localhost"))
      then some (text (codes "pathnorm: unsupported network path"))
      else if is_empty distro
      then some (text (codes "pathnorm: malformed WSL path: missing distro"))
      else if is_empty h.distro_name
      then some (text (codes "pathnorm: cannot represent path because WSL_DISTRO_NAME is unset"))
      else if not (h.equal_fold distro h.distro_name)
      then some (text (codes "pathnorm: distro does not match current distro"))
      else none

  unfoldable pub canonical_wsl_path : Bytes → Bytes → List Bytes → Result Bytes
  unfolding wsl_error canonical_posix
  canonical_wsl_path server distro rest = elim (wsl_error server distro) [
    | some e ↦ err e
    | none ↦ canonical_posix (b'/' ∷ join_slash rest)
  ]

  canonical_segments : List Bytes → Result Bytes
  unfolding canonical_wsl_path
  canonical_segments (server ∷ distro ∷ rest) =
      if is_empty server || is_empty distro
      then err (text (codes "pathnorm: malformed UNC path"))
      else canonical_wsl_path server distro rest
  canonical_segments _ = err (text (codes "pathnorm: malformed UNC path"))

  unfoldable pub canonical_unc : Bytes → Result Bytes
  unfolding canonical_segments is_separator
  canonical_unc (a ∷ b ∷ c ∷ tail) =
      if is_separator c
      then err (text (codes "pathnorm: malformed UNC path"))
      else canonical_segments (split_slash (map to_slash (c ∷ tail)))
  canonical_unc _ = err (text (codes "pathnorm: malformed UNC path"))

  unfoldable pub canonicalize : Bytes → Result Bytes
  unfolding canonical_unc canonical_posix canonical_drive starts_with_slash
  canonicalize p =
      if is_empty p
      then err (text (codes "pathnorm: empty path"))
      else if not (all_of not_nul p)
      then err (text (codes "pathnorm: path contains NUL"))
      else if is_unc_path p
      then canonical_unc p
      else if starts_with_slash p
      then canonical_posix p
      else if is_drive_letter_path p
      then canonical_drive p
      else err (text (codes "pathnorm: not an absolute host path"))

  -- `Normalize`, which is kept for the callers that take no error.
  unfoldable pub normalize : Bytes → Bytes
  normalize p = elim (canonicalize p) [
    | ok canonical ↦ canonical
    | err e ↦ if is_empty p then [] else clean (map to_slash p)
  ]

  windows_path : Bytes → Option (ℕ × Bytes) → Result Bytes
  windows_path host_path (some (drive, rest)) =
      ok (to_upper drive ∷ b':' ∷ backslash ∷ map to_backslash (trim_slash rest))
  windows_path host_path none =
      if is_empty h.distro_name
      then err (text (codes "pathnorm: cannot represent path because WSL_DISTRO_NAME is unset"))
      else ok (
          (backslash ∷ backslash ∷ codes "wsl.localhost")
          ++ (backslash ∷ (h.distro_name ++ map to_backslash host_path)))

  no_backslash : Bytes → Result Bytes
  unfolding windows_path
  no_backslash host_path =
      if all_of (λ b. not (b == backslash)) host_path
      then windows_path host_path (split_mount_drive host_path)
      else err (text (codes "pathnorm: cannot represent POSIX backslash in Windows path"))

  unfoldable pub wsl_to_windows : Bytes → Result Bytes
  unfolding no_backslash
  wsl_to_windows p = elim (canonicalize p) [ ok host_path ↦ no_backslash host_path | err e ↦ err e ]
