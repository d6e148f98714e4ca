-- ===== src/Pathnorm/Windows.antt =====
-- A path written in Windows syntax keeps its identity.
mod Drive
mod Wsl
use portolan.Prelude.{
  ℕ, Bool, true, false, not, ◌&&◌, none, some, List, [], ◌∷◌, ◌++◌, map, Bytes, codes, ◌==◌,
  is_empty, all_of, ◌≡◌, refl, sym, ◌∙◌, ap, subst, arith, Bool-cases, inl, inr,
}
use portolan.Context.{ok, err}
use portolan.Text.Segments.{
  join_slash, prepend, split_slash, slashed, rooted, clean_rooted, is_proper, no_slash,
}
use portolan.Text.Segments.Clean.{
  all_of-append, clean_rooted-rooted, split_slash-append, split_slash-no_slash,
}
use portolan.Pathnorm.{
  Host, is_ascii_letter, to_lower, to_upper, is_drive_letter_path, is_unc_path, not_nul, to_slash,
  to_backslash, backslash, trim_slashes, trim_slash, starts_with_slash, split_mount_drive, mount,
  mounted, canonical_posix, below_drive, canonical_wsl_path, canonical_segments, canonicalize,
  wsl_error, windows_path, no_backslash, wsl_to_windows,
}
use portolan.Pathnorm.Mount.{
  slashed-split_slash, is_rest, below, IsClean-below, split_mount_drive-eq_some, to_lower_letter,
}
use portolan.Pathnorm.Canonical.{
  IsCanonical, IsClean-Begins, canonical_posix_self, canonicalize-IsCanonical,
}
use portolan.Pathnorm.Windows.Drive.{
  not_backslash, is_plain, map-to_slash-to_backslash, join_slash-split_slash,
  map-to_backslash_no_nul, mount-rest, canonicalize-drive,
}
use portolan.Pathnorm.Windows.Wsl.{canonicalize-wsl}

-- A mounted path, with what makes its drive and its rest canonical.
windows_path-mounted :
    (h : Host) (q w : Bytes) (d : ℕ) (r : Bytes)
    → IsCanonical q
    → all_of not_backslash q ≡ true
    → split_mount_drive q ≡ some (d, r)
    → windows_path h q (some (d, r)) ≡ ok w
    → canonicalize h w ≡ ok q
unfolding windows_path
windows_path-mounted h q w d r c b s e =
    let m = split_mount_drive-eq_some q d r s in
    let l = to_lower_letter m.drive m.letter in
    let letter : is_ascii_letter d ≡ true = rw m.lowered l.0 in
    let v : to_lower d ≡ d = ap to_lower m.lowered ∙ l.1 ∙ sym m.lowered in
    let proper =
      IsClean-below c.clean.segments m.drive r m.letter m.rest c.clean.proper
        (sym m.is_path ∙ c.clean.is_rooted) in
    let path : mount d r ≡ q = unfold mounted in sym (ap (mounted q) s) ∙ c.lower in
    let n =
      mount-rest not_nul m.drive r (subst (λ x. all_of not_nul x ≡ true) m.is_path c.no_nul) in
    let k =
      mount-rest not_backslash m.drive r (subst (λ x. all_of not_backslash x ≡ true) m.is_path b) in
    let windows : to_upper d ∷ b':' ∷ backslash ∷ map to_backslash (trim_slash r) ≡ w =
      ground arith in
    subst (λ x. canonicalize h x ≡ ok q) windows
      (canonicalize-drive h d r letter v m.rest proper n k ∙ ap (λ (x : Bytes). ok x) path)

windows_path-rooted :
    (h : Host) (t w : Bytes)
    → ((s : Bytes) → h.equal_fold s s ≡ true)
    → all_of is_plain h.distro_name ≡ true
    → IsCanonical (b'/' ∷ t)
    → all_of not_backslash (b'/' ∷ t) ≡ true
    → windows_path h (b'/' ∷ t) none ≡ ok w
    → canonicalize h w ≡ ok (b'/' ∷ t)
unfolding windows_path
windows_path-rooted h t w same plain c b e = elim (Bool-cases (is_empty h.distro_name)) [
  | inl no_distro ↦ absurd (ground arith)
  | inr some_distro ↦
      let windows : (backslash ∷ backslash ∷ codes "wsl.localhost")
            ++ (backslash ∷ (h.distro_name ++ map to_backslash (b'/' ∷ t)))
          ≡ w =
        ground arith in
      subst (λ x. canonicalize h x ≡ ok (b'/' ∷ t)) windows
        (canonicalize-wsl h t same some_distro plain c b)
]

windows_path-canonical :
    (h : Host) (q w : Bytes)
    → ((s : Bytes) → h.equal_fold s s ≡ true)
    → all_of is_plain h.distro_name ≡ true
    → IsCanonical q
    → all_of not_backslash q ≡ true
    → windows_path h q none ≡ ok w
    → canonicalize h w ≡ ok q
unfolding starts_with_slash
windows_path-canonical h [] w same plain c b e =
    absurd (ground (arith, (IsClean-Begins [] c.clean).some_byte))
windows_path-canonical h (a ∷ t) w same plain c b e =
    let slash : b'/' ≡ a = let begin = (IsClean-Begins (a ∷ t) c.clean).slash in ground arith in
    subst
      (λ q.
        IsCanonical q
        → all_of not_backslash q ≡ true
        → windows_path h q none ≡ ok w
        → canonicalize h w ≡ ok q)
      (ap (λ x. x ∷ t) slash) (windows_path-rooted h t w same plain) c b e

no_backslash-canonical :
    (h : Host) (q w : Bytes)
    → ((s : Bytes) → h.equal_fold s s ≡ true)
    → all_of is_plain h.distro_name ≡ true
    → IsCanonical q
    → no_backslash h q ≡ ok w
    → canonicalize h w ≡ ok q
unfolding no_backslash
no_backslash-canonical h q w same plain c e = elim (Bool-cases (all_of not_backslash q)) [
  | inr back ↦ absurd (ground arith)
  | inl none_back ↦
      elim (split_mount_drive q)
          as (λ o. split_mount_drive q ≡ o → windows_path h q o ≡ ok w → canonicalize h w ≡ ok q) [
            | some (d, r) ↦ windows_path-mounted h q w d r c none_back
            | none ↦ λ s. windows_path-canonical h q w same plain c none_back
          ]
        refl (ground arith)
]

-- Where EqualFold is reflexive and the distribution's name has no slash, backslash or NUL, the path that
-- WSLToWindows gives has the same canonical identity as the path it is given.
pub wsl_to_windows-canonicalize :
    (h : Host) (p w : Bytes)
    → ((s : Bytes) → h.equal_fold s s ≡ true)
    → all_of is_plain h.distro_name ≡ true
    → wsl_to_windows h p ≡ ok w
    → canonicalize h w ≡ canonicalize h p
unfolding wsl_to_windows
wsl_to_windows-canonicalize h p w same plain =
    elim (canonicalize h p)
        as (λ o.
          canonicalize h p ≡ o
          → elim o [ ok q ↦ no_backslash h q | err x ↦ err x ] ≡ ok w
          → canonicalize h w ≡ o) [
            | ok q ↦
                λ s e. no_backslash-canonical h q w same plain (canonicalize-IsCanonical h p q s) e
            | err x ↦ λ s e. absurd (ground arith)
          ]
      refl
