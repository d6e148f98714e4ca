-- ===== src/Pathnorm/Canonical.antt =====
-- What `Canonicalize` gives is canonical, and a canonical path is its own identity.
use portolan.Prelude.{
  ℕ, Bool, true, false, Option, none, some, List, [], ◌∷◌, map, Bytes, is_empty, all_of, ◌≡◌, refl,
  sym, ◌∙◌, ap, subst, arith, Bool-cases, inl, inr,
}
use portolan.Context.{ok, err}
use portolan.Text.Segments.{join_slash, split_slash, slashed, rooted, clean_rooted, is_proper}
use portolan.Text.Segments.Clean.{
  IsClean, IsClean-clean_rooted, clean_rooted-IsClean, clean_rooted-all,
}
use portolan.Pathnorm.{
  Host, is_ascii_letter, to_lower, is_drive_letter_path, is_unc_path, not_nul, to_slash,
  trim_slashes, starts_with_slash, starts_with_two_slashes, split_mount_drive, mount, mounted,
  canonical_posix, below_drive, canonical_drive, canonical_wsl_path, canonical_segments,
  canonical_unc, canonicalize, wsl_error,
}
use portolan.Pathnorm.Mount.{
  is_rest, below, to_lower_letter, mount-IsClean, IsClean-below, split_mount_drive-mount,
  split_mount_drive-eq_some, below_drive-rest,
}

-- A clean, rooted path without NUL, whose drive, if it is mounted as one, is in lower case.
pub record IsCanonical (q : Bytes) : Type 0 where
  pub clean : IsClean q
  pub no_nul : all_of not_nul q ≡ true
  pub lower : mounted q (split_mount_drive q) ≡ q

-- How a clean path begins.
pub record Begins (q : Bytes) : Type 0 where
  pub some_byte : is_empty q ≡ false
  pub slash : starts_with_slash q ≡ true
  pub one_slash : starts_with_two_slashes q ≡ false
  pub not_unc : is_unc_path q ≡ false

begins : (ss : List Bytes) → all_of is_proper ss ≡ true → Begins (rooted ss)
unfolding rooted slashed starts_with_slash starts_with_two_slashes is_unc_path
begins [] h = ground arith
begins ([] ∷ ss) h = ground arith
begins ((b ∷ bs) ∷ ss) h = ground arith

pub IsClean-Begins : (q : Bytes) → IsClean q → Begins q
IsClean-Begins q c = subst Begins (sym c.is_rooted) (begins c.segments c.proper)

pub canonical_posix_self : (q : Bytes) → IsCanonical q → canonical_posix q ≡ ok q
unfolding canonical_posix
canonical_posix_self q c =
    let b = IsClean-Begins q c.clean in
    rw (c.no_nul, b.one_slash, IsClean-clean_rooted q c.clean) (ap (λ (t : Bytes). ok t) c.lower)

-- A canonical path is its own identity.
pub canonicalize_self : (h : Host) (q : Bytes) → IsCanonical q → canonicalize h q ≡ ok q
unfolding canonicalize
canonicalize_self h q c =
    let b = IsClean-Begins q c.clean in
    rw (b.some_byte, c.no_nul, b.not_unc, b.slash, b.one_slash, IsClean-clean_rooted q c.clean)
      (ap (λ (t : Bytes). ok t) c.lower)

mount-not_nul :
    (x d : ℕ) (r : Bytes)
    → is_ascii_letter d ≡ true
    → all_of not_nul (mount x r) ≡ true
    → all_of not_nul (mount d r) ≡ true
unfolding mount is_ascii_letter
mount-not_nul x d r h n = ground arith

mounted-IsCanonical :
    (c : Bytes) (o : Option (ℕ × Bytes))
    → IsClean c
    → all_of not_nul c ≡ true
    → split_mount_drive c ≡ o
    → IsCanonical (mounted c o)
unfolding mounted
mounted-IsCanonical c none v n e = record { clean = v; no_nul = n; lower = rw e refl }
mounted-IsCanonical c (some (d, r)) v n e =
    let m = split_mount_drive-eq_some c d r e in
    let l = to_lower_letter m.drive m.letter in
    let letter : is_ascii_letter d ≡ true = rw m.lowered l.0 in
    let proper =
      IsClean-below v.segments m.drive r m.letter m.rest v.proper (sym m.is_path ∙ v.is_rooted) in
    record {
      clean = mount-IsClean d r letter m.rest proper;
      no_nul = mount-not_nul m.drive d r letter (subst (λ p. all_of not_nul p ≡ true) m.is_path n);
      lower =
          ap (mounted (mount d r)) (split_mount_drive-mount d r letter m.rest)
          ∙ ap (λ k. mount k r) (ap to_lower m.lowered ∙ l.1 ∙ sym m.lowered);
    }

canonical_posix-IsCanonical : (p q : Bytes) → canonical_posix p ≡ ok q → IsCanonical q
unfolding canonical_posix
canonical_posix-IsCanonical p q h = elim (Bool-cases (all_of not_nul p)) [
  | inr nul ↦ absurd (ground arith)
  | inl fine ↦ elim (Bool-cases (starts_with_two_slashes p)) [
    | inl network ↦ absurd (ground arith)
    | inr local ↦
        let c = clean_rooted p in
        let e : mounted c (split_mount_drive c) ≡ q = ground arith in
        subst IsCanonical e (
          mounted-IsCanonical c (split_mount_drive c) (clean_rooted-IsClean p)
            (clean_rooted-all not_nul p refl fine) refl)
  ]
]

trim_slashes-all : (q : ℕ → Bool) (p : Bytes) → all_of q p ≡ true → all_of q (trim_slashes p) ≡ true
unfolding trim_slashes
trim_slashes-all q [] h = refl
trim_slashes-all q (b ∷ bs) h = ground (arith, trim_slashes-all q bs)

map-to_slash_no_nul : (p : Bytes) → all_of not_nul p ≡ true → all_of not_nul (map to_slash p) ≡ true
map-to_slash_no_nul [] h = refl
map-to_slash_no_nul (b ∷ bs) h = ground (arith, map-to_slash_no_nul bs)

below_drive-no_nul : (p : Bytes) → all_of not_nul p ≡ true → all_of not_nul (below_drive p) ≡ true
unfolding below_drive
below_drive-no_nul [] h = refl
below_drive-no_nul (b ∷ []) h = refl
below_drive-no_nul (b ∷ c ∷ p) h = h

mount-no_nul :
    (d : ℕ) (r : Bytes)
    → is_ascii_letter d ≡ true
    → all_of not_nul r ≡ true
    → all_of not_nul (mount d r) ≡ true
unfolding mount is_ascii_letter
mount-no_nul d r h n = ground arith

mount-IsCanonical :
    (d : ℕ) (p : Bytes)
    → is_ascii_letter d ≡ true
    → all_of not_nul p ≡ true
    → IsCanonical (mount (to_lower d) (below_drive (clean_rooted p)))
mount-IsCanonical d p h n =
    let c = clean_rooted-IsClean p in
    let r = below_drive (clean_rooted p) in
    let l = to_lower_letter d h in
    let below_root = below_drive-rest c.segments c.proper in
    let k : is_rest r ≡ true = rw c.is_rooted below_root.0 in
    let v : all_of is_proper (below r) ≡ true = rw c.is_rooted below_root.1 in
    record {
      clean = mount-IsClean (to_lower d) r l.0 k v;
      no_nul =
          mount-no_nul (to_lower d) r l.0
            (below_drive-no_nul (clean_rooted p) (clean_rooted-all not_nul p refl n));
      lower =
          unfold mounted in
          ap (mounted (mount (to_lower d) r)) (split_mount_drive-mount (to_lower d) r l.0 k)
          ∙ ap (λ x. mount x r) l.1;
    }

canonical_drive-IsCanonical :
    (p q : Bytes)
    → is_drive_letter_path p ≡ true
    → all_of not_nul p ≡ true
    → canonical_drive p ≡ ok q
    → IsCanonical q
unfolding canonical_drive is_drive_letter_path
canonical_drive-IsCanonical [] q d n h = absurd (ground arith)
canonical_drive-IsCanonical (a ∷ []) q d n h = absurd (ground arith)
canonical_drive-IsCanonical (a ∷ b ∷ []) q d n h = absurd (ground arith)
canonical_drive-IsCanonical (a ∷ b ∷ c ∷ t) q d n h =
    let p = b'/' ∷ trim_slashes (map to_slash (c ∷ t)) in
    let fine : all_of not_nul p ≡ true =
      trim_slashes-all not_nul (map to_slash (c ∷ t))
        (map-to_slash_no_nul (c ∷ t) (ground arith)) in
    let e : mount (to_lower a) (below_drive (clean_rooted p)) ≡ q = ground arith in
    subst IsCanonical e (mount-IsCanonical a p (ground arith) fine)

canonical_wsl_path-IsCanonical :
    (h : Host) (server distro : Bytes) (rest : List Bytes) (q : Bytes)
    → canonical_wsl_path h server distro rest ≡ ok q
    → IsCanonical q
unfolding canonical_wsl_path
canonical_wsl_path-IsCanonical h server distro rest q =
    elim (wsl_error h server distro)
      as (λ o.
        elim o [ some x ↦ err x | none ↦ canonical_posix (b'/' ∷ join_slash rest) ] ≡ ok q
        → IsCanonical q) [
          | some x ↦ λ e. absurd (ground arith)
          | none ↦ λ e. canonical_posix-IsCanonical (b'/' ∷ join_slash rest) q e
        ]

canonical_segments-IsCanonical :
    (h : Host) (ss : List Bytes) (q : Bytes) → canonical_segments h ss ≡ ok q → IsCanonical q
unfolding canonical_segments
canonical_segments-IsCanonical h [] q e = absurd (ground arith)
canonical_segments-IsCanonical h (s ∷ []) q e = absurd (ground arith)
canonical_segments-IsCanonical h (s ∷ t ∷ rest) q e =
    canonical_wsl_path-IsCanonical h s t rest q (ground arith)

canonical_unc-IsCanonical : (h : Host) (p q : Bytes) → canonical_unc h p ≡ ok q → IsCanonical q
unfolding canonical_unc
canonical_unc-IsCanonical h [] q e = absurd (ground arith)
canonical_unc-IsCanonical h (a ∷ []) q e = absurd (ground arith)
canonical_unc-IsCanonical h (a ∷ b ∷ []) q e = absurd (ground arith)
canonical_unc-IsCanonical h (a ∷ b ∷ c ∷ t) q e =
    canonical_segments-IsCanonical h (split_slash (map to_slash (c ∷ t))) q (ground arith)

-- What Canonicalize gives for any spelling of a path is canonical.
pub canonicalize-IsCanonical : (h : Host) (p q : Bytes) → canonicalize h p ≡ ok q → IsCanonical q
unfolding canonicalize
canonicalize-IsCanonical h p q e = elim (Bool-cases (is_unc_path p)) [
  | inl unc ↦ canonical_unc-IsCanonical h p q (ground arith)
  | inr not_unc ↦ elim (Bool-cases (starts_with_slash p)) [
    | inl slash ↦ canonical_posix-IsCanonical p q (ground arith)
    | inr no_start ↦ canonical_drive-IsCanonical p q (ground arith) (ground arith) (ground arith)
  ]
]

-- Canonicalize is idempotent: what it gives for a path, it gives for itself too, on any host.
pub canonicalize_idem :
    (g h : Host) (p q : Bytes) → canonicalize h p ≡ ok q → canonicalize g q ≡ ok q
canonicalize_idem g h p q e = canonicalize_self g q (canonicalize-IsCanonical h p q e)
