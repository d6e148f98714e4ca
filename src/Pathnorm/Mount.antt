-- ===== src/Pathnorm/Mount.antt =====
-- The paths of mounted drives: how they split, and that they are clean.
use portolan.Prelude.{
  ℕ, Bool, true, some, List, [], ◌∷◌, ◌++◌, Bytes, codes, equal, ◌==◌, all_of, ◌≡◌, refl, sym, ◌∙◌,
  ap, arith,
}
use portolan.Text.Segments.{split_slash, slashed, rooted, is_proper}
use portolan.Text.Segments.Clean.{IsClean, split_slash-slashed, split_slash-append, proper-no_slash}
use portolan.Pathnorm.{is_ascii_letter, to_lower, split_mount_drive, mount, below_drive}

-- The segments behind a drive.
abbrev pub below : Bytes → List Bytes
below [] = []
below (b ∷ t) = split_slash t

-- Nothing, or a path behind a slash.
abbrev pub is_rest : Bytes → Bool
is_rest [] = true
is_rest (b ∷ t) = b == b'/'

split_slash-mount :
    (d : ℕ) (r : Bytes)
    → is_ascii_letter d ≡ true
    → is_rest r ≡ true
    → split_slash (mount d r) ≡ [] ∷ codes "mnt" ∷ (d ∷ []) ∷ below r
unfolding split_slash mount is_ascii_letter
split_slash-mount d [] h k = ground arith
split_slash-mount d (b ∷ t) h k = ground arith

pub slashed-split_slash : (t : Bytes) → slashed (split_slash t) ≡ b'/' ∷ t
unfolding slashed split_slash
slashed-split_slash [] = refl
slashed-split_slash (b ∷ t) = ground (arith, slashed-split_slash t)

slashed-below : (r : Bytes) → is_rest r ≡ true → slashed (below r) ≡ r
unfolding slashed
slashed-below [] h = refl
slashed-below (b ∷ t) h = ground (arith, slashed-split_slash t)

pub to_lower_letter :
    (d : ℕ)
    → is_ascii_letter d ≡ true
    → (is_ascii_letter (to_lower d) ≡ true) × (to_lower (to_lower d) ≡ to_lower d)
unfolding is_ascii_letter to_lower
to_lower_letter d h = ground arith

-- The segments of a mounted drive.
pub mount-IsClean :
    (d : ℕ) (r : Bytes)
    → is_ascii_letter d ≡ true
    → is_rest r ≡ true
    → all_of is_proper (below r) ≡ true
    → IsClean (mount d r)
unfolding mount rooted slashed is_ascii_letter equal
mount-IsClean d r h k v = record {
  segments = codes "mnt" ∷ (d ∷ []) ∷ below r;
  proper = ground arith;
  is_rooted = ap (λ t. b'/' ∷ b'm' ∷ b'n' ∷ b't' ∷ b'/' ∷ d ∷ t) (sym (slashed-below r k));
}

pub IsClean-below :
    (ss : List Bytes) (d : ℕ) (r : Bytes)
    → is_ascii_letter d ≡ true
    → is_rest r ≡ true
    → all_of is_proper ss ≡ true
    → mount d r ≡ rooted ss
    → all_of is_proper (below r) ≡ true
IsClean-below [] d r h k v e = absurd (unfold mount rooted in cc)
IsClean-below (s ∷ ss) d r h k v e =
    let a : split_slash (rooted (s ∷ ss)) ≡ [] ∷ s ∷ ss =
      unfold rooted in split_slash-slashed s ss v in
    let b : [] ∷ codes "mnt" ∷ (d ∷ []) ∷ below r ≡ [] ∷ s ∷ ss =
      sym (split_slash-mount d r h k) ∙ ap split_slash e ∙ a in
    ground arith

pub split_mount_drive-mount :
    (d : ℕ) (r : Bytes)
    → is_ascii_letter d ≡ true
    → is_rest r ≡ true
    → split_mount_drive (mount d r) ≡ some (to_lower d, r)
unfolding split_mount_drive mount
split_mount_drive-mount d [] h k = ground arith
split_mount_drive-mount d (b ∷ t) h k = ground arith

-- A path that splits is a mounted drive.
pub record IsMounted (c : Bytes) (d : ℕ) (r : Bytes) : Type 0 where
  pub drive : ℕ
  pub letter : is_ascii_letter drive ≡ true
  pub lowered : d ≡ to_lower drive
  pub is_path : c ≡ mount drive r
  pub rest : is_rest r ≡ true

pub split_mount_drive-eq_some :
    (c : Bytes) (d : ℕ) (r : Bytes) → split_mount_drive c ≡ some (d, r) → IsMounted c d r
unfolding split_mount_drive mount
split_mount_drive-eq_some [] d r h = absurd (ground arith)
split_mount_drive-eq_some (a ∷ []) d r h = absurd (ground arith)
split_mount_drive-eq_some (a ∷ b ∷ []) d r h = absurd (ground arith)
split_mount_drive-eq_some (a ∷ b ∷ c ∷ []) d r h = absurd (ground arith)
split_mount_drive-eq_some (a ∷ b ∷ c ∷ e ∷ []) d r h = absurd (ground arith)
split_mount_drive-eq_some (a ∷ b ∷ c ∷ e ∷ f ∷ []) d r h = absurd (ground arith)
split_mount_drive-eq_some (a ∷ b ∷ c ∷ e ∷ f ∷ x ∷ []) d r h = record {
  drive = x;
  letter = ground arith;
  lowered = ground arith;
  is_path = ground arith;
  rest = ground arith;
}
split_mount_drive-eq_some (a ∷ b ∷ c ∷ e ∷ f ∷ x ∷ y ∷ t) d r h = record {
  drive = x;
  letter = ground arith;
  lowered = ground arith;
  is_path = ground arith;
  rest = ground arith;
}

-- A drive path: the clean path below the drive.
pub below_drive-rest :
    (ss : List Bytes)
    → all_of is_proper ss ≡ true
    → (is_rest (below_drive (rooted ss)) ≡ true)
      × (all_of is_proper (below (below_drive (rooted ss))) ≡ true)
unfolding rooted slashed below_drive
below_drive-rest [] h = (refl, refl)
below_drive-rest ([] ∷ ss) h = absurd (ground arith)
below_drive-rest ((b ∷ bs) ∷ ss) h =
    let k = proper-no_slash ((b ∷ bs) ∷ ss) h in
    let e : split_slash (b ∷ (bs ++ slashed ss)) ≡ (b ∷ bs) ∷ ss =
      unfold slashed in split_slash-append (b ∷ bs) ss (ground arith) (ground arith) in
    (refl, rw e h)
