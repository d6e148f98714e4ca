-- ===== src/Pathnorm/Windows/Drive.antt =====
-- A mounted drive in Windows syntax and back.
use portolan.Prelude.{
  ℕ, Bool, true, false, not, ◌&&◌, List, [], ◌∷◌, map, Bytes, ◌==◌, is_empty, all_of, ◌≡◌, refl,
  sym, ◌∙◌, ap, arith,
}
use portolan.Context.{ok}
use portolan.Text.Segments.{
  join_slash, prepend, split_slash, slashed, rooted, clean_rooted, is_proper, no_slash,
}
use portolan.Text.Segments.Clean.{clean_rooted-rooted}
use portolan.Pathnorm.{
  Host, is_ascii_letter, to_lower, to_upper, is_drive_letter_path, is_unc_path, not_nul, to_slash,
  to_backslash, backslash, trim_slashes, trim_slash, mount, below_drive, canonicalize,
}
use portolan.Pathnorm.Mount.{slashed-split_slash, is_rest, below}

abbrev pub not_backslash : ℕ → Bool
not_backslash b = not (b == backslash)

-- A byte of a distribution's name.
abbrev pub is_plain : ℕ → Bool
is_plain b = (not_nul b && no_slash b) && not_backslash b

pub map-to_slash-to_backslash :
    (p : Bytes) → all_of not_backslash p ≡ true → map to_slash (map to_backslash p) ≡ p
map-to_slash-to_backslash [] h = refl
map-to_slash-to_backslash (b ∷ bs) h = ground (arith, map-to_slash-to_backslash bs)

join_slash-prepend : (b : ℕ) (ss : List Bytes) → join_slash (prepend b ss) ≡ b ∷ join_slash ss
unfolding join_slash prepend
join_slash-prepend b [] = refl
join_slash-prepend b (s ∷ []) = refl
join_slash-prepend b (s ∷ t ∷ ts) = refl

split_slash-is_empty : (p : Bytes) → is_empty (split_slash p) ≡ false
unfolding split_slash prepend
split_slash-is_empty [] = refl
split_slash-is_empty (b ∷ bs) = ground (arith, split_slash-is_empty bs)

join_slash-slash :
    (ss : List Bytes) → is_empty ss ≡ false → join_slash ([] ∷ ss) ≡ b'/' ∷ join_slash ss
unfolding join_slash
join_slash-slash [] h = absurd (ground arith)
join_slash-slash (s ∷ ss) h = refl

pub join_slash-split_slash : (p : Bytes) → join_slash (split_slash p) ≡ p
unfolding split_slash
join_slash-split_slash [] = unfold join_slash in refl
join_slash-split_slash (b ∷ bs) = ground (
  arith,
  join_slash-split_slash bs,
  join_slash-prepend b (split_slash bs),
  join_slash-slash (split_slash bs) (split_slash-is_empty bs),
)

rooted-slashed : (ss : List Bytes) → is_empty ss ≡ false → rooted ss ≡ slashed ss
unfolding rooted
rooted-slashed [] h = absurd (ground arith)
rooted-slashed (s ∷ ss) h = refl

clean_rooted-below :
    (c : ℕ) (t : Bytes)
    → all_of is_proper (split_slash (c ∷ t)) ≡ true
    → clean_rooted (b'/' ∷ c ∷ t) ≡ b'/' ∷ c ∷ t
clean_rooted-below c t k =
    let e : rooted (split_slash (c ∷ t)) ≡ b'/' ∷ c ∷ t =
      rooted-slashed (split_slash (c ∷ t)) (split_slash-is_empty (c ∷ t))
      ∙ slashed-split_slash (c ∷ t) in
    ap clean_rooted (sym e) ∙ clean_rooted-rooted (split_slash (c ∷ t)) k ∙ e

-- A rest of a mounted drive, behind a drive letter again.
below_drive-trim_slashes :
    (r : Bytes)
    → is_rest r ≡ true
    → all_of is_proper (below r) ≡ true
    → below_drive (clean_rooted (b'/' ∷ trim_slashes (b'/' ∷ trim_slash r))) ≡ r
unfolding below_drive trim_slashes trim_slash split_slash
below_drive-trim_slashes [] h k = unfold clean_rooted in refl
below_drive-trim_slashes (b ∷ []) h k = absurd (ground arith)
below_drive-trim_slashes (b ∷ c ∷ t) h k = let e = clean_rooted-below c t k in ground arith

pub map-to_backslash_no_nul :
    (p : Bytes) → all_of not_nul p ≡ true → all_of not_nul (map to_backslash p) ≡ true
map-to_backslash_no_nul [] h = refl
map-to_backslash_no_nul (b ∷ bs) h = ground (arith, map-to_backslash_no_nul bs)

trim_slash-all : (f : ℕ → Bool) (p : Bytes) → all_of f p ≡ true → all_of f (trim_slash p) ≡ true
unfolding trim_slash
trim_slash-all f [] h = refl
trim_slash-all f (b ∷ bs) h = ground arith

-- A drive's letter, in upper case.
record IsDrive (d : ℕ) : Type 0 where
  upper_letter : is_ascii_letter (to_upper d) ≡ true
  not_slash : to_upper d == b'/' ≡ false
  not_back : to_upper d == backslash ≡ false
  some_letter : not_nul (to_upper d) ≡ true
  lowered : to_lower (to_upper d) ≡ d

letter-IsDrive : (d : ℕ) → is_ascii_letter d ≡ true → to_lower d ≡ d → IsDrive d
unfolding is_ascii_letter to_upper to_lower
letter-IsDrive d l v = record {
  upper_letter = ground arith;
  not_slash = ground arith;
  not_back = ground arith;
  some_letter = ground arith;
  lowered = ground arith;
}

-- A mounted drive, in Windows syntax and back.
pub mount-rest :
    (f : ℕ → Bool) (d : ℕ) (r : Bytes) → all_of f (mount d r) ≡ true → all_of f r ≡ true
unfolding mount
mount-rest f d r h = ground arith

pub canonicalize-drive :
    (h : Host) (d : ℕ) (r : Bytes)
    → is_ascii_letter d ≡ true
    → to_lower d ≡ d
    → is_rest r ≡ true
    → all_of is_proper (below r) ≡ true
    → all_of not_nul r ≡ true
    → all_of not_backslash r ≡ true
    → canonicalize h (to_upper d ∷ b':' ∷ backslash ∷ map to_backslash (trim_slash r))
      ≡ ok (mount d r)
unfolding canonicalize is_unc_path is_drive_letter_path
canonicalize-drive h d r l v k p n b =
    let i = letter-IsDrive d l v in
    rw
      (
        i.some_letter,
        map-to_backslash_no_nul (trim_slash r) (trim_slash-all not_nul r n),
        i.not_slash,
        i.not_back,
        i.upper_letter,
        i.lowered,
        map-to_slash-to_backslash (trim_slash r) (trim_slash-all not_backslash r b),
        below_drive-trim_slashes r k p,
      )
      refl
