-- ===== src/Pathnorm/Windows/Wsl.antt =====
-- A path of the distribution in Windows syntax and back.
use portolan.Prelude.{
  Bool, true, false, not, ◌&&◌, none, some, [], ◌∷◌, ◌++◌, map, Bytes, codes, is_empty, all_of, ◌≡◌,
  refl, sym, ◌∙◌, ap, arith,
}
use portolan.Context.{ok, err}
use portolan.Text.Segments.{join_slash, split_slash, slashed, no_slash}
use portolan.Text.Segments.Clean.{all_of-append, split_slash-append, split_slash-no_slash}
use portolan.Pathnorm.{
  Host, is_unc_path, not_nul, to_slash, to_backslash, backslash, canonical_posix,
  canonical_wsl_path, canonical_segments, canonicalize, wsl_error,
}
use portolan.Pathnorm.Mount.{slashed-split_slash}
use portolan.Pathnorm.Canonical.{IsCanonical, canonical_posix_self}
use portolan.Pathnorm.Windows.Drive.{
  not_backslash, is_plain, map-to_slash-to_backslash, join_slash-split_slash,
  map-to_backslash_no_nul,
}

plain-no_nul : (s : Bytes) → all_of is_plain s ≡ true → all_of not_nul s ≡ true
plain-no_nul [] h = refl
plain-no_nul (b ∷ s) h = ground (arith, plain-no_nul s)

plain-no_slash : (s : Bytes) → all_of is_plain s ≡ true → all_of no_slash s ≡ true
plain-no_slash [] h = refl
plain-no_slash (b ∷ s) h = ground (arith, plain-no_slash s)

map-to_slash-append :
    (s p : Bytes)
    → all_of is_plain s ≡ true
    → all_of not_backslash p ≡ true
    → map to_slash (s ++ map to_backslash p) ≡ s ++ p
map-to_slash-append [] p h k = map-to_slash-to_backslash p k
map-to_slash-append (b ∷ s) p h k = ground (arith, map-to_slash-append s p)

-- The segments of a path of this distribution.
split_slash-wsl :
    (distro t : Bytes)
    → all_of is_plain distro ≡ true
    → split_slash (codes "wsl.localhost" ++ (b'/' ∷ (distro ++ (b'/' ∷ t))))
      ≡ codes "wsl.localhost" ∷ distro ∷ split_slash t
split_slash-wsl distro t h =
    ap (λ r. split_slash (codes "wsl.localhost" ++ (b'/' ∷ (distro ++ r))))
      (sym (slashed-split_slash t))
    ∙ (unfold slashed in
        split_slash-append (codes "wsl.localhost") (distro ∷ split_slash t) refl
          (rw (plain-no_slash distro h) (split_slash-no_slash t)))

and_false : (b : Bool) → b && false ≡ false
and_false true = refl
and_false false = refl

wsl_error-distro :
    (h : Host)
    → ((s : Bytes) → h.equal_fold s s ≡ true)
    → is_empty h.distro_name ≡ false
    → wsl_error h (codes "wsl.localhost") h.distro_name ≡ none
unfolding wsl_error
wsl_error-distro h same some_distro =
    rw
      (
        same (codes "wsl.localhost"),
        same h.distro_name,
        some_distro,
        and_false (not (h.equal_fold (codes "wsl.localhost") (codes "wsl$"))),
      )
      refl

canonical_wsl_path-distro :
    (h : Host) (t : Bytes)
    → ((s : Bytes) → h.equal_fold s s ≡ true)
    → is_empty h.distro_name ≡ false
    → IsCanonical (b'/' ∷ t)
    → canonical_wsl_path h (codes "wsl.localhost") h.distro_name (split_slash t) ≡ ok (b'/' ∷ t)
unfolding canonical_wsl_path
canonical_wsl_path-distro h t same some_distro c =
    ap (λ o. elim o [ some x ↦ err x | none ↦ canonical_posix (b'/' ∷ join_slash (split_slash t)) ])
      (wsl_error-distro h same some_distro)
    ∙ ap (λ r. canonical_posix (b'/' ∷ r)) (join_slash-split_slash t)
    ∙ canonical_posix_self (b'/' ∷ t) c

canonical_segments-wsl :
    (h : Host) (t : Bytes)
    → ((s : Bytes) → h.equal_fold s s ≡ true)
    → is_empty h.distro_name ≡ false
    → IsCanonical (b'/' ∷ t)
    → canonical_segments h (codes "wsl.localhost" ∷ h.distro_name ∷ split_slash t) ≡ ok (b'/' ∷ t)
unfolding canonical_segments
canonical_segments-wsl h t same some_distro c =
    rw some_distro (canonical_wsl_path-distro h t same some_distro c)

-- A path of this distribution, in Windows syntax and back.
pub canonicalize-wsl :
    (h : Host) (t : Bytes)
    → ((s : Bytes) → h.equal_fold s s ≡ true)
    → is_empty h.distro_name ≡ false
    → all_of is_plain h.distro_name ≡ true
    → IsCanonical (b'/' ∷ t)
    → all_of not_backslash (b'/' ∷ t) ≡ true
    → canonicalize h (
        (backslash ∷ backslash ∷ codes "wsl.localhost")
        ++ (backslash ∷ (h.distro_name ++ map to_backslash (b'/' ∷ t))))
      ≡ ok (b'/' ∷ t)
unfolding canonicalize is_unc_path
canonicalize-wsl h t same some_distro plain c b =
    rw
      (
        all_of-append not_nul h.distro_name (map to_backslash (b'/' ∷ t))
            (plain-no_nul h.distro_name plain) (map-to_backslash_no_nul (b'/' ∷ t) c.no_nul),
        map-to_slash-append h.distro_name (b'/' ∷ t) plain b,
      )
      (ap (canonical_segments h) (split_slash-wsl h.distro_name t plain)
        ∙ canonical_segments-wsl h t same some_distro c)
