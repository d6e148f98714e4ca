-- ===== src/Pathnorm/Uri/RoundTrip.antt =====
-- The file URI of a path leads back to its identity, with a drive letter in the path too.
use portolan.Prelude.{
  ℕ, true, false, [], ◌∷◌, Bytes, codes, is_empty, ◌≡◌, refl, ◌∙◌, ap, subst, arith, Bool-cases,
  inl, inr,
}
use portolan.Context.{wrapped, ok, err}
use portolan.Pathnorm.{Host, is_ascii_letter, starts_with_slash, canonicalize}
use portolan.Pathnorm.Canonical.{
  IsCanonical, IsClean-Begins, canonicalize_self, canonicalize-IsCanonical,
}
use portolan.Pathnorm.Uri.{
  Url, UrlPackage, file_url, has_drive_uri_path, escape_colon, is_escaped_colon,
  has_escaped_drive_colon, drive_path, url_to_path, uri_to_path, raw_path_of, path_to_uri,
}

-- What is used of strings.EqualFold: it ignores the case of letters, and tells unlike names apart.
pub record FoldLaws (h : Host) : Type 0 where
  pub same : (s : Bytes) → h.equal_fold s s ≡ true
  pub colon : h.equal_fold (codes "%3A") (codes "%3a") ≡ true
  pub wsl : h.equal_fold [] (codes "wsl$") ≡ false
  pub wsl_localhost : h.equal_fold [] (codes "wsl.localhost") ≡ false

-- What is used of net/url: neither a slash nor a letter nor a colon in a path is escaped, and the URL of a
-- path, or of one whose colon is escaped, is read back as it was written.
pub record UrlLaws (p : UrlPackage) : Type 0 where
  pub drive_unescaped :
      (a b c : ℕ) (t : Bytes)
      → has_drive_uri_path (a ∷ b ∷ c ∷ t) ≡ true
      → (r : Bytes) × (p.escaped_path (file_url (a ∷ b ∷ c ∷ t) []) ≡ a ∷ b ∷ c ∷ r)
  pub read_back :
      (q : Bytes)
      → starts_with_slash q ≡ true
      → has_drive_uri_path q ≡ false
      → p.parse (p.to_string (file_url q [])) ≡ ok (file_url q [])
  pub read_escaped :
      (q : Bytes)
      → has_drive_uri_path q ≡ true
      → p.parse (p.to_string (file_url q (escape_colon (p.escaped_path (file_url q [])))))
        ≡ ok (file_url q (escape_colon (p.escaped_path (file_url q []))))

-- An escaped colon is seen.
has_escaped_drive_colon-escape_colon :
    (h : Host) (a b c : ℕ) (r : Bytes)
    → FoldLaws h
    → has_drive_uri_path (a ∷ b ∷ c ∷ r) ≡ true
    → has_escaped_drive_colon h (escape_colon (a ∷ b ∷ c ∷ r)) ≡ true
unfolding has_escaped_drive_colon escape_colon has_drive_uri_path is_escaped_colon is_ascii_letter
has_escaped_drive_colon-escape_colon h a b c r l d = let colon = l.colon in ground arith

drive_path-escape_colon :
    (h : Host) (p : UrlPackage) (q : Bytes)
    → FoldLaws h
    → UrlLaws p
    → has_drive_uri_path q ≡ true
    → drive_path h (file_url q (escape_colon (p.escaped_path (file_url q [])))) ≡ q
unfolding drive_path file_url has_drive_uri_path
drive_path-escape_colon h p [] l k d = absurd (ground arith)
drive_path-escape_colon h p (a ∷ []) l k d = absurd (ground arith)
drive_path-escape_colon h p (a ∷ b ∷ []) l k d = absurd (ground arith)
drive_path-escape_colon h p (a ∷ b ∷ c ∷ t) l k d =
    let (r, escaped) = k.drive_unescaped a b c t d in
    let seen : has_escaped_drive_colon h
          (escape_colon (p.escaped_path (file_url (a ∷ b ∷ c ∷ t) [])))
        ≡ true =
      ap (λ e. has_escaped_drive_colon h (escape_colon e)) escaped
      ∙ has_escaped_drive_colon-escape_colon h a b c r l d in
    rw (d, seen) refl

drive_path-plain :
    (h : Host) (q raw : Bytes) → has_drive_uri_path q ≡ false → drive_path h (file_url q raw) ≡ q
unfolding drive_path file_url
drive_path-plain h q raw d = rw d refl

-- A URL of a file is its path.
url_to_path-file_url :
    (h : Host) (q raw : Bytes)
    → FoldLaws h
    → is_empty q ≡ false
    → drive_path h (file_url q raw) ≡ q
    → url_to_path h (file_url q raw) ≡ canonicalize h q
unfolding url_to_path file_url
url_to_path-file_url h q raw l e d =
    rw (l.same (codes "file"), l.wsl, l.wsl_localhost, e) (ap (canonicalize h) d)

read_url :
    (h : Host) (p : UrlPackage) (uri : Bytes) (u : Url)
    → p.parse uri ≡ ok u
    → uri_to_path h p uri ≡ url_to_path h u
unfolding uri_to_path
read_url h p uri u e =
    ap
      (λ o. elim o [
        | err x ↦ err (wrapped (codes "pathnorm: invalid URI") x)
        | ok v ↦ url_to_path h v
      ])
      e

uri_to_path-file_url :
    (h : Host) (p : UrlPackage) (q : Bytes)
    → FoldLaws h
    → UrlLaws p
    → IsCanonical q
    → uri_to_path h p (p.to_string (file_url q (raw_path_of h p q))) ≡ ok q
unfolding raw_path_of
uri_to_path-file_url h p q l k c = elim (Bool-cases (has_drive_uri_path q)) [
  | inl drive ↦
      let some_path = (IsClean-Begins q c.clean).some_byte in
      let raw = escape_colon (p.escaped_path (file_url q [])) in
      let read : uri_to_path h p (p.to_string (file_url q raw)) ≡ ok q =
        read_url h p (p.to_string (file_url q raw)) (file_url q raw) (k.read_escaped q drive)
        ∙ url_to_path-file_url h q raw l some_path (drive_path-escape_colon h p q l k drive)
        ∙ canonicalize_self h q c in
      ap (λ (x : Bytes). uri_to_path h p (p.to_string (file_url q x))) (rw drive refl) ∙ read
  | inr plain ↦
      let begin = IsClean-Begins q c.clean in
      let read : uri_to_path h p (p.to_string (file_url q [])) ≡ ok q =
        read_url h p (p.to_string (file_url q [])) (file_url q []) (k.read_back q begin.slash plain)
        ∙ url_to_path-file_url h q [] l begin.some_byte (drive_path-plain h q [] plain)
        ∙ canonicalize_self h q c in
      ap (λ (x : Bytes). uri_to_path h p (p.to_string (file_url q x))) (rw plain refl) ∙ read
]

-- Where EqualFold and net/url keep to what is documented of them, the URI that PathToURI gives for a path
-- leads URIToPath to the canonical identity of that path.
pub path_to_uri-uri_to_path :
    (h : Host) (p : UrlPackage) (host uri : Bytes)
    → FoldLaws h
    → UrlLaws p
    → path_to_uri h p host ≡ ok uri
    → uri_to_path h p uri ≡ canonicalize h host
unfolding path_to_uri
path_to_uri-uri_to_path h p host uri l k =
    elim (canonicalize h host)
        as (λ o.
          canonicalize h host ≡ o
          → elim o [ err e ↦ err e | ok q ↦ ok (p.to_string (file_url q (raw_path_of h p q))) ]
            ≡ ok uri
          → uri_to_path h p uri ≡ o) [
            | err x ↦ λ s e. absurd (ground arith)
            | ok q ↦ λ s e.
                subst (λ x. uri_to_path h p x ≡ ok q) (ground arith)
                  (uri_to_path-file_url h p q l k (canonicalize-IsCanonical h host q s))
          ]
      refl
