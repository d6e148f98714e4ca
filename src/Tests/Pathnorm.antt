-- ===== src/Tests/Pathnorm.antt =====
-- A drive in Windows syntax, a path of the distribution, and a POSIX path that begins like a drive.
use portolan.Prelude.{
  ℕ, Bool, true, false, [], ◌∷◌, ◌++◌, map, drop, Bytes, codes, equal, equal_refl, ◌==◌, ==_iff,
  is_empty, if◌then◌else◌, ◌≡◌, refl, sym, ap, ◌∙◌, arith, Bool-cases, inl, inr,
}
use portolan.Context.{Result, ok}
use portolan.Text.Segments.{clean, clean_rooted, slashed}
use portolan.Pathnorm.{
  Host, backslash, is_ascii_letter, to_lower, is_drive_letter_path, is_unc_path, split_mount_drive,
  canonicalize, normalize, wsl_to_windows,
}
use portolan.Pathnorm.Canonical.{canonicalize_idem}
use portolan.Pathnorm.Windows.{wsl_to_windows-canonicalize}
use portolan.Pathnorm.Uri.{
  Url, UrlPackage, file_url, has_drive_uri_path, escape_colon, uri_to_path, path_to_uri,
  raw_path_of,
}
use portolan.Pathnorm.Uri.RoundTrip.{FoldLaws, UrlLaws, path_to_uri-uri_to_path}

abbrev ubuntu : Host
ubuntu = record {
  distro_name = codes "Ubuntu";
  equal_fold = λ a b. equal (map to_lower a) (map to_lower b);
}

abbrev drive_file : Bytes
drive_file = codes "C:" ++ (backslash ∷ codes "src" ++ (backslash ∷ codes "../a.ts"))

canonicalize-drive_file : canonicalize ubuntu drive_file ≡ ok (codes "/mnt/c/a.ts")
unfolding canonicalize is_drive_letter_path is_unc_path equal to_lower clean_rooted slashed
canonicalize-drive_file = refl

canonicalize_idem_example : canonicalize ubuntu (codes "/mnt/c/a.ts") ≡ ok (codes "/mnt/c/a.ts")
canonicalize_idem_example =
    canonicalize_idem ubuntu ubuntu drive_file (codes "/mnt/c/a.ts") canonicalize-drive_file

abbrev wsl_file : Bytes
wsl_file =
    (backslash ∷ backslash ∷ codes "wsl.localhost")
    ++ (backslash ∷ codes "Ubuntu" ++ (backslash ∷ codes "home"))

wsl_to_windows-home : wsl_to_windows ubuntu (codes "/./home/") ≡ ok wsl_file
unfolding wsl_to_windows is_unc_path canonicalize equal split_mount_drive clean_rooted slashed
wsl_to_windows-home = refl

normalize-relative : normalize ubuntu (codes "a/../../b") ≡ codes "../b"
unfolding normalize canonicalize is_unc_path is_drive_letter_path clean equal
normalize-relative = refl

ubuntu_same : (s : Bytes) → ubuntu.equal_fold s s ≡ true
ubuntu_same s = equal_refl (map to_lower s)

wsl_to_windows-canonicalize_example :
    canonicalize ubuntu wsl_file ≡ canonicalize ubuntu (codes "/./home/")
wsl_to_windows-canonicalize_example =
    wsl_to_windows-canonicalize ubuntu (codes "/./home/") wsl_file ubuntu_same refl
      wsl_to_windows-home

ubuntu-FoldLaws : FoldLaws ubuntu
unfolding to_lower equal
ubuntu-FoldLaws = record { same = ubuntu_same; colon = refl; wsl = refl; wsl_localhost = refl }

-- A small net/url: only a percent sign is escaped.
escape : Bytes → Bytes
escape [] = []
escape (b ∷ bs) = if b == b'%' then b'%' ∷ b'2' ∷ b'5' ∷ escape bs else b ∷ escape bs

unescape : Bytes → Bytes
unescape [] = []
unescape (b ∷ []) = b ∷ []
unescape (b ∷ c ∷ []) = b ∷ c ∷ []
unescape (b ∷ c ∷ d ∷ bs) =
    let tail = unescape bs in
    let rest = unescape (c ∷ d ∷ bs) in
    if b == b'%' then (if c == b'2' then b'%' ∷ tail else b':' ∷ tail) else b ∷ rest

parse_file : Bytes → Result Url
parse_file s =
    let r = drop 7 s in ok (file_url (unescape r) (if equal (escape (unescape r)) r then [] else r))

abbrev small : UrlPackage
small = record {
  parse = parse_file;
  to_string = λ u. codes "file://" ++ (if is_empty u.raw_path then escape u.path else u.raw_path);
  escaped_path = λ u. escape u.path;
}

unescape-cons : (b : ℕ) (r : Bytes) → b == b'%' ≡ false → unescape (b ∷ r) ≡ b ∷ unescape r
unfolding unescape
unescape-cons b [] h = refl
unescape-cons b (c ∷ []) h = refl
unescape-cons b (c ∷ d ∷ r) h = rw h refl

unescape-escape : (q : Bytes) → unescape (escape q) ≡ q
unfolding escape unescape
unescape-escape [] = refl
unescape-escape (b ∷ bs) = elim (Bool-cases (b == b'%')) [
  | inl percent ↦
      rw (percent, unescape-escape bs) (ap (λ x. x ∷ bs) (sym ((==_iff b b'%').0 percent)))
  | inr other ↦ rw (other, unescape-cons b (escape bs) other, unescape-escape bs) refl
]

escape_prefix :
    (a b c : ℕ) (t : Bytes)
    → has_drive_uri_path (a ∷ b ∷ c ∷ t) ≡ true
    → escape (a ∷ b ∷ c ∷ t) ≡ a ∷ b ∷ c ∷ escape t
unfolding escape has_drive_uri_path is_ascii_letter
escape_prefix a b c t h = ground arith

read_plain : (q : Bytes) → parse_file (codes "file://" ++ escape q) ≡ ok (file_url q [])
unfolding parse_file
read_plain q = rw (unescape-escape q, equal_refl (escape q)) refl

unescape_colon :
    (a b : ℕ) (t : Bytes)
    → a == b'%' ≡ false
    → b == b'%' ≡ false
    → unescape (a ∷ b ∷ b'%' ∷ b'3' ∷ b'A' ∷ escape t) ≡ a ∷ b ∷ b':' ∷ t
unescape_colon a b t h k =
    unescape-cons a (b ∷ b'%' ∷ b'3' ∷ b'A' ∷ escape t) h
    ∙ ap (λ r. a ∷ r) (unescape-cons b (b'%' ∷ b'3' ∷ b'A' ∷ escape t) k)
    ∙ ap (λ r. a ∷ b ∷ r) (unfold unescape in ap (λ r. b':' ∷ r) (unescape-escape t))

record IsDrivePath (a b c : ℕ) : Type 0 where
  first : a == b'%' ≡ false
  second : b == b'%' ≡ false
  third : b':' ≡ c

drive-IsDrivePath :
    (a b c : ℕ) (t : Bytes) → has_drive_uri_path (a ∷ b ∷ c ∷ t) ≡ true → IsDrivePath a b c
unfolding has_drive_uri_path is_ascii_letter
drive-IsDrivePath a b c t h = record {
  first = ground arith;
  second = ground arith;
  third = ground arith;
}

colon_percent : (a b : ℕ) (x y : Bytes) → equal (a ∷ b ∷ b':' ∷ x) (a ∷ b ∷ b'%' ∷ y) ≡ false
unfolding equal
colon_percent a b x y = ground arith

read_colon_at :
    (a b : ℕ) (t : Bytes)
    → a == b'%' ≡ false
    → b == b'%' ≡ false
    → parse_file (codes "file://" ++ (a ∷ b ∷ b'%' ∷ b'3' ∷ b'A' ∷ escape t))
      ≡ ok (file_url (a ∷ b ∷ b':' ∷ t) (a ∷ b ∷ b'%' ∷ b'3' ∷ b'A' ∷ escape t))
unfolding parse_file
read_colon_at a b t h k =
    let raw = a ∷ b ∷ b'%' ∷ b'3' ∷ b'A' ∷ escape t in
    let e : escape (a ∷ b ∷ b':' ∷ t) ≡ a ∷ b ∷ b':' ∷ escape t = unfold escape in rw (h, k) refl in
    ap (λ p. ok (file_url p (if equal (escape p) raw then [] else raw))) (unescape_colon a b t h k)
    ∙ ap (λ (x : Bool). ok (file_url (a ∷ b ∷ b':' ∷ t) (if x then [] else raw)))
        (ap (λ p. equal p raw) e ∙ colon_percent a b (escape t) (b'3' ∷ b'A' ∷ escape t))

read_colon :
    (q : Bytes)
    → has_drive_uri_path q ≡ true
    → parse_file (small.to_string (file_url q (escape_colon (escape q))))
      ≡ ok (file_url q (escape_colon (escape q)))
unfolding escape_colon has_drive_uri_path file_url
read_colon [] h = absurd (ground arith)
read_colon (a ∷ []) h = absurd (ground arith)
read_colon (a ∷ b ∷ []) h = absurd (ground arith)
read_colon (a ∷ b ∷ c ∷ t) h =
    let d = drive-IsDrivePath a b c t h in
    rw (escape_prefix a b c t h, sym d.third) (read_colon_at a b t d.first d.second)

small-UrlLaws : UrlLaws small
small-UrlLaws = record {
  drive_unescaped = λ a b c t h. (escape t, unfold file_url in escape_prefix a b c t h);
  read_back = λ q s h. unfold file_url in read_plain q;
  read_escaped = λ q h. unfold file_url in read_colon q h;
}

abbrev colon_uri : Bytes
colon_uri = codes "file:///c%3A/a%25"

path_to_uri-colon : path_to_uri ubuntu small (codes "/c:/a%") ≡ ok colon_uri
unfolding path_to_uri canonicalize is_unc_path equal split_mount_drive clean_rooted slashed
    raw_path_of escape file_url
path_to_uri-colon = refl

path_to_uri-uri_to_path_example :
    uri_to_path ubuntu small colon_uri ≡ canonicalize ubuntu (codes "/c:/a%")
path_to_uri-uri_to_path_example =
    path_to_uri-uri_to_path ubuntu small (codes "/c:/a%") colon_uri ubuntu-FoldLaws small-UrlLaws
      path_to_uri-colon
