-- ===== src/Pathnorm/Uri.antt =====
-- internal/pathnorm/pathnorm.go: file URIs. net/url is a parameter: the fields of a parsed URL, Parse,
-- String and EscapedPath.
pub mod RoundTrip
use portolan.Prelude.{
  ℕ, ◌+◌, ◌-◌, ◌*◌, Bool, true, false, not, ◌&&◌, ◌||◌, Option, none, some, List, [], ◌∷◌, Bytes,
  codes, leb, ◌==◌, is_empty, if◌then◌else◌,
}
use portolan.Context.{Error, text, wrapped, Result, ok, err}
use portolan.Text.Segments.{split_slash}
use portolan.Pathnorm.{Host, is_ascii_letter, trim_slash, canonical_wsl_path, canonicalize}

-- What the code reads of a `url.URL`.
pub record Url : Type 0 where
  pub scheme : Bytes
  pub opaque : Bytes
  pub has_user : Bool
  pub host : Bytes
  pub path : Bytes
  pub raw_path : Bytes
  pub raw_query : Bytes
  pub fragment : Bytes

pub record UrlPackage : Type 0 where
  pub parse : Bytes → Result Url
  pub to_string : Url → Bytes
  pub escaped_path : Url → Bytes

unfoldable pub file_url : Bytes → Bytes → Url
file_url p raw = record {
  scheme = codes "file";
  opaque = [];
  has_user = false;
  host = [];
  path = p;
  raw_path = raw;
  raw_query = [];
  fragment = [];
}

unfoldable pub has_drive_uri_path : Bytes → Bool
unfolding is_ascii_letter
has_drive_uri_path (a ∷ b ∷ c ∷ _) = (a == b'/' && is_ascii_letter b) && c == b':'
has_drive_uri_path _ = false

-- `escaped[:2] + "%3A" + escaped[3:]`.
unfoldable pub escape_colon : Bytes → Bytes
escape_colon (a ∷ b ∷ c ∷ rest) = a ∷ b ∷ b'%' ∷ b'3' ∷ b'A' ∷ rest
escape_colon escaped = escaped

hex : ℕ → Option ℕ
hex b =
    if leb b'0' b && leb b b'9'
    then some (b - b'0')
    else if leb b'a' b && leb b b'f'
    then some ((b - b'a') + 10)
    else if leb b'A' b && leb b b'F'
    then some ((b - b'A') + 10)
    else none

unescape_byte : ℕ → ℕ → Option ℕ
unfolding hex
unescape_byte high low = elim (hex high) [
  | none ↦ none
  | some hi ↦ elim (hex low) [ none ↦ none | some lo ↦ some (hi * 16 + lo) ]
]

module _ (h : Host) where
  -- `strings.EqualFold(rest[:3], "%3a")`, with what is there of three bytes.
  is_escaped_colon : Bytes → Bool
  is_escaped_colon (a ∷ b ∷ c ∷ _) = h.equal_fold (a ∷ b ∷ c ∷ []) (codes "%3a")
  is_escaped_colon _ = false

  -- A letter behind `%`, and the colon behind it.
  is_escaped_drive : Bytes → Bool
  unfolding unescape_byte is_escaped_colon is_ascii_letter
  is_escaped_drive (c ∷ d ∷ rest) = elim (unescape_byte c d) [
    | none ↦ false
    | some letter ↦ is_ascii_letter letter && is_escaped_colon rest
  ]
  is_escaped_drive _ = false

  unfoldable pub has_escaped_drive_colon : Bytes → Bool
  unfolding is_escaped_drive is_escaped_colon is_ascii_letter
  has_escaped_drive_colon (a ∷ b ∷ c ∷ d ∷ e ∷ rest) =
      if not (a == b'/')
      then false
      else if b == b'%'
      then is_escaped_drive (c ∷ d ∷ e ∷ rest)
      else is_ascii_letter b && is_escaped_colon (c ∷ d ∷ e ∷ rest)
  has_escaped_drive_colon _ = false

  uri_segments : Bytes → List Bytes → Result Bytes
  unfolding canonical_wsl_path
  uri_segments server (distro ∷ rest) = canonical_wsl_path h server distro rest
  uri_segments server [] = err (text (codes "pathnorm: unsupported network path"))

  uri_wsl_path : Url → Result Bytes
  unfolding uri_segments trim_slash split_slash
  uri_wsl_path u =
      if is_empty (trim_slash u.path)
      then err (text (codes "pathnorm: URI has no WSL distro path"))
      else uri_segments u.host (split_slash (trim_slash u.path))

  -- The slash in front of a drive letter goes, unless the colon was escaped.
  unfoldable pub drive_path : Url → Bytes
  unfolding has_drive_uri_path has_escaped_drive_colon trim_slash
  drive_path u =
      if has_drive_uri_path u.path && not (has_escaped_drive_colon u.raw_path)
      then trim_slash u.path
      else u.path

  -- `URIToPath` behind url.Parse.
  unfoldable pub url_to_path : Url → Result Bytes
  unfolding uri_wsl_path
  url_to_path u =
      if not (h.equal_fold u.scheme (codes "file"))
      then err (text (codes "pathnorm: not a file URI"))
      else if not (is_empty u.opaque)
          || u.has_user
          || not (is_empty u.raw_query)
          || not (is_empty u.fragment)
      then err (text (codes "pathnorm: unsupported file URI"))
      else if h.equal_fold u.host (codes "wsl$") || h.equal_fold u.host (codes "wsl.localhost")
      then uri_wsl_path u
      else if not (is_empty u.host) && not (h.equal_fold u.host (codes "localhost"))
      then err (text (codes "pathnorm: unsupported file URI authority"))
      else if is_empty u.path
      then err (text (codes "pathnorm: empty path in URI"))
      else canonicalize h (drive_path u)

module _ (h : Host) (p : UrlPackage) where
  unfoldable pub uri_to_path : Bytes → Result Bytes
  unfolding url_to_path
  uri_to_path uri = elim (p.parse uri) [
    | err e ↦ err (wrapped (codes "pathnorm: invalid URI") e)
    | ok u ↦ url_to_path h u
  ]

  -- The path as `PathToURI` spells it: nothing, or with the colon of a drive letter escaped.
  unfoldable pub raw_path_of : Bytes → Bytes
  unfolding has_drive_uri_path escape_colon file_url
  raw_path_of host_path =
      if has_drive_uri_path host_path
      then escape_colon (p.escaped_path (file_url host_path []))
      else []

  unfoldable pub path_to_uri : Bytes → Result Bytes
  path_to_uri host = elim (canonicalize h host) [
    | err e ↦ err e
    | ok host_path ↦ ok (p.to_string (file_url host_path (raw_path_of host_path)))
  ]
