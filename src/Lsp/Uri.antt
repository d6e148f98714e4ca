-- ===== src/Lsp/Uri.antt =====
-- internal/lsp/uri.go: the path of a location, and the language of a file.
use portolan.Prelude.{◌||◌, [], ◌∷◌, map, Bytes, codes, equal, ◌==◌, if◌then◌else◌}
use portolan.Context.{wrapped, Result, ok, err}
use portolan.Pathnorm.{Host, to_lower}
use portolan.Pathnorm.Uri.{UrlPackage, uri_to_path}

unfoldable pub path_from_uri : Host → UrlPackage → Bytes → Result Bytes
path_from_uri h p uri = elim (uri_to_path h p uri) [
  | ok path ↦ ok path
  | err e ↦ err (wrapped (codes "lsp: decoding location URI") e)
]

ext_from : Bytes → Bytes → Bytes
ext_from found [] = found
ext_from found (b ∷ bs) =
    ext_from (if b == b'/' then [] else if b == b'.' then b ∷ bs else found) bs

-- `filepath.Ext`: from the last dot behind the last slash.
ext : Bytes → Bytes
unfolding ext_from
ext p = ext_from [] p

-- `strings.ToLower` is that of the ASCII letters here: no other letter has one of these in lower case.
unfoldable pub language_id_for_file : Bytes → Bytes
unfolding ext to_lower
language_id_for_file path =
    let e = map to_lower (ext path) in
    if equal e (codes ".tsx")
    then codes "typescriptreact"
    else if equal e (codes ".jsx")
    then codes "javascriptreact"
    else if equal e (codes ".js") || equal e (codes ".mjs") || equal e (codes ".cjs")
    then codes "javascript"
    else codes "typescript"
