-- ===== src/Lsp/Requests.antt =====
-- internal/lsp/provider.go: the workspace's identity, and the requests of the provider over its open files,
-- the transport and the conversion of results. ensureOpen and the transport's call are functions that the
-- requests are given, and JSON is decoded by then: a reply is null, malformed or a value. The work on a reply
-- runs under runFiniteWork, whose arbitration is modelled by Lsp/FiniteWork.
use portolan.Prelude.{
  Bool, Option, none, some, List, [], ◌∷◌, Bytes, codes, ◌≡◌, refl, sym, ◌∙◌, ap,
}
use portolan.Context.{
  Error, wrapped, Result, ok, err, Context, M, ◌>>=◌, check, lift, return, throw,
}
use portolan.Context.Success.{passed, given, lifted}
use portolan.Core.Types.{Position, Location, Nodes, nil}
use portolan.Text.Segments.{split_slash}
use portolan.Pathnorm.{Host, canonicalize}
use portolan.Pathnorm.Canonical.{IsCanonical, canonicalize-IsCanonical}
use portolan.Pathnorm.Uri.{UrlPackage, path_to_uri}
use portolan.Lsp.Uri.{path_from_uri}
use portolan.Lsp.Conversion.{
  LspPosition, to_lsp_position, LspNodes, RawLocation, decode_document_symbols, decode_locations,
}
use portolan.Lsp.Conversion.Symbols.{Converted, decode_document_symbols-Converted}

-- A failure, with the text that the code puts in front of it.
unfoldable pub in_context {ℓ} : {A : Type ℓ} → Bytes → Result A → Result A
in_context message (ok a) = ok a
in_context message (err e) = err (wrapped message e)

pub data Reply {ℓ} (A : Type ℓ) : Type ℓ where
  json_null : Reply A
  malformed : Error → Reply A
  decoded : A → Reply A

pub data Request : Type 0 where
  definition_at : Bytes → LspPosition → Request
  references_at : Bytes → LspPosition → Bool → Request
  document_symbols_of : Bytes → Request

-- A reply with locations: null, a list, or what is not a list, with the error of that and, if it is one
-- location, that location.
pub data LocationReply : Type 0 where
  no_location : LocationReply
  many : List RawLocation → LocationReply
  other : Error → Option RawLocation → LocationReply

-- The transport and the open files.
pub record Server : Type 1 where
  pub ensure_open : Bytes → M (Unit {0})
  pub call_locations : Request → M LocationReply
  pub call_symbols : Request → M (Reply LspNodes)

-- `decodeDocumentSymbols` around its work.
unfoldable pub decode_reply : {A B : Type 0} → Bytes → B → (A → M B) → Reply A → M B
decode_reply message nothing work reply = check >>= λ _. elim reply [
  | json_null ↦ return nothing
  | malformed e ↦ throw (wrapped message e)
  | decoded a ↦ work a
]

-- `decodeLocations` around its work.
unfoldable pub decode_location_reply : (Bytes → Result Bytes) → LocationReply → M (List Location)
decode_location_reply path_of reply = check >>= λ _. elim reply [
  | no_location ↦ return []
  | many list ↦ decode_locations path_of list
  | other e single ↦ check >>= λ _. elim single [
    | none ↦ throw (wrapped (codes "lsp: decoding location result") e)
    | some l ↦ decode_locations path_of (l ∷ [])
  ]
]

last_segment : List Bytes → Bytes
last_segment [] = codes "/"
last_segment ([] ∷ []) = codes "/"
last_segment (s ∷ []) = s
last_segment (s ∷ t ∷ ts) = last_segment (t ∷ ts)

module _ (h : Host) (u : UrlPackage) where
  -- `workspaceIdentity`: the canonical root, its URI, and path.Base, the last segment of a clean path.
  unfoldable pub workspace_identity : Bytes → Result (Bytes × (Bytes × Bytes))
  unfolding last_segment
  workspace_identity root = elim (canonicalize h root) [
    | err e ↦ err e
    | ok path ↦ elim (path_to_uri h u path) [
      | err e ↦ err e
      | ok uri ↦ ok (path, (uri, last_segment (split_slash path)))
    ]
  ]

module _ (h : Host) (u : UrlPackage) (s : Server) where
  unfoldable pub prepare_open : Bytes → M (Bytes × Bytes)
  prepare_open file = check >>= λ _.
      lift (in_context (codes "lsp: canonicalizing path") (canonicalize h file)) >>= λ path.
      lift (in_context (codes "lsp: encoding path") (path_to_uri h u path)) >>= λ uri.
      s.ensure_open path >>= λ _. return (path, uri)

  unfoldable pub locations_of : Request → M (List Location)
  locations_of request = s.call_locations request >>= decode_location_reply (path_from_uri h u)

  -- `Definition`.
  unfoldable pub definition : Bytes → Position → M (List Location)
  definition file position =
      lift (in_context (codes "lsp: invalid definition position") (to_lsp_position position))
      >>= λ at. prepare_open file >>= λ opened. locations_of (definition_at opened.1 at)

  -- `References`.
  unfoldable pub references : Bytes → Position → Bool → M (List Location)
  references file position include_declaration =
      lift (in_context (codes "lsp: invalid reference position") (to_lsp_position position))
      >>= λ at. prepare_open file >>= λ opened.
          locations_of (references_at opened.1 at include_declaration)

  -- `DocumentSymbols`.
  unfoldable pub document_symbols : Bytes → M Nodes
  document_symbols file = prepare_open file >>= λ opened.
      s.call_symbols (document_symbols_of opened.1)
      >>= decode_reply (codes "lsp: decoding documentSymbol result") nil
          (decode_document_symbols opened.0)

in_context_ok :
    {A : Type 0} (message : Bytes) (r : Result A) {a : A} → in_context message r ≡ ok a → r ≡ ok a
unfolding in_context
in_context_ok message (ok b) h = h
in_context_ok message (err e) h = absurd cc

-- What a reply with symbols says of the file at a path: null nothing, and a tree its conversion.
pub data Outlined (path : Bytes) (reply : Reply LspNodes) (out : Nodes) : Type 0 where
  no_outline : reply ≡ json_null → out ≡ nil → Outlined path reply out
  outlined : (ns : LspNodes) → reply ≡ decoded ns → Converted path ns out → Outlined path reply out

decode_reply-Outlined :
    (path : Bytes) (message : Bytes) (reply : Reply LspNodes) (c : Context) {out : Nodes}
    {d : Context}
    → decode_reply message nil (decode_document_symbols path) reply c ≡ ok (out, d)
    → Outlined path reply out
unfolding decode_reply
decode_reply-Outlined path message json_null c h =
    let p = passed check _ c h in no_outline refl (sym (given p.behind))
decode_reply-Outlined path message (malformed e) c h =
    let p = passed check _ c h in absurd (let e = p.behind in cc)
decode_reply-Outlined path message (decoded ns) c h =
    let p = passed check _ c h in
    outlined ns refl (decode_document_symbols-Converted path ns p.between p.behind)

module _ (h : Host) (u : UrlPackage) (s : Server) where
  -- The path that was opened for a request.
  pub record Opened (file path uri : Bytes) : Type 0 where
    pub is_path : canonicalize h file ≡ ok path
    pub is_uri : path_to_uri h u path ≡ ok uri

  prepare_open-Opened :
      (file : Bytes) (c : Context) {path uri : Bytes} {d : Context}
      → prepare_open h u s file c ≡ ok ((path, uri), d)
      → Opened file path uri
  unfolding prepare_open
  prepare_open-Opened file c e =
      let p = passed check _ c e in
      let q =
        passed (lift (in_context (codes "lsp: canonicalizing path") (canonicalize h file))) _
          p.between p.behind in
      let r =
        passed (lift (in_context (codes "lsp: encoding path") (path_to_uri h u q.value))) _
          q.between q.behind in
      let t = passed (s.ensure_open q.value) _ r.between r.behind in
      let same = given t.behind in
      let a = in_context_ok _ (canonicalize h file) (lifted _ p.between q.before) in
      let b = in_context_ok _ (path_to_uri h u q.value) (lifted _ q.between r.before) in
      record {
        is_path = a ∙ ap (λ (x : Bytes × Bytes). ok (x.0)) same;
        is_uri =
            ap (λ (x : Bytes × Bytes). path_to_uri h u (x.0)) (sym same)
            ∙ b
            ∙ ap (λ (x : Bytes × Bytes). ok (x.1)) same;
      }

  -- A reply of the server to the request for the symbols of a URI, under some context.
  pub record Replied (uri : Bytes) (reply : Reply LspNodes) : Type 0 where
    pub asked_under : Context
    pub left : Context
    pub answer : s.call_symbols (document_symbols_of uri) asked_under ≡ ok (reply, left)

  -- If DocumentSymbols succeeds, under whatever context, the file has a canonical path with a URI, the call
  -- of the server for the symbols of that URI gave a reply, and the reply was null and the result is nothing, or
  -- the reply was a tree of symbols whose every symbol has two valid ranges, the selection within the whole, and
  -- the result is that tree with each symbol in its place.
  pub document_symbols-Outlined :
      (file : Bytes) (c : Context) {out : Nodes} {d : Context}
      → document_symbols h u s file c ≡ ok (out, d)
      → (path : Bytes) × ((uri : Bytes) × ((reply : Reply LspNodes) × (Opened file path uri
              × (IsCanonical path × (Replied uri reply × Outlined path reply out)))))
  unfolding document_symbols
  document_symbols-Outlined file c e =
      let p = passed (prepare_open h u s file) _ c e in
      let q = passed (s.call_symbols (document_symbols_of p.value.1)) _ p.between p.behind in
      let o = prepare_open-Opened file c p.before in
      (
        p.value.0,
        (
          p.value.1,
          (
            q.value,
            (
              o,
              (
                canonicalize-IsCanonical h file p.value.0 o.is_path,
                (
                  record { asked_under = p.between; left = q.between; answer = q.before },
                  decode_reply-Outlined p.value.0 _ q.value q.between q.behind,
                ),
              ),
            ),
          ),
        ),
      )
