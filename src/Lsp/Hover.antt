-- ===== src/Lsp/Hover.antt =====
-- internal/lsp/hover_conversion.go: the signature in a hover of the language server. JSON is decoded by then: contents
-- are null, an object with a kind and a value, a text, a list, or of another form.
pub mod Members
pub mod Fences
pub mod Signature
use portolan.Prelude.{
  ℕ, suc, ◌+◌, ◌-◌, Bool, true, false, not, ◌&&◌, ◌||◌, Option, none, some, List, [], ◌∷◌, ◌++◌,
  Bytes, codes, ltb, leb, ◌==◌, if◌then◌else◌, take, drop, length, equal, is_empty,
}
use portolan.Context.{Error, text, Result, ok, err}
use portolan.Core.Types.{Symbol, SymbolKind}
use portolan.Text.Space.{trim_space}
use portolan.Lsp.Lexical.{has_prefix}
use portolan.Lsp.Lexical.Tokens.{any_of}

-- `strings.Index` and `strings.LastIndex`, of the needle in front.
unfoldable pub index : Bytes → Bytes → Option ℕ
index needle [] = if is_empty needle then some 0 else none
index needle (c ∷ cs) =
    let later = elim (index needle cs) as (λ _. Option ℕ) [ none ↦ none | some i ↦ some (suc i) ] in
    if has_prefix needle (c ∷ cs) then some 0 else later

unfoldable pub last_index : Bytes → Bytes → Option ℕ
last_index needle [] = if is_empty needle then some 0 else none
last_index needle (c ∷ cs) = elim (last_index needle cs) [
  | some i ↦ some (suc i)
  | none ↦ if has_prefix needle (c ∷ cs) then some 0 else none
]

-- `strings.HasSuffix(s, suffix)`, as `has_suffix suffix s`.
unfoldable pub has_suffix : Bytes → Bytes → Bool
has_suffix suffix s =
    leb (length suffix) (length s) && equal (drop (length s - length suffix) s) suffix

-- `strings.TrimPrefix(s, prefix)`, as `trim_prefix prefix s`.
unfoldable pub trim_prefix : Bytes → Bytes → Bytes
trim_prefix prefix s = if has_prefix prefix s then drop (length prefix) s else s

abbrev pub fence : Bytes
fence = b'`' ∷ b'`' ∷ b'`' ∷ []

abbrev pub malformed_fence : Error
malformed_fence = text (codes "lsp: malformed fenced hover content")

-- Behind the line of the opening fence.
unfoldable pub fenced : Bytes → Result Bytes
fenced content = elim (index fence content) [
  | none ↦ err malformed_fence
  | some end ↦ ok (trim_space (take end content))
]

unfoldable pub behind_fence : Bytes → Result Bytes
unfolding fenced
behind_fence block = elim (index (b'\n' ∷ []) block) [
  | none ↦ err malformed_fence
  | some line_end ↦ fenced (drop (line_end + 1) block)
]

-- `markdownCode`.
unfoldable pub markdown_code : Bytes → Result Bytes
unfolding behind_fence index
markdown_code markdown = elim (index fence markdown) [
  | none ↦ ok (trim_space markdown)
  | some start ↦ behind_fence (drop start markdown)
]

mutual
  pub data HoverContents : Type 0 where
    json_null : HoverContents
    markup : Bytes → Bytes → HoverContents
    plain : Bytes → HoverContents
    items : HoverItems → HoverContents
    unsupported : HoverContents

  pub data HoverItems : Type 0 where
    nil : HoverItems
    cons : HoverContents → HoverItems → HoverItems

unsupported_contents : Error
unsupported_contents = text (codes "lsp: unsupported hover contents")

unfoldable pub decode_markup : Bytes → Bytes → Result Bytes
unfolding markdown_code unsupported_contents
decode_markup kind value =
    if is_empty value
    then err unsupported_contents
    else if equal kind (codes "markdown")
    then markdown_code value
    else ok (trim_space value)

-- `decodeHoverContents`.
unfoldable mutual
  unfolding decode_markup unsupported_contents

  pub decode_hover_contents : HoverContents → Result Bytes
  decode_hover_contents json_null = ok []
  decode_hover_contents (markup kind value) = decode_markup kind value
  decode_hover_contents (plain t) = ok (trim_space t)
  decode_hover_contents (items list) = decode_hover_items list
  decode_hover_contents unsupported = err unsupported_contents

  pub decode_hover_items : HoverItems → Result Bytes
  decode_hover_items nil = ok []
  decode_hover_items (cons item list) =
      let later = decode_hover_items list in
      elim (decode_hover_contents item) [
        | err e ↦ err e
        | ok value ↦ if is_empty value then later else ok value
      ]

-- The end of `normalizeTSGoMember`.
unfoldable pub with_tail : Bytes → Bytes → Bytes → Bytes
with_tail name allowed_tail [] = []
with_tail name allowed_tail (c ∷ cs) = if any_of (◌==◌ c) allowed_tail then name ++ (c ∷ cs) else []

abbrev pub line_breaks : Bytes
line_breaks = 13 ∷ 10 ∷ []

-- `strings.TrimSpace(s) != s || strings.ContainsAny(s, chars)`.
unfoldable pub is_loose : Bytes → Bytes → Bool
is_loose chars s = not (equal (trim_space s) s) || any_of (λ c. any_of (◌==◌ c) chars) s

-- A name behind a qualifier and a dot.
unfoldable pub qualified_member : Bytes → Bytes → Bytes → Option ℕ → Bytes
unfolding with_tail is_loose
qualified_member name allowed_tail rest none = []
qualified_member name allowed_tail rest (some separator) =
    if separator == 0 || is_loose line_breaks (take separator rest)
    then []
    else with_tail name allowed_tail (drop (separator + 1 + length name) rest)

unfoldable pub normalize_ts_go_member : Bytes → Bytes → Bytes → Bytes → Bytes
unfolding with_tail qualified_member trim_prefix last_index
normalize_ts_go_member display name prefix allowed_tail =
    let rest = trim_prefix prefix display in
    if is_empty name
    then []
    else if has_prefix name rest
    then with_tail name allowed_tail (drop (length name) rest)
    else qualified_member name allowed_tail rest (last_index (b'.' ∷ name) rest)

constructor_word : Bytes
constructor_word = codes "constructor"

-- Between the brackets of a constructor, at `open` and `close`.
unfoldable pub constructor_call : Bytes → ℕ → ℕ → Bytes
unfolding is_loose constructor_word
constructor_call rest first last =
    let class_name = take first rest in
    let suffix = drop (last + 1) rest in
    if (first == 0 || leb last first)
      || (is_loose (b' ' ∷ 9 ∷ line_breaks) class_name
          || (not (is_empty suffix) && not (equal suffix (codes ": " ++ class_name))))
    then []
    else constructor_word ++ take (last + 1 - first) (drop first rest)

unfoldable pub normalize_ts_go_constructor : Bytes → Bytes
unfolding constructor_call trim_prefix index last_index constructor_word
normalize_ts_go_constructor display =
    let rest = trim_prefix (codes "constructor ") display in
    elim (index (40 ∷ []) rest) [
      | none ↦ []
      | some first ↦ elim (last_index (41 ∷ []) rest) [
        | none ↦ []
        | some last ↦ constructor_call rest first last
      ]
    ]

abbrev pub anonymous_function : Bytes
anonymous_function = codes "function (Anonymous function)"

unfoldable pub normalize_ts_go_anonymous_function : Bytes → Bytes
unfolding trim_prefix
normalize_ts_go_anonymous_function display =
    let tail = trim_prefix anonymous_function display in
    if has_prefix (40 ∷ []) tail then tail else []
