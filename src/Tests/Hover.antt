-- ===== src/Tests/Hover.antt =====
-- Hovers of a method and of a fenced block.
use portolan.Prelude.{ℕ, [], ◌∷◌, ◌++◌, Bytes, codes, equal, ◌==◌, ◌≡◌, refl, true, ◌⊎◌}
use portolan.Context.{ok}
use portolan.Text.Space.{trim_space, is_space}
use portolan.Text.Utf8.{decode_rune}
use portolan.Lsp.Lexical.{has_prefix}
use portolan.Lsp.Lexical.Tokens.{any_of}
use portolan.Lsp.Hover.{
  fence, markdown_code, normalize_ts_go_member, normalize_ts_go_constructor, json_null, markup,
  items, nil, cons, decode_hover_contents,
}
use portolan.Lsp.Hover.Members.{normalize_ts_go_member_lem}
use portolan.Lsp.Hover.Fences.{is_without, markdown_code-fenced}

abbrev display : Bytes
display = codes "(method) Shape.area(scale: number): number"

abbrev tail : Bytes
tail = codes "(?<"

abbrev area : Bytes
area = normalize_ts_go_member display (codes "area") (codes "(method) ") tail

normalize_ts_go_member_lem_example :
    (area ≡ [])
    ⊎ ((front : Bytes) × (c : ℕ) × (rest : Bytes) × (display ≡ front ++ area)
        × (area ≡ codes "area" ++ (c ∷ rest))
        × (any_of (◌==◌ c) tail ≡ true))
normalize_ts_go_member_lem_example =
    normalize_ts_go_member_lem display (codes "area") (codes "(method) ") tail

markdown_code-fenced_example :
    markdown_code (
      codes "Doc\n"
      ++ ((fence ++ codes "ts") ++ (b'\n' ∷ (codes " let a\n" ++ (fence ++ codes "\nmore")))))
    ≡ ok (trim_space (codes " let a\n"))
unfolding is_without
markdown_code-fenced_example =
    markdown_code-fenced (codes "Doc\n") (codes "ts") (codes " let a\n") (codes "\nmore") refl refl
      refl

constructor_shown :
    normalize_ts_go_constructor (codes "constructor Foo(a: number): Foo")
    ≡ codes "constructor(a: number)"
unfolding normalize_ts_go_constructor has_prefix equal trim_space decode_rune is_space
constructor_shown = refl

first_text :
    decode_hover_contents
      (items (cons json_null (cons (markup (codes "plaintext") (codes " let a ")) nil)))
    ≡ ok (codes "let a")
unfolding decode_hover_contents trim_space decode_rune is_space equal
first_text = refl
