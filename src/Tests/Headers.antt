-- ===== src/Tests/Headers.antt =====
-- Headers of declarations in a small source.
use portolan.Prelude.{
  ◌≤◌, ◌<◌, ◌+◌, [], ◌∷◌, ◌++◌, some, codes, ◌≡◌, refl, Bytes, true, false, ◌⊎◌, equal, length,
  is_empty,
}
use portolan.Prelude.Int.{pos}
use portolan.Context.{canceled, ok, background, until, check, poll}
use portolan.Core.Types.{Symbol, SymbolKind, validate_position}
use portolan.Text.Utf8.{decode_rune, utf16_length}
use portolan.Lsp.Source.{byte_offset, find_line, find_unit}
use portolan.Text.Space.{is_space}
use portolan.Lsp.Lexical.{
  no_span, comment, scan_context, line_comment, block_comment, quoted, scan_lexical_span,
  is_identifier_byte, byte_at, token_boundary, has_prefix, scan,
}
use portolan.Lsp.Lexical.Spans.{scan_lexical_span_progress}
use portolan.Lsp.Lexical.Tokens.{any_of, declaration_token_offset, skip_declaration_trivia}
use portolan.Lsp.Lexical.Body.{
  declaration_keyword_at, incomplete_declaration_token, declaration_body_offset,
}
use portolan.Lsp.Headers.{
  extract_declaration_header, normalize_declaration_header, header_keyword, is_line_break,
}
use portolan.Context.Polling.{Same}
use portolan.Lsp.Headers.Growth.{is_word_byte}
use portolan.Lsp.Headers.Titled.{extract_declaration_header-title}
use portolan.Lsp.Headers.Cancellation.{extract_declaration_header-background}

abbrev source : Bytes
source = codes "/* a */ export class Foo // c\n  extends Bar<{a: '{'}, B>\n\t{ x }\n"

abbrev foo : Symbol
foo = record {
  name = codes "Foo";
  kind = SymbolKind.class;
  file = codes "/w/a.ts";
  range = record {
    start = record { line = pos 0; character = pos 8 };
    end = record { line = pos 2; character = pos 6 };
  };
  sel_range = record {
    start = record { line = pos 0; character = pos 21 };
    end = record { line = pos 0; character = pos 24 };
  };
  signature = [];
  detail = [];
}

abbrev header : Bytes
header = codes "class Foo extends Bar<{a: '{'}, B>"

extract_declaration_header-foo :
    extract_declaration_header source foo background ≡ ok (some header, background)
unfolding extract_declaration_header declaration_token_offset skip_declaration_trivia
    declaration_body_offset normalize_declaration_header declaration_keyword_at
    incomplete_declaration_token scan scan_context scan_lexical_span line_comment block_comment
    quoted has_prefix token_boundary is_identifier_byte byte_at equal is_space byte_offset find_line
    find_unit check poll validate_position decode_rune utf16_length
extract_declaration_header-foo = refl

extract_declaration_header-title_example :
    (has_prefix (codes "class" ++ (b' ' ∷ codes "Foo")) header ≡ true)
    × (is_empty header ≡ false)
    × (any_of is_line_break header ≡ false)
    × (length header ≤ length source)
unfolding header_keyword is_word_byte
extract_declaration_header-title_example =
    extract_declaration_header-title source foo (codes "class") header background background refl
      refl extract_declaration_header-foo

extract_declaration_header-background_example :
    Same canceled
      (extract_declaration_header source foo (until 3 canceled))
      (extract_declaration_header source foo background)
extract_declaration_header-background_example =
    extract_declaration_header-background source foo 3 canceled

note_found :
    scan_lexical_span 4 (codes "/* a */ b") background
    ≡ ok (record { next = 11; kind = comment; complete = true }, background)
unfolding scan_lexical_span block_comment scan_context
note_found = refl

scan_lexical_span_progress_example : (comment ≡ no_span) ⊎ ((4 < 11) × (11 ≤ 4 + 9))
scan_lexical_span_progress_example =
    scan_lexical_span_progress 4 (codes "/* a */ b")
      (record { next = 11; kind = comment; complete = true }) background background note_found
