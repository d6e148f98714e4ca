-- ===== src/Lsp/Headers/Titled.antt =====
-- The header that is extracted: its keyword, one blank and its name, on one line.
use portolan.Prelude.{
  ℕ, ◌+◌, ◌≤◌, true, false, Option, none, some, [], ◌∷◌, ◌++◌, Bytes, codes, take, length, all_of,
  is_empty, ◌≡◌, refl, ◌⊎◌, inl, inr, arith, length-drop, length-take, ltb,
}
use portolan.Context.{ok, Context, M, return, check}
use portolan.Context.Meets.{Meets, return-Meets, if-Meets, then-Meets, bind-Meets}
use portolan.Core.Types.{Symbol, SymbolKind}
use portolan.Lsp.Lexical.{has_prefix, between}
use portolan.Lsp.Lexical.Tokens.{declaration_token_offset, skip_declaration_trivia}
use portolan.Lsp.Lexical.Body.{declaration_body_offset}
use portolan.Lsp.Source.{byte_offset}
use portolan.Lsp.Headers.{
  normalize_declaration_header, header_keyword, is_line_break, name_here, header_behind_name,
  header_behind_keyword, header_in, and_then, extract_declaration_header,
}
use portolan.Lsp.Headers.Collapsed.{IsHeader, normalize_declaration_header-Header}
use portolan.Lsp.Headers.Found.{
  FoundToken, declaration_token_offset-FoundToken, FoundBody, declaration_body_offset-FoundBody,
  skip_declaration_trivia-FoundName,
}
use portolan.Lsp.Headers.Growth.{Begins, is_word_byte}
use portolan.Lsp.Headers.Cuts.{has_prefix→append}
use portolan.Lsp.Lexical.Tokens.{any_of}
use portolan.Lsp.Headers.Named.{titled}

-- A header of `source` that begins with the keyword, one blank and the name.
abbrev Titled : Bytes → Bytes → Bytes → Option Bytes → Type 0
Titled source word name none = Unit
Titled source word name (some t) =
    IsHeader (length source) t × (has_prefix (word ++ (b' ' ∷ name)) t ≡ true)

and-Meets :
    {A B : Type 0} (P : Option A → Type 0) (Q : Option B → Type 0) (m : M (Option A))
    {f : A → M (Option B)}
    → Meets P m
    → Q none
    → ((a : A) → P (some a) → Meets Q (f a))
    → Meets Q (and_then m f)
and-Meets P Q m {f} hm stop go = bind-Meets Q m hm (λ o.
    elim o as (λ o. P o → Meets Q (elim o [ none ↦ return none | some a ↦ f a ])) [
      | none ↦ λ p. return-Meets Q none stop
      | some a ↦ λ p. go a p
    ])

-- What a run returned.
Ran : {A : Type 0} → M A → A → Type 0
Ran m a = (c : Context) × (d : Context) × (m c ≡ ok (a, d))

ran : {A : Type 0} (m : M A) → Meets (Ran m) m
unfolding Ran
ran m c a d h = (c, d, h)

whole_header :
    (source word name : Bytes) (k b : ℕ)
    → Meets (Begins (word ++ (b' ' ∷ name))) (normalize_declaration_header source k b)
    → Meets (Titled source word name) (normalize_declaration_header source k b)
whole_header source word name k b begins c none d h = tt
whole_header source word name k b begins c (some t) d h =
    let e = normalize_declaration_header-Header source k b c (some t) d h in
    (
      record {
        one_line = e.one_line;
        within = omega (arith, e.within, length-drop k (take b source), length-take b source);
        written = e.written;
      },
      begins c (some t) d h,
    )

module _ (source : Bytes) (x : ℕ) (w : Bytes) (word : all_of is_word_byte (x ∷ w) ≡ true) where
  normalized-Begins :
      (name : Bytes) (k n end b : ℕ) (u : Bytes) (c e : Context)
      → all_of is_word_byte name ≡ true
      → between k end source ≡ (x ∷ w) ++ u
      → name_here source name n end ≡ true
      → skip_declaration_trivia source (k + length (x ∷ w)) end c ≡ ok (some n, e)
      → FoundBody source (n + length name) end (some b)
      → Meets (Begins ((x ∷ w) ++ (b' ' ∷ name))) (normalize_declaration_header source k b)
  normalized-Begins [] k n end b u c e ok_name here there h found = absurd (cc)
  normalized-Begins (y ∷ v) k n end b u c e ok_name here there h found =
      titled source x w y v word ok_name k n end u
        (record {
          keyword_here = here;
          behind_keyword =
              (skip_declaration_trivia-FoundName source (k + length (x ∷ w)) end c (some n) e h).0;
          name_there = there;
        })
        b c e h found

  behind_keyword-Titled :
      (name : Bytes) (k end : ℕ) (u : Bytes)
      → all_of is_word_byte name ≡ true
      → between k end source ≡ (x ∷ w) ++ u
      → Meets
          (Titled source (x ∷ w) name)
          (header_behind_keyword source name k (k + length (x ∷ w)) end)
  unfolding header_behind_keyword header_behind_name Ran
  behind_keyword-Titled name k end u ok_name e =
      let start = k + length (x ∷ w) in
      and-Meets (λ o. Ran (skip_declaration_trivia source start end) o) (Titled source (x ∷ w) name)
        (skip_declaration_trivia source start end) (ran _) tt
        (λ n r.
          if-Meets _ (name_here source name n end)
            (λ there.
              and-Meets (FoundBody source (n + length name) end) (Titled source (x ∷ w) name)
                (declaration_body_offset source (n + length name) end)
                (declaration_body_offset-FoundBody source (n + length name) end) tt
                (λ b found.
                  whole_header source (x ∷ w) name k b
                    (normalized-Begins name k n end b u r.0 r.1 ok_name e there r.2 found)))
            (λ _. return-Meets _ none tt))

  header_in-Titled :
      (name : Bytes) (start end : ℕ)
      → all_of is_word_byte name ≡ true
      → Meets (Titled source (x ∷ w) name) (header_in source name (x ∷ w) start end)
  unfolding header_in
  header_in-Titled name start end ok_name =
      and-Meets (FoundToken source start end ((x ∷ w) ∷ [])) (Titled source (x ∷ w) name)
        (declaration_token_offset source start end ((x ∷ w) ∷ []))
        (declaration_token_offset-FoundToken source start end ((x ∷ w) ∷ [])) tt
        (λ k found.
          let (u, e) = has_prefix→append (x ∷ w) (between k end source) (ground (arith, found.1)) in
          behind_keyword-Titled name k end u ok_name e)

keyword_word :
    (k : SymbolKind) (word : Bytes)
    → header_keyword k ≡ some word
    → (word ≡ codes "class") ⊎ (word ≡ codes "interface")
unfolding header_keyword
keyword_word SymbolKind.class word h = inl (cc)
keyword_word SymbolKind.interface word h = inr (cc)
keyword_word _ word h = absurd (cc)

keyword-Titled :
    (source name word : Bytes) (start end : ℕ)
    → (word ≡ codes "class") ⊎ (word ≡ codes "interface")
    → all_of is_word_byte name ≡ true
    → Meets (Titled source word name) (header_in source name word start end)
unfolding is_word_byte
keyword-Titled source name word start end (inl e) ok_name =
    rw e (header_in-Titled source b'c' (codes "lass") refl name start end ok_name)
keyword-Titled source name word start end (inr e) ok_name =
    rw e (header_in-Titled source b'i' (codes "nterface") refl name start end ok_name)

extract_declaration_header-Titled :
    (source : Bytes) (symbol : Symbol) (word : Bytes)
    → header_keyword symbol.kind ≡ some word
    → all_of is_word_byte symbol.name ≡ true
    → Meets (Titled source word symbol.name) (extract_declaration_header source symbol)
unfolding extract_declaration_header
extract_declaration_header-Titled source symbol word kind ok_name =
    rw (extract_declaration_header, kind)
      (then-Meets _ check (
        bind-Meets _ {Q = λ _. Unit {0}} (byte_offset source symbol.range.start) (λ c a d h. tt)
          (λ start _.
            bind-Meets _ {Q = λ _. Unit {0}} (byte_offset source symbol.range.end) (λ c a d h. tt)
              (λ end _.
                if-Meets _ (ltb end start) (λ _. return-Meets _ none tt)
                  (λ _.
                    keyword-Titled source symbol.name word start end
                      (keyword_word symbol.kind word kind) ok_name)))))

-- A header that is extracted for a symbol whose name has only letters, digits, `_` and `$` begins with
-- `class` or `interface`, as the symbol's kind says, one blank, and the name. It is not empty, has no line
-- break, and is no longer than the source.
pub extract_declaration_header-title :
    (source : Bytes) (symbol : Symbol) (word header : Bytes) (c d : Context)
    → header_keyword symbol.kind ≡ some word
    → all_of is_word_byte symbol.name ≡ true
    → extract_declaration_header source symbol c ≡ ok (some header, d)
    → (has_prefix (word ++ (b' ' ∷ symbol.name)) header ≡ true)
      × (is_empty header ≡ false)
      × (any_of is_line_break header ≡ false)
      × (length header ≤ length source)
extract_declaration_header-title source symbol word header c d kind name h =
    let t = extract_declaration_header-Titled source symbol word kind name c (some header) d h in
    (t.1, t.0.written, t.0.one_line, t.0.within)
