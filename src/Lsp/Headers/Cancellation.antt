-- ===== src/Lsp/Headers/Cancellation.antt =====
-- Cancellation stops the extraction of a header, and never changes what it extracts.
use portolan.Prelude.{
  ℕ, ◌+◌, ◌-◌, Option, none, some, List, [], ◌∷◌, Bytes, ltb, if◌then◌else◌, length,
}
use portolan.Context.{Error, background, until, M, ◌>>=◌, ◌>>◌, check, return}
use portolan.Context.Polling.{
  Same, Transparent, return-Transparent, if-Transparent, check-Transparent, bind-Transparent,
}
use portolan.Core.Types.{Symbol}
use portolan.Lsp.Source.{byte_offset}
use portolan.Lsp.Source.Cancellation.{byte_offset-Transparent}
use portolan.Lsp.Lexical.{between}
use portolan.Lsp.Lexical.Tokens.{
  token_round, trivia_round, outside, declaration_token_offset, skip_declaration_trivia,
}
use portolan.Lsp.Lexical.Body.{body_round, start_nesting, declaration_body_offset}
use portolan.Lsp.Lexical.Cancellation.{spanned-Transparent}
use portolan.Lsp.Lexical.Loop.{scan-Transparent}
use portolan.Lsp.Headers.{
  normalize_round, normalize_end, normalize_declaration_header, and_then, header_keyword, name_here,
  header_behind_name, header_behind_keyword, header_in, extract_declaration_header,
}

and-Transparent :
    {A B : Type 0} (m : M (Option A)) (f : A → M (Option B))
    → Transparent m
    → ((a : A) → Transparent (f a))
    → Transparent (and_then m f)
and-Transparent m f hm hf = bind-Transparent m _ hm (λ o.
    elim o as (λ o. Transparent (elim o [ none ↦ return none | some a ↦ f a ])) [
      | none ↦ return-Transparent none
      | some a ↦ hf a
    ])

then-Transparent : {A : Type 0} (m : M A) → Transparent m → Transparent (check >> m)
then-Transparent m h = bind-Transparent check (λ _. m) check-Transparent (λ _. h)

module _ (source : Bytes) (start end : ℕ) where
  declaration_token_offset-Transparent :
      (tokens : List Bytes) → Transparent (declaration_token_offset source start end tokens)
  unfolding declaration_token_offset token_round
  declaration_token_offset-Transparent tokens =
      scan-Transparent (token_round source tokens start) _
        (λ i d rest.
          spanned-Transparent (i - start) i rest _ _ _ (return-Transparent _)
            (λ s. return-Transparent _) (λ s. return-Transparent _))
        (λ d. then-Transparent _ (return-Transparent none)) (between start end source) start 0
        outside

  skip_declaration_trivia-Transparent : Transparent (skip_declaration_trivia source start end)
  unfolding skip_declaration_trivia trivia_round
  skip_declaration_trivia-Transparent =
      scan-Transparent (trivia_round start) _
        (λ i u rest.
          spanned-Transparent (i - start) i rest _ _ _ (return-Transparent _)
            (λ s. return-Transparent _) (λ s. return-Transparent _))
        (λ u. return-Transparent none) (between start end source) start 0 tt

  declaration_body_offset-Transparent : Transparent (declaration_body_offset source start end)
  unfolding declaration_body_offset body_round
  declaration_body_offset-Transparent =
      scan-Transparent (body_round source start) _
        (λ i n rest.
          spanned-Transparent (i - start) i rest _ _ _ (return-Transparent _)
            (λ s. return-Transparent _) (λ s. return-Transparent _))
        (λ n. then-Transparent _ (return-Transparent none)) (between start end source) start 0
        start_nesting

  normalize_declaration_header-Transparent :
      Transparent (normalize_declaration_header source start end)
  unfolding normalize_declaration_header normalize_round normalize_end
  normalize_declaration_header-Transparent =
      scan-Transparent (normalize_round start) normalize_end
        (λ i h rest.
          spanned-Transparent (i - start) i rest _ _ _ (return-Transparent _)
            (λ s. return-Transparent _) (λ s. return-Transparent _))
        (λ h. then-Transparent _ (return-Transparent _)) (between start end source) start 0 _

header_in-Transparent :
    (source name word : Bytes) (start end : ℕ) → Transparent (header_in source name word start end)
unfolding header_in header_behind_keyword header_behind_name
header_in-Transparent source name word start end =
    and-Transparent (declaration_token_offset source start end (word ∷ []))
      (λ k. header_behind_keyword source name k (k + length word) end)
      (declaration_token_offset-Transparent source start end (word ∷ []))
      (λ k.
        and-Transparent (skip_declaration_trivia source (k + length word) end)
          (λ n.
            if name_here source name n end
            then header_behind_name source name k n end
            else return none)
          (skip_declaration_trivia-Transparent source (k + length word) end)
          (λ n.
            if-Transparent (name_here source name n end) (header_behind_name source name k n end)
              (return none)
              (and-Transparent (declaration_body_offset source (n + length name) end)
                (λ b. normalize_declaration_header source k b)
                (declaration_body_offset-Transparent source (n + length name) end)
                (λ b. normalize_declaration_header-Transparent source k b))
              (return-Transparent none)))

extract_declaration_header-Transparent :
    (source : Bytes) (symbol : Symbol) → Transparent (extract_declaration_header source symbol)
unfolding extract_declaration_header
extract_declaration_header-Transparent source symbol =
    elim (header_keyword symbol.kind)
      as (λ o. Transparent (elim o [
        | none ↦ return none
        | some word ↦
            check
            >> (byte_offset source symbol.range.start >>= λ start.
                byte_offset source symbol.range.end >>= λ end.
                if ltb end start then return none else header_in source symbol.name word start end)
      ])) [
        | none ↦ return-Transparent none
        | some word ↦
            then-Transparent
              (byte_offset source symbol.range.start >>= λ start.
                byte_offset source symbol.range.end >>= λ end.
                if ltb end start then return none else header_in source symbol.name word start end)
              (bind-Transparent (byte_offset source symbol.range.start)
                (λ start. byte_offset source symbol.range.end >>= λ end.
                  if ltb end start
                  then return none
                  else header_in source symbol.name word start end)
                (byte_offset-Transparent source symbol.range.start)
                (λ start.
                  bind-Transparent (byte_offset source symbol.range.end)
                    (λ end.
                      if ltb end start
                      then return none
                      else header_in source symbol.name word start end)
                    (byte_offset-Transparent source symbol.range.end)
                    (λ end.
                      if-Transparent (ltb end start) (return none)
                        (header_in source symbol.name word start end) (return-Transparent none)
                        (header_in-Transparent source symbol.name word start end))))
      ]

-- Under a context that is canceled, with an error, behind any number of polls, the extraction stops with that
-- error, or it ends as it does under a context that never is canceled: with the same result, or with the same
-- error.
pub extract_declaration_header-background :
    (source : Bytes) (symbol : Symbol) (n : ℕ) (e : Error)
    → Same e
        (extract_declaration_header source symbol (until n e))
        (extract_declaration_header source symbol background)
extract_declaration_header-background source symbol =
    extract_declaration_header-Transparent source symbol
