-- ===== src/Lsp/Lexical/Cancellation.antt =====
-- Cancellation does not change what comments and literals are.
use portolan.Prelude.{
  ℕ, ◌+◌, Bool, true, false, not, ◌&&◌, [], ◌∷◌, Bytes, ltb, ◌==◌, ◌%◌, if◌then◌else◌,
}
use portolan.Context.{M, ◌>>=◌, ◌>>◌, check, return}
use portolan.Context.Polling.{
  Transparent, return-Transparent, if-Transparent, check-Transparent, bind-Transparent,
}
use portolan.Lsp.Lexical.{
  no_span, comment, literal, Span, scan_context, line_comment, block_comment, quoted, is_quote,
  literal_span, scan_lexical_span,
}

scan_context-Transparent : (n : ℕ) → Transparent (scan_context n)
unfolding scan_context
scan_context-Transparent n =
    if-Transparent (ltb 0 n && n % 256 == 0) check (return tt) check-Transparent
      (return-Transparent tt)

pub polled-Transparent {ℓ} :
    {A : Type ℓ} (n : ℕ) (m : M A) → Transparent m → Transparent (scan_context n >> m)
polled-Transparent n m h =
    bind-Transparent (scan_context n) (λ _. m) (scan_context-Transparent n) (λ _. h)

stop_or_on :
    (b : Bool) (s : Span) (n : ℕ) (m : M Span)
    → Transparent m
    → Transparent (scan_context n >> (if b then return s else m))
stop_or_on b s n m h =
    polled-Transparent n _ (if-Transparent b (return s) m (return-Transparent s) h)

line_comment-Transparent : (start n : ℕ) (rest : Bytes) → Transparent (line_comment start n rest)
unfolding line_comment
line_comment-Transparent start n [] = return-Transparent _
line_comment-Transparent start n (x ∷ xs) =
    stop_or_on (x == b'\n') _ n _ (line_comment-Transparent start (n + 1) xs)

block_comment-Transparent : (start n : ℕ) (rest : Bytes) → Transparent (block_comment start n rest)
unfolding block_comment
block_comment-Transparent start n [] = return-Transparent _
block_comment-Transparent start n (x ∷ []) = return-Transparent _
block_comment-Transparent start n (x ∷ y ∷ xs) =
    stop_or_on (x == b'*' && y == b'/') _ n _ (block_comment-Transparent start (n + 1) (y ∷ xs))

quoted-Transparent :
    (q start n : ℕ) (escaped : Bool) (rest : Bytes) → Transparent (quoted q start n escaped rest)
unfolding quoted
quoted-Transparent q start n escaped [] = return-Transparent _
quoted-Transparent q start n true (x ∷ xs) = quoted-Transparent q start (n + 1) false xs
quoted-Transparent q start n false (x ∷ xs) =
    stop_or_on (not (x == b'\\') && x == q) _ n _
      (quoted-Transparent q start (n + 1) (x == b'\\') xs)

literal_span-Transparent : (start c : ℕ) (cs : Bytes) → Transparent (literal_span start c cs)
unfolding literal_span
literal_span-Transparent start c cs =
    if-Transparent (is_quote c) _ _ (quoted-Transparent c start 1 false cs) (return-Transparent _)

pub scan_lexical_span-Transparent :
    (start : ℕ) (rest : Bytes) → Transparent (scan_lexical_span start rest)
unfolding scan_lexical_span
scan_lexical_span-Transparent start [] = return-Transparent _
scan_lexical_span-Transparent start (c ∷ []) = literal_span-Transparent start c []
scan_lexical_span-Transparent start (c ∷ d ∷ cs) =
    if-Transparent (c == b'/' && d == b'/') _ _ (line_comment-Transparent start 2 cs) (
      if-Transparent (c == b'/' && d == b'*') _ _ (block_comment-Transparent start 2 cs)
        (literal_span-Transparent start c (d ∷ cs)))

pub spanned-Transparent :
    {R : Type 0} (scanned i : ℕ) (rest : Bytes) (plain : M R) (rem str : Span → M R)
    → Transparent plain
    → ((s : Span) → Transparent (rem s))
    → ((s : Span) → Transparent (str s))
    → Transparent (
        scan_context scanned
        >> (scan_lexical_span i rest >>= λ s. elim s.kind [
          | no_span ↦ plain
          | comment ↦ rem s
          | literal ↦ str s
        ]))
spanned-Transparent {R} scanned i rest plain rem str hp hc hl = polled-Transparent scanned _ (
    bind-Transparent (scan_lexical_span i rest) _ (scan_lexical_span-Transparent i rest) (λ s.
      elim s.kind
        as (λ k.
          Transparent
            (elim k as (λ _. M R) [ no_span ↦ plain | comment ↦ rem s | literal ↦ str s ])) [
              | no_span ↦ hp
              | comment ↦ hc s
              | literal ↦ hl s
            ]))
