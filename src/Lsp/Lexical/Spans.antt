-- ===== src/Lsp/Lexical/Spans.antt =====
-- Comments and literals: where they end.
use portolan.Prelude.{
  ℕ, suc, ◌+◌, ◌≤◌, ◌<◌, Bool, true, false, not, ◌&&◌, ◌||◌, [], ◌∷◌, Bytes, ◌==◌, length, ◌≡◌,
  refl, ◌⊎◌, inl, inr, arith,
}
use portolan.Context.{ok, Context, M, ◌>>=◌, ◌>>◌}
use portolan.Context.Meets.{Meets, return-Meets, if-Meets, then-Meets, bind-Meets}
use portolan.Lsp.Lexical.{
  LexicalSpanKind, no_span, comment, literal, Span, scan_context, line_comment, block_comment,
  quoted, is_quote, literal_span, scan_lexical_span,
}

-- The span ends between `low` and `high`.
pub record Ends (low high : ℕ) (s : Span) : Type 0 where
  pub behind_low : low ≤ s.next
  pub within_high : s.next ≤ high

Ends-widen : {a b low high : ℕ} (s : Span) → Ends a b s → low ≤ a → b ≤ high → Ends low high s
Ends-widen s e p q = record {
  behind_low = omega (arith, e.behind_low);
  within_high = omega (arith, e.within_high);
}

abbrev pub EndsIn : ℕ → ℕ → M Span → Type 0
EndsIn low high m = Meets (Ends low high) m

step-EndsIn :
    (start n k : ℕ) (m : M Span)
    → EndsIn (start + (n + 1)) (start + (n + 1) + k) m
    → EndsIn (start + n) (start + n + suc k) m
step-EndsIn start n k m h c s d e = Ends-widen s (h c s d e) (omega arith) (omega arith)

pub line_comment-EndsIn :
    (start n : ℕ) (rest : Bytes)
    → EndsIn (start + n) (start + n + length rest) (line_comment start n rest)
unfolding line_comment
line_comment-EndsIn start n [] =
    return-Meets _ _ (record { behind_low = omega arith; within_high = omega arith })
line_comment-EndsIn start n (x ∷ xs) = then-Meets _ (scan_context n) (
    if-Meets _ (x == b'\n')
      (λ e. return-Meets _ _ (record { behind_low = omega arith; within_high = omega arith }))
      (λ e. step-EndsIn start n (length xs) _ (line_comment-EndsIn start (n + 1) xs)))

pub block_comment-EndsIn :
    (start n : ℕ) (rest : Bytes)
    → EndsIn (start + n) (start + n + length rest) (block_comment start n rest)
unfolding block_comment
block_comment-EndsIn start n [] =
    return-Meets _ _ (record { behind_low = omega arith; within_high = omega arith })
block_comment-EndsIn start n (x ∷ []) =
    return-Meets _ _ (record { behind_low = omega arith; within_high = omega arith })
block_comment-EndsIn start n (x ∷ y ∷ xs) = then-Meets _ (scan_context n) (
    if-Meets _ (x == b'*' && y == b'/')
      (λ e. return-Meets _ _ (record { behind_low = omega arith; within_high = omega arith }))
      (λ e. step-EndsIn start n (length (y ∷ xs)) _ (block_comment-EndsIn start (n + 1) (y ∷ xs))))

quoted-EndsIn :
    (q start n : ℕ) (escaped : Bool) (rest : Bytes)
    → EndsIn (start + n) (start + n + length rest) (quoted q start n escaped rest)
unfolding quoted
quoted-EndsIn q start n escaped [] =
    return-Meets _ _ (record { behind_low = omega arith; within_high = omega arith })
quoted-EndsIn q start n true (x ∷ xs) =
    step-EndsIn start n (length xs) _ (quoted-EndsIn q start (n + 1) false xs)
quoted-EndsIn q start n false (x ∷ xs) = then-Meets _ (scan_context n) (
    if-Meets _ (not (x == b'\\') && x == q)
      (λ e. return-Meets _ _ (record { behind_low = omega arith; within_high = omega arith }))
      (λ e. step-EndsIn start n (length xs) _ (quoted-EndsIn q start (n + 1) (x == b'\\') xs)))

-- A comment or a literal takes at least one byte and stays inside the text.
pub data Taken (start size : ℕ) (s : Span) : Type 0 where
  nothing : s.kind ≡ no_span → Taken start size s
  bytes : suc start ≤ s.next → s.next ≤ start + size → Taken start size s

Ends-Taken :
    {start size low high : ℕ} (s : Span)
    → suc start ≤ low
    → high ≤ start + size
    → Ends low high s
    → Taken start size s
Ends-Taken s p q e = bytes (omega (arith, e.behind_low)) (omega (arith, e.within_high))

literal_span-Taken :
    (start c : ℕ) (cs : Bytes) → Meets (Taken start (suc (length cs))) (literal_span start c cs)
unfolding literal_span
literal_span-Taken start c cs =
    if-Meets _ (is_quote c)
      (λ e k s d h.
        Ends-Taken s (omega arith) (omega arith) (quoted-EndsIn c start 1 false cs k s d h))
      (λ e. return-Meets _ _ (nothing refl))

pub scan_lexical_span-Taken :
    (start : ℕ) (rest : Bytes) → Meets (Taken start (length rest)) (scan_lexical_span start rest)
unfolding scan_lexical_span
scan_lexical_span-Taken start [] = return-Meets _ _ (nothing refl)
scan_lexical_span-Taken start (c ∷ []) = literal_span-Taken start c []
scan_lexical_span-Taken start (c ∷ d ∷ cs) =
    if-Meets _ (c == b'/' && d == b'/')
      (λ e k s z h.
        Ends-Taken s (omega arith) (omega arith) (line_comment-EndsIn start 2 cs k s z h))
      (λ _.
        if-Meets _ (c == b'/' && d == b'*')
          (λ e k s z h.
            Ends-Taken s (omega arith) (omega arith) (block_comment-EndsIn start 2 cs k s z h))
          (λ _. literal_span-Taken start c (d ∷ cs)))

-- What every round does with the span in front of it.
kind-Meets :
    {R : Type 0} (Q : R → Type 0) (k : LexicalSpanKind) (s : Span) (i size : ℕ)
    {plain rem str : M R}
    → s.kind ≡ k
    → Taken i size s
    → Meets Q plain
    → (suc i ≤ s.next → s.next ≤ i + size → Meets Q rem)
    → (suc i ≤ s.next → s.next ≤ i + size → Meets Q str)
    → Meets Q (elim k as (λ _. M R) [ no_span ↦ plain | comment ↦ rem | literal ↦ str ])
kind-Meets Q no_span s i size e t hp hc hl = hp
kind-Meets Q comment s i size e (nothing f) hp hc hl = absurd (cc)
kind-Meets Q comment s i size e (bytes p q) hp hc hl = hc p q
kind-Meets Q literal s i size e (nothing f) hp hc hl = absurd (cc)
kind-Meets Q literal s i size e (bytes p q) hp hc hl = hl p q

pub spanned-Meets :
    {R : Type 0} (Q : R → Type 0) (scanned i : ℕ) (rest : Bytes) {plain : M R}
    {rem str : Span → M R}
    → Meets Q plain
    → ((s : Span) → suc i ≤ s.next → s.next ≤ i + length rest → Meets Q (rem s))
    → ((s : Span) → suc i ≤ s.next → s.next ≤ i + length rest → Meets Q (str s))
    → Meets Q (
        scan_context scanned
        >> (scan_lexical_span i rest >>= λ s. elim s.kind [
          | no_span ↦ plain
          | comment ↦ rem s
          | literal ↦ str s
        ]))
spanned-Meets Q scanned i rest hp hc hl = then-Meets Q (scan_context scanned) (
    bind-Meets Q (scan_lexical_span i rest) (scan_lexical_span-Taken i rest)
      (λ s t. kind-Meets Q s.kind s i (length rest) refl t hp (hc s) (hl s)))

-- Where no comment and no literal begins, a round is its plain part.
unfoldable pub starts_span : ℕ → Bool
starts_span c = c == b'/' || is_quote c

pub scan_lexical_span-none :
    (i c : ℕ) (cs : Bytes)
    → starts_span c ≡ false
    → Meets (λ s. s.kind ≡ no_span) (scan_lexical_span i (c ∷ cs))
unfolding scan_lexical_span literal_span starts_span
scan_lexical_span-none i c [] h k s d e = ground arith
scan_lexical_span-none i c (x ∷ cs) h k s d e = ground arith

plain_kind :
    {R : Type 0} (Q : R → Type 0) (k : LexicalSpanKind) (plain rem str : M R)
    → k ≡ no_span
    → Meets Q plain
    → Meets Q (elim k as (λ _. M R) [ no_span ↦ plain | comment ↦ rem | literal ↦ str ])
plain_kind Q no_span _ _ _ e h = h
plain_kind Q comment _ _ _ e h = absurd (cc)
plain_kind Q literal _ _ _ e h = absurd (cc)

pub unspanned-Meets :
    {R : Type 0} (Q : R → Type 0) (scanned i c : ℕ) (cs : Bytes) (plain : M R)
    (rem str : Span → M R)
    → starts_span c ≡ false
    → Meets Q plain
    → Meets Q (
        scan_context scanned
        >> (scan_lexical_span i (c ∷ cs) >>= λ s. elim s.kind [
          | no_span ↦ plain
          | comment ↦ rem s
          | literal ↦ str s
        ]))
unspanned-Meets Q scanned i c cs plain rem str h hp = then-Meets Q (scan_context scanned) (
    bind-Meets Q (scan_lexical_span i (c ∷ cs)) (scan_lexical_span-none i c cs h)
      (λ s e. plain_kind Q s.kind plain (rem s) (str s) e hp))

-- A comment or a literal that is found, complete or not, ends behind its first byte and inside the text, so
-- that every pass over a text moves on and ends.
pub scan_lexical_span_progress :
    (start : ℕ) (rest : Bytes) (s : Span) (c d : Context)
    → scan_lexical_span start rest c ≡ ok (s, d)
    → (s.kind ≡ no_span) ⊎ ((start < s.next) × (s.next ≤ start + length rest))
scan_lexical_span_progress start rest s c d h = elim (scan_lexical_span-Taken start rest c s d h) [
  | nothing e ↦ inl e
  | bytes p q ↦ inr (omega (arith, p), q)
]
