-- ===== src/Lsp/Headers/Found.antt =====
-- Where the passes over a declaration stop: the token that was sought, the name behind it, and the brace
-- that opens the body.
use portolan.Prelude.{
  ℕ, ◌+◌, ◌-◌, ◌≤◌, Bool, true, false, ◌&&◌, Option, none, some, List, ◌∷◌, Bytes, length, drop,
  ◌≡◌, ap, arith, Bool-cases, Option-cases, inl, inr,
}
use portolan.Context.{check}
use portolan.Context.Meets.{Meets, return-Meets, then-Meets}
use portolan.Text.Utf8.{decode_rune}
use portolan.Text.Space.{is_space}
use portolan.Lsp.Lexical.{Span, byte_at, Round, between}
use portolan.Lsp.Lexical.Tokens.{
  Depths, outside, nest, at_top, token_here, token_byte, token_round, declaration_token_offset,
  behind, rune_rest, trivia_round, skip_declaration_trivia,
}
use portolan.Lsp.Lexical.Body.{
  Nesting, start_nesting, value, declaration_keyword_at, body_byte, body_here, body_round,
  declaration_body_offset,
}
use portolan.Lsp.Lexical.Spans.{spanned-Meets}
use portolan.Lsp.Lexical.Loop.{Owes, scan-Meets, between_on}

-- The loop is at `i`, behind `start`, and `rest` is what it still has before it.
record At (start end : ℕ) (source : Bytes) (i : ℕ) (rest : Bytes) : Type 0 where
  pub from : start ≤ i
  pub left : between i end source ≡ rest

module _ (source : Bytes) (start end : ℕ) where
  At-on :
      (i more c : ℕ) (cs : Bytes)
      → At start end source i (c ∷ cs)
      → At start end source (i + 1 + more) (drop more cs)
  At-on i more c cs a = record {
    from = omega (arith, a.from);
    left = between_on i more end source a.left;
  }

  module _ {S : Type 0} (Q : Option ℕ → Type 0) where
    abbrev AtOwes : ℕ → Bytes → Round S (Option ℕ) → Type 0
    AtOwes i cs = Owes (λ j s rest. At start end source j rest) Q i cs

    behind-AtOwes :
        (i c : ℕ) (cs : Bytes) (s : Span) (t : S)
        → Q none
        → At start end source i (c ∷ cs)
        → AtOwes i cs (behind i s t none)
    unfolding behind
    behind-AtOwes i c cs s t q a = elim (Bool-cases s.complete) [
      | inl e ↦ rw e (At-on i (s.next - i - 1) c cs a)
      | inr e ↦ rw e q
    ]

  -- One of the tokens stands at the offset.
  abbrev pub FoundToken : List Bytes → Option ℕ → Type 0
  FoundToken tokens none = Unit
  FoundToken tokens (some k) =
      (start ≤ k) × (token_here source tokens k (between k end source) ≡ true)

  token_byte-AtOwes :
      (tokens : List Bytes) (i : ℕ) (d : Depths) (c : ℕ) (cs : Bytes)
      → At start end source i (c ∷ cs)
      → AtOwes (FoundToken tokens) i cs (token_byte source tokens i d (c ∷ cs))
  unfolding token_byte byte_at
  token_byte-AtOwes tokens i d c cs a =
      elim (Bool-cases (at_top (nest c d) && token_here source tokens i (c ∷ cs))) [
        | inl e ↦ rw (byte_at, e) (a.from, rw a.left (ground (arith, e)))
        | inr e ↦ rw (byte_at, e) (At-on i (rune_rest (c ∷ cs)) c cs a)
      ]

  pub declaration_token_offset-FoundToken :
      (tokens : List Bytes)
      → Meets (FoundToken tokens) (declaration_token_offset source start end tokens)
  unfolding declaration_token_offset token_round
  declaration_token_offset-FoundToken tokens =
      scan-Meets (token_round source tokens start) (λ d. _) (λ i d rest. At start end source i rest)
        (FoundToken tokens) (λ i d a. then-Meets _ check (return-Meets _ none tt))
        (λ i d c cs a.
          spanned-Meets (AtOwes (FoundToken tokens) i cs) (i - start) i (c ∷ cs)
            (return-Meets _ _ (token_byte-AtOwes tokens i d c cs a))
            (λ s low high. return-Meets _ _ (behind-AtOwes (FoundToken tokens) i c cs s d tt a))
            (λ s low high. return-Meets _ _ (behind-AtOwes (FoundToken tokens) i c cs s d tt a)))
        (between start end source) start 0 outside
        (record { from = omega arith; left = ap (λ j. between j end source) (omega arith) })

  -- The text at the offset begins with a rune that is no space.
  abbrev pub FoundName : Option ℕ → Type 0
  FoundName none = Unit
  FoundName (some k) = (start ≤ k) × (is_space (decode_rune (between k end source)).0 ≡ false)

  pub skip_declaration_trivia-FoundName : Meets FoundName (skip_declaration_trivia source start end)
  unfolding skip_declaration_trivia trivia_round
  skip_declaration_trivia-FoundName =
      scan-Meets (trivia_round start) (λ u. _) (λ i u rest. At start end source i rest) FoundName
        (λ i u a. return-Meets _ none tt)
        (λ i u c cs a.
          spanned-Meets (AtOwes FoundName i cs) (i - start) i (c ∷ cs)
            (return-Meets _ _ (elim (Bool-cases (is_space (decode_rune (c ∷ cs)).0)) [
              | inl e ↦ rw e (At-on i (rune_rest (c ∷ cs)) c cs a)
              | inr e ↦ rw e (a.from, rw a.left e)
            ]))
            (λ s low high. return-Meets _ _ (behind-AtOwes FoundName i c cs s u tt a))
            (λ s low high. return-Meets _ _ tt))
        (between start end source) start 0 tt
        (record { from = omega arith; left = ap (λ j. between j end source) (omega arith) })

  -- A brace stands at the offset.
  abbrev pub FoundBody : Option ℕ → Type 0
  FoundBody none = Unit
  FoundBody (some k) = (start ≤ k) × (byte_at (between k end source) 0 ≡ b'{')

  body_byte-AtOwes :
      (arrow : Bool) (i c r more : ℕ) (cs : Bytes) (n : Nesting)
      → At start end source i (c ∷ cs)
      → At start end source (i + 1 + more) (drop more cs)
      → AtOwes FoundBody i cs (body_byte arrow i c r more n)
  unfolding body_byte byte_at
  body_byte-AtOwes arrow i c r more cs n a p = ground (arith, a.from, a.left, p)

  body_here-AtOwes :
      (i c : ℕ) (cs : Bytes) (n : Nesting)
      → At start end source i (c ∷ cs)
      → AtOwes FoundBody i cs (body_here source start i n (c ∷ cs))
  unfolding body_here byte_at
  body_here-AtOwes i c cs n a = elim (Option-cases (declaration_keyword_at source i (c ∷ cs))) [
    | inl e ↦
        rw (body_here, e) (body_byte-AtOwes _ i c _ _ cs n a (At-on i (rune_rest (c ∷ cs)) c cs a))
    | inr (k, e) ↦ rw (body_here, e) (At-on i (length k - 1) c cs a)
  ]

  pub declaration_body_offset-FoundBody : Meets FoundBody (declaration_body_offset source start end)
  unfolding declaration_body_offset body_round
  declaration_body_offset-FoundBody =
      scan-Meets (body_round source start) (λ n. _) (λ i n rest. At start end source i rest)
        FoundBody (λ i n a. then-Meets _ check (return-Meets _ none tt))
        (λ i n c cs a.
          spanned-Meets (AtOwes FoundBody i cs) (i - start) i (c ∷ cs)
            (return-Meets _ _ (body_here-AtOwes i c cs n a))
            (λ s low high. return-Meets _ _ (behind-AtOwes FoundBody i c cs s n tt a))
            (λ s low high.
              return-Meets _ _ (behind-AtOwes FoundBody i c cs s (record n { last = value }) tt a)))
        (between start end source) start 0 start_nesting
        (record { from = omega arith; left = ap (λ j. between j end source) (omega arith) })
