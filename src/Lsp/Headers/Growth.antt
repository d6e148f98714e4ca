-- ===== src/Lsp/Headers/Growth.antt =====
-- A word in front of the loop is copied as it is, and what is written stays in front.
use portolan.Prelude.{
  ℕ, ◌+◌, ◌-◌, Bool, true, false, ◌&&◌, Option, none, some, [], ◌∷◌, ◌++◌, Bytes, take, length,
  is_empty, all_of, ◌≡◌, refl, ◌∙◌, arith, Bool-cases, inl, inr, ltb, append_assoc,
}
use portolan.Context.{check}
use portolan.Context.Meets.{Meets, return-Meets, then-Meets, bind-Meets}
use portolan.Text.Utf8.{decode_rune}
use portolan.Text.Space.{is_space}
use portolan.Lsp.Lexical.{next, scan, has_prefix, is_identifier_byte}
use portolan.Lsp.Lexical.Tokens.{behind}
use portolan.Lsp.Lexical.Spans.{spanned-Meets, unspanned-Meets, starts_span}
use portolan.Lsp.Lexical.Loop.{Owes, scan-Meets}
use portolan.Lsp.Headers.{
  Normalized, append_piece, normalize_literal, normalize_rune, normalize_round, normalize_end,
}

has_prefix-append : (w t u : Bytes) → has_prefix w t ≡ true → has_prefix w (t ++ u) ≡ true
unfolding has_prefix
has_prefix-append [] t u h = refl
has_prefix-append (p ∷ w) [] u h = absurd (cc)
has_prefix-append (p ∷ w) (c ∷ t) u h = ground (arith, has_prefix-append w t u)

has_prefix-append_piece :
    (w : Bytes) (h : Normalized) (piece : Bytes)
    → has_prefix w h.written ≡ true
    → has_prefix w (append_piece h piece).written ≡ true
unfolding append_piece
has_prefix-append_piece w h piece e =
    ground
      (arith, has_prefix-append w h.written (b' ' ∷ piece), has_prefix-append w h.written piece)

-- The header begins with `w`.
abbrev pub Begins : Bytes → Option Bytes → Type 0
Begins w none = Unit
Begins w (some t) = has_prefix w t ≡ true

abbrev BeginsAt : Bytes → ℕ → Normalized → Bytes → Type 0
BeginsAt w i h rest = has_prefix w h.written ≡ true

round-Begins :
    (w : Bytes) (start i : ℕ) (h : Normalized) (rest cs : Bytes)
    → has_prefix w h.written ≡ true
    → Meets (Owes (BeginsAt w) (Begins w) i cs) (normalize_round start i h rest)
unfolding normalize_round normalize_rune normalize_literal behind
round-Begins w start i h rest cs e =
    spanned-Meets (Owes (BeginsAt w) (Begins w) i cs) (i - start) i rest
      (return-Meets _ _
        (ground (arith, e, has_prefix-append_piece w h (take (decode_rune rest).1 rest))))
      (λ s low high. return-Meets _ _ (ground (arith, e)))
      (λ s low high.
        return-Meets _ _ (ground (arith, e, has_prefix-append_piece w h (take (s.next - i) rest))))

end-Begins :
    (w : Bytes) (h : Normalized)
    → has_prefix w h.written ≡ true
    → Meets (Begins w) (normalize_end h)
unfolding normalize_end
end-Begins w h e =
    then-Meets _ check (
      return-Meets _ _
        (elim (Bool-cases (is_empty h.written)) [ inl p ↦ rw p tt | inr p ↦ rw p e ]))

pub scan-Begins :
    (w : Bytes) (start : ℕ) (rest : Bytes) (i more : ℕ) (h : Normalized)
    → has_prefix w h.written ≡ true
    → Meets (Begins w) (scan (normalize_round start) normalize_end i more h rest)
scan-Begins w start rest i more h e =
    scan-Meets (normalize_round start) normalize_end (BeginsAt w) (Begins w)
      (λ i h e. end-Begins w h e) (λ i h c cs e. round-Begins w start i h (c ∷ cs) cs e) rest i more
      h e

-- An ASCII letter, digit, `_` or `$`.
unfoldable pub is_word_byte : ℕ → Bool
unfolding is_identifier_byte
is_word_byte b = is_identifier_byte b && ltb b 0x80

word_byte_plain :
    (b : ℕ) (cs : Bytes)
    → is_word_byte b ≡ true
    → (starts_span b ≡ false) × (decode_rune (b ∷ cs) ≡ (b, 1)) × (is_space b ≡ false)
unfolding is_word_byte starts_span decode_rune is_space
word_byte_plain b cs h = (ground arith, ground arith, ground arith)

append_piece_twice :
    (h : Normalized) (b : ℕ) (w : Bytes)
    → append_piece (append_piece h (b ∷ [])) w ≡ append_piece h (b ∷ w)
unfolding append_piece
append_piece_twice h b w =
    ground (arith, append_assoc h.written (b' ' ∷ b ∷ []) w, append_assoc h.written (b ∷ []) w)

-- A round outside comments and literals.
pub plain_round :
    (start i : ℕ) (h : Normalized) (c : ℕ) (cs : Bytes)
    → starts_span c ≡ false
    → Meets (λ o. o ≡ normalize_rune h (c ∷ cs)) (normalize_round start i h (c ∷ cs))
unfolding normalize_round
plain_round start i h c cs e =
    unspanned-Meets (λ o. o ≡ normalize_rune h (c ∷ cs)) (i - start) i c cs _ _ _ e
      (return-Meets _ (normalize_rune h (c ∷ cs)) refl)

word_rune :
    (h : Normalized) (b : ℕ) (cs : Bytes)
    → is_word_byte b ≡ true
    → normalize_rune h (b ∷ cs) ≡ next 0 (append_piece h (b ∷ []))
unfolding normalize_rune
word_rune h b cs e = let p = word_byte_plain b cs e in rw (p.1, p.2) refl

module _ (Q : Option Bytes → Type 0) (start : ℕ) where
  -- The loop at `i`, with `h` written and `rest` to go.
  abbrev pub Goes : ℕ → Normalized → Bytes → Type 0
  Goes i h rest = Meets Q (scan (normalize_round start) normalize_end i 0 h rest)

  pub step-Goes :
      (i : ℕ) (h t : Normalized) (c : ℕ) (cs : Bytes) (more : ℕ)
      → Meets (λ o. o ≡ next more t) (normalize_round start i h (c ∷ cs))
      → Meets Q (scan (normalize_round start) normalize_end (i + 1) more t cs)
      → Goes i h (c ∷ cs)
  unfolding scan
  step-Goes i h t c cs more hr goes =
      bind-Meets Q (normalize_round start i h (c ∷ cs)) hr (λ o e. rw e goes)

  copy_byte :
      (i : ℕ) (h : Normalized) (b : ℕ) (rest : Bytes)
      → is_word_byte b ≡ true
      → Goes (i + 1) (append_piece h (b ∷ [])) rest
      → Goes i h (b ∷ rest)
  copy_byte i h b rest word goes =
      step-Goes i h (append_piece h (b ∷ [])) b rest 0
        (λ k o d e.
          plain_round start i h b rest (word_byte_plain b rest word).0 k o d e
          ∙ word_rune h b rest word)
        goes

  -- A word of such bytes is one piece.
  pub copy_word :
      (i : ℕ) (h : Normalized) (b : ℕ) (w rest : Bytes)
      → all_of is_word_byte (b ∷ w) ≡ true
      → Goes (i + length (b ∷ w)) (append_piece h (b ∷ w)) rest
      → Goes i h ((b ∷ w) ++ rest)
  copy_word i h b [] rest word goes = copy_byte i h b rest (ground arith) goes
  copy_word i h b (c ∷ w) rest word goes = copy_byte i h b ((c ∷ w) ++ rest) (ground arith) (
      copy_word (i + 1) (append_piece h (b ∷ [])) c w rest (ground arith) (
        let e : i + 1 + length (c ∷ w) ≡ i + length (b ∷ c ∷ w) = omega arith in
        rw (e, append_piece_twice h b (c ∷ w)) goes))
