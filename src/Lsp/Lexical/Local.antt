-- ===== src/Lsp/Lexical/Local.antt =====
-- A comment or a rune that lies in front of a cut is the same whether or not the text is cut there.
use portolan.Prelude.{
  ℕ, zero, suc, ◌+◌, ◌≤◌, Bool, true, false, not, ◌&&◌, [], ◌∷◌, Bytes, ◌==◌, if◌then◌else◌, take,
  ◌≡◌, ◌≢◌, refl, ◌⊎◌, inl, inr, arith, take_nil,
}
use portolan.Context.{ok, Context, return}
use portolan.Context.Success.{passed, passed_if, given}
use portolan.Context.Meets.{Meets, return-Meets, if-Meets, then-Meets}
use portolan.Text.Utf8.{decode_rune}
use portolan.Lsp.Lexical.{
  comment, literal, Span, scan_context, line_comment, block_comment, quoted, is_quote, literal_span,
  scan_lexical_span,
}
use portolan.Lsp.Lexical.Spans.{line_comment-EndsIn, block_comment-EndsIn}

pub decode_rune-take :
    (c : ℕ) (cs : Bytes) (k : ℕ)
    → (decode_rune (c ∷ cs)).1 ≤ k
    → decode_rune (take k (c ∷ cs)) ≡ decode_rune (c ∷ cs)
unfolding decode_rune
decode_rune-take c cs zero h = absurd (ground arith)
decode_rune-take c [] (suc k) h = rw (take_nil k) refl
decode_rune-take c (d ∷ cs) (suc zero) h = ground arith
decode_rune-take c (d ∷ []) (suc (suc k)) h = rw (take_nil k) refl
decode_rune-take c (d ∷ e ∷ cs) (suc (suc zero)) h = ground arith
decode_rune-take c (d ∷ e ∷ []) (suc (suc (suc k))) h = rw (take_nil k) refl
decode_rune-take c (d ∷ e ∷ f ∷ cs) (suc (suc (suc zero))) h = ground arith
decode_rune-take c (d ∷ e ∷ f ∷ cs) (suc (suc (suc (suc k)))) h = refl

-- The comment in front, cut behind its end.
line_comment-take :
    (start n : ℕ) (rest : Bytes) (k : ℕ) (c : Context) (s : Span) (d : Context)
    → line_comment start n rest c ≡ ok (s, d)
    → s.next ≤ start + n + k
    → Meets (λ t. t ≡ s) (line_comment start n (take k rest))
unfolding line_comment
line_comment-take start n [] k c s d h short =
    rw (take_nil k) (return-Meets (λ t. t ≡ s) _ (given h))
line_comment-take start n (x ∷ xs) k c s d h short =
    let p =
      passed (scan_context n)
        (λ _.
          if x == b'\n'
          then return (record { next = start + n + 1; kind = comment; complete = true })
          else line_comment start (n + 1) xs)
        c h in
    elim k
        as (λ k.
          s.next ≤ start + n + k → Meets (λ t. t ≡ s) (line_comment start n (take k (x ∷ xs)))) [
            | zero ↦ λ short. elim (passed_if (x == b'\n') _ _ p.between p.behind) [
              | inl e ↦ let q = given e.1 in absurd (ground (arith, q))
              | inr e ↦
                  let q = line_comment-EndsIn start (n + 1) xs p.between s d e.1 in
                  absurd (omega (arith, q.behind_low))
            ]
            | suc j ↦ λ short.
                then-Meets _ (scan_context n)
                  (elim (passed_if (x == b'\n') _ _ p.between p.behind) [
                    | inl e ↦ rw e.0 (return-Meets (λ t. t ≡ s) _ (given e.1))
                    | inr e ↦ rw e.0 (
                        line_comment-take start (n + 1) xs j p.between s d e.1
                          (omega (arith, short)))
                  ])
          ]
      short

block_comment-Closed :
    (start n : ℕ) (rest : Bytes)
    → Meets (λ s. (s.complete ≡ false) ⊎ (start + n + 2 ≤ s.next)) (block_comment start n rest)
unfolding block_comment
block_comment-Closed start n [] = return-Meets _ _ (inl refl)
block_comment-Closed start n (x ∷ []) = return-Meets _ _ (inl refl)
block_comment-Closed start n (x ∷ y ∷ xs) = then-Meets _ (scan_context n) (
    if-Meets _ (x == b'*' && y == b'/') (λ e. return-Meets _ _ (inr (omega arith)))
      (λ e c s d h. elim (block_comment-Closed start (n + 1) (y ∷ xs) c s d h) [
        | inl p ↦ inl p
        | inr p ↦ inr (omega (arith, p))
      ]))

block_comment-take :
    (start n : ℕ) (rest : Bytes) (k : ℕ) (c : Context) (s : Span) (d : Context)
    → block_comment start n rest c ≡ ok (s, d)
    → s.complete ≡ true
    → s.next ≤ start + n + k
    → Meets (λ t. t ≡ s) (block_comment start n (take k rest))
unfolding block_comment
block_comment-take start n [] k c s d h full short = let q = given h in absurd (ground arith)
block_comment-take start n (x ∷ []) k c s d h full short = let q = given h in absurd (ground arith)
block_comment-take start n (x ∷ y ∷ xs) zero c s d h full short =
    elim (block_comment-Closed start n (x ∷ y ∷ xs) c s d h) [
      | inl p ↦ absurd (cc)
      | inr p ↦ absurd (omega (arith, p, short))
    ]
block_comment-take start n (x ∷ y ∷ xs) (suc zero) c s d h full short =
    elim (block_comment-Closed start n (x ∷ y ∷ xs) c s d h) [
      | inl p ↦ absurd (cc)
      | inr p ↦ absurd (omega (arith, p, short))
    ]
block_comment-take start n (x ∷ y ∷ xs) (suc (suc j)) c s d h full short =
    let p =
      passed (scan_context n)
        (λ _.
          if x == b'*' && y == b'/'
          then return (record { next = start + n + 2; kind = comment; complete = true })
          else block_comment start (n + 1) (y ∷ xs))
        c h in
    then-Meets _ (scan_context n)
      (elim (passed_if (x == b'*' && y == b'/') _ _ p.between p.behind) [
        | inl e ↦ rw e.0 (return-Meets (λ t. t ≡ s) _ (given e.1))
        | inr e ↦ rw e.0 (
            block_comment-take start (n + 1) (y ∷ xs) (suc j) p.between s d e.1 full
              (omega (arith, short)))
      ])

-- A comment takes two bytes at least.
abbrev Opened : ℕ → Span → Type 0
Opened i s = (s.kind ≡ comment → ⊥) ⊎ (i + 2 ≤ s.next)

quoted-Opened :
    (q i n : ℕ) (escaped : Bool) (rest : Bytes)
    → Meets (λ s. s.kind ≡ literal) (quoted q i n escaped rest)
unfolding quoted
quoted-Opened q i n escaped [] = return-Meets _ _ refl
quoted-Opened q i n true (x ∷ xs) = quoted-Opened q i (n + 1) false xs
quoted-Opened q i n false (x ∷ xs) = then-Meets _ (scan_context n) (
    if-Meets _ (not (x == b'\\') && x == q) (λ _. return-Meets _ _ refl)
      (λ _. quoted-Opened q i (n + 1) (x == b'\\') xs))

literal_span-ne-comment :
    (i x : ℕ) (xs : Bytes) → Meets (λ s. s.kind ≢ comment) (literal_span i x xs)
unfolding literal_span
literal_span-ne-comment i x xs =
    if-Meets _ (is_quote x)
      (λ _ c s d h e. let q = quoted-Opened x i 1 false xs c s d h in absurd (cc))
      (λ _. return-Meets _ _ (λ e. absurd (cc)))

scan_lexical_span-Opened : (i : ℕ) (rest : Bytes) → Meets (Opened i) (scan_lexical_span i rest)
unfolding scan_lexical_span
scan_lexical_span-Opened i [] = return-Meets _ _ (inl (λ e. absurd (cc)))
scan_lexical_span-Opened i (x ∷ []) = λ c s d h. inl (literal_span-ne-comment i x [] c s d h)
scan_lexical_span-Opened i (x ∷ y ∷ xs) =
    if-Meets _ (x == b'/' && y == b'/')
      (λ _ c s d h. inr (line_comment-EndsIn i 2 xs c s d h).behind_low)
      (λ _.
        if-Meets _ (x == b'/' && y == b'*')
          (λ _ c s d h. inr (block_comment-EndsIn i 2 xs c s d h).behind_low)
          (λ _ c s d h. inl (literal_span-ne-comment i x (y ∷ xs) c s d h)))

too_short :
    (i k : ℕ) (s : Span) {P : Type 0} → Opened i s → s.kind ≡ comment → s.next ≤ i + k → k ≤ 1 → P
too_short i k s (inl p) cmt short few = absurd (p cmt)
too_short i k s (inr p) cmt short few = absurd (omega (arith, p, short))

-- The whole scanner, where it finds a comment that ends in front of the cut.
pub scan_lexical_span-take :
    (i : ℕ) (rest : Bytes) (k : ℕ) (c : Context) (s : Span) (d : Context)
    → scan_lexical_span i rest c ≡ ok (s, d)
    → s.kind ≡ comment
    → s.complete ≡ true
    → s.next ≤ i + k
    → Meets (λ t. t ≡ s) (scan_lexical_span i (take k rest))
unfolding scan_lexical_span
scan_lexical_span-take i [] k c s d h cmt full short = let q = given h in absurd (ground arith)
scan_lexical_span-take i (x ∷ []) k c s d h cmt full short =
    absurd (literal_span-ne-comment i x [] c s d h cmt)
scan_lexical_span-take i (x ∷ y ∷ xs) zero c s d h cmt full short =
    too_short i _ s (scan_lexical_span-Opened i (x ∷ y ∷ xs) c s d h) cmt short (omega arith)
scan_lexical_span-take i (x ∷ y ∷ xs) (suc zero) c s d h cmt full short =
    too_short i _ s (scan_lexical_span-Opened i (x ∷ y ∷ xs) c s d h) cmt short (omega arith)
scan_lexical_span-take i (x ∷ y ∷ xs) (suc (suc j)) c s d h cmt full short =
    elim (passed_if (x == b'/' && y == b'/') _ _ c h) [
      | inl e ↦ rw e.0 (line_comment-take i 2 xs j c s d e.1 (omega (arith, short)))
      | inr e ↦ rw e.0 (elim (passed_if (x == b'/' && y == b'*') _ _ c e.1) [
        | inl f ↦ rw f.0 (block_comment-take i 2 xs j c s d f.1 full (omega (arith, short)))
        | inr f ↦ absurd (literal_span-ne-comment i x (y ∷ xs) c s d f.1 cmt)
      ])
    ]
