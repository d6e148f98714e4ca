-- ===== src/Lsp/Headers/Lockstep.antt =====
-- White space and comments that `skipDeclarationTrivia` passes are one due blank for
-- `normalizeDeclarationHeader`, also where the text is cut behind them.
use portolan.Prelude.{
  ℕ, zero, suc, ◌+◌, ◌-◌, ◌≤◌, ◌<◌, Bool, true, false, not, Option, none, some, [], ◌∷◌, Bytes,
  if◌then◌else◌, take, drop, ◌≡◌, refl, sym, ap, ◌∙◌, ◌⊎◌, inl, inr, arith, Bool-cases, subst,
}
use portolan.Context.{ok, Context, M, return}
use portolan.Context.Success.{passed, given}
use portolan.Context.Meets.{Meets, return-Meets, then-Meets, bind-Meets}
use portolan.Text.Utf8.{decode_rune, decode_rune_size}
use portolan.Text.Space.{is_space}
use portolan.Lsp.Lexical.{
  LexicalSpanKind, no_span, comment, literal, Span, scan_context, scan_lexical_span, Round, done,
  next, scan,
}
use portolan.Lsp.Lexical.Tokens.{behind, rune_rest, trivia_round}
use portolan.Lsp.Lexical.Spans.{starts_span}
use portolan.Lsp.Lexical.Local.{decode_rune-take, scan_lexical_span-take}
use portolan.Lsp.Lexical.Loop.{scan-Meets}
use portolan.Lsp.Headers.{Normalized, normalize_rune, normalize_round, normalize_end}
use portolan.Lsp.Headers.Growth.{plain_round, Goes, step-Goes}

abbrev pub held : Bytes → Bool → Normalized
held w b = record { written = w; pending_space = b }

space_no_span :
    (c : ℕ) (cs : Bytes) → is_space (decode_rune (c ∷ cs)).0 ≡ true → starts_span c ≡ false
unfolding starts_span decode_rune is_space
space_no_span c [] h = ground arith
space_no_span c (x ∷ cs) h = elim (Bool-cases (starts_span c)) [
  | inl e ↦ absurd (ground (arith, e))
  | inr e ↦ e
]

-- A round that goes on behind a space: so does the round over the cut text.
space_round :
    (start i : ℕ) (w : Bytes) (b : Bool) (c : ℕ) (cs : Bytes) (k : ℕ)
    → is_space (decode_rune (c ∷ cs)).0 ≡ true
    → (decode_rune (c ∷ cs)).1 ≤ suc k
    → Meets
        (λ o. o ≡ next (rune_rest (c ∷ cs)) (held w true))
        (normalize_round start i (held w b) (c ∷ take k cs))
space_round start i w b c cs k space short k' o d e =
    plain_round start i (held w b) c (take k cs) (space_no_span c cs space) k' o d e ∙ spaced
  where
    spaced : normalize_rune (held w b) (c ∷ take k cs) ≡ next (rune_rest (c ∷ cs)) (held w true)
    spaced = unfold normalize_rune in rw (decode_rune-take c cs (suc k) short, space) refl

comment_round :
    (start i : ℕ) (w : Bytes) (b : Bool) (c : ℕ) (cs : Bytes) (k : ℕ) (s : Span) (ctx d : Context)
    → scan_lexical_span i (c ∷ cs) ctx ≡ ok (s, d)
    → s.kind ≡ comment
    → s.complete ≡ true
    → s.next ≤ i + suc k
    → Meets
        (λ o. o ≡ next (s.next - i - 1) (held w true))
        (normalize_round start i (held w b) (c ∷ take k cs))
unfolding normalize_round behind
comment_round start i w b c cs k s ctx d h kind full short =
    then-Meets _ (scan_context (i - start)) (
      bind-Meets _ (scan_lexical_span i (c ∷ take k cs))
        (scan_lexical_span-take i (c ∷ cs) (suc k) ctx s d h kind full short)
        (λ t e.
          let kind' : t.kind ≡ comment = ap (λ (x : Span). x.kind) e ∙ kind in
          let full' : t.complete ≡ true = ap (λ (x : Span). x.complete) e ∙ full in
          let next' : t.next ≡ s.next = ap (λ (x : Span). x.next) e in
          rw kind' (rw (behind, full', next') (return-Meets _ _ refl))))

-- What a round of `skipDeclarationTrivia` says: it goes on, and then so does the other loop, or it has
-- found the offset it is at.
data Passes (start i : ℕ) (c : ℕ) (cs : Bytes) (o : Round (Unit {0}) (Option ℕ)) : Type 0 where
  goes_on :
      (more : ℕ)
      → o ≡ next more tt
      → ((w : Bytes) (b : Bool) (k : ℕ)
          → more ≤ k
          → Meets
              (λ q. q ≡ next more (held w true))
              (normalize_round start i (held w b) (c ∷ take k cs)))
      → Passes start i c cs o
  arrives : o ≡ done (some i) → Passes start i c cs o
  fails : o ≡ done none → Passes start i c cs o

rune-Passes :
    (start i : ℕ) (c : ℕ) (cs : Bytes)
    → Passes start i c cs (
        if not (is_space (decode_rune (c ∷ cs)).0)
        then done (some i)
        else next (rune_rest (c ∷ cs)) tt)
rune-Passes start i c cs = elim (Bool-cases (is_space (decode_rune (c ∷ cs)).0)) [
  | inl e ↦ rw e (
      goes_on (rune_rest (c ∷ cs)) refl (λ w b k short.
        space_round start i w b c cs k e (omega (arith, short, decode_rune_size c cs))))
  | inr e ↦ rw e (arrives refl)
]

comment-Passes :
    (start i : ℕ) (c : ℕ) (cs : Bytes) (s : Span) (ctx d : Context)
    → s.kind ≡ comment
    → scan_lexical_span i (c ∷ cs) ctx ≡ ok (s, d)
    → Passes start i c cs (behind i s tt none)
unfolding behind
comment-Passes start i c cs s ctx d kind h = elim (Bool-cases s.complete) [
  | inl full ↦ rw full (
      goes_on (s.next - i - 1) refl (λ w b k short.
        comment_round start i w b c cs k s ctx d h kind full (omega (arith, short))))
  | inr e ↦ rw e (fails refl)
]

round-Passes :
    (s0 start i : ℕ) (c : ℕ) (cs : Bytes)
    → Meets (Passes start i c cs) (trivia_round s0 i tt (c ∷ cs))
unfolding trivia_round
round-Passes s0 start i c cs = then-Meets _ (scan_context (i - s0)) (λ ctx o d h.
    let p = passed (scan_lexical_span i (c ∷ cs)) _ ctx h in
    of_kind p.value.kind p.value p.between d o refl (ctx, p.before) p.behind)
  where
    of_kind :
        (kind : LexicalSpanKind) (s : Span) (ctx d : Context) (o : Round (Unit {0}) (Option ℕ))
        → s.kind ≡ kind
        → (x : Context) × (scan_lexical_span i (c ∷ cs) x ≡ ok (s, ctx))
        → elim kind as (λ _. M (Round (Unit {0}) (Option ℕ))) [
          | no_span ↦ return (
              if not (is_space (decode_rune (c ∷ cs)).0)
              then done (some i)
              else next (rune_rest (c ∷ cs)) tt)
          | comment ↦ return (behind i s tt none)
          | literal ↦ return (done none)
        ]
            ctx
          ≡ ok (o, d)
        → Passes start i c cs o
    of_kind no_span s ctx d o e f h =
        subst (Passes start i c cs) (given h) (rune-Passes start i c cs)
    of_kind comment s ctx d o e f h =
        subst (Passes start i c cs) (given h) (comment-Passes start i c cs s f.0 ctx e f.1)
    of_kind literal s ctx d o e f h = fails (sym (given h))

Least : ℕ → Option ℕ → Type 0
Least m none = Unit
Least m (some n) = m ≤ n

abbrev pub trivia_scan : ℕ → ℕ → ℕ → Bytes → M (Option ℕ)
trivia_scan s0 i more rest = scan (trivia_round s0) (λ u. return none) i more tt rest

trivia_scan-Least :
    (s0 i more : ℕ) (rest : Bytes) → Meets (Least (i + more)) (trivia_scan s0 i more rest)
unfolding Least
trivia_scan-Least s0 i more rest =
    scan-Meets (trivia_round s0) (λ u. return none) (λ j u r. i + more ≤ j) (Least (i + more))
      (λ j u h. return-Meets _ none tt)
      (λ j u c cs h k o d e. elim (round-Passes s0 s0 j c cs k o d e) [
        | goes_on m p q ↦ rw p (omega (arith, h))
        | arrives p ↦ rw p h
        | fails p ↦ rw p tt
      ])
      rest i more tt (omega arith)

module _ (Q : Option Bytes → Type 0) (s0 start n : ℕ) (w : Bytes) where
  -- The text that is left at `n`, of `k` bytes from `i` on.
  abbrev pub left_at : ℕ → ℕ → Bytes → Bytes
  left_at i k rest = take (i + k - n) (drop (n - i) rest)

  left_on : (i k c : ℕ) (cs : Bytes) → suc i ≤ n → left_at i (suc k) (c ∷ cs) ≡ left_at (i + 1) k cs
  left_on i k c cs h =
      let e : n - i ≡ suc (n - (i + 1)) = omega arith in
      let f : i + suc k - n ≡ i + 1 + k - n = omega arith in rw (e, f) refl

  arrived :
      (i k c : ℕ) (cs : Bytes) (b : Bool)
      → i ≡ n
      → (b ≡ true) ⊎ (i + 0 < n)
      → Goes Q start n (held w true) (left_at i (suc k) (c ∷ cs))
      → Goes Q start i (held w b) (c ∷ take k cs)
  arrived i k c cs b e (inr h) goes = absurd (omega (arith, e))
  arrived i k c cs b e (inl h) goes =
      let z : n - i ≡ 0 = omega (arith, e) in
      let f : i + suc k - n ≡ suc k = omega (arith, e) in rw (h, e) (rw (z, f) at goes)

  abbrev pub Lockstep : ℕ → ℕ → ℕ → Bool → Bytes → Type 0
  Lockstep i more k b rest =
      (c d : Context)
      → trivia_scan s0 i more rest c ≡ ok (some n, d)
      → n < i + k
      → (b ≡ true) ⊎ (i + more < n)
      → Goes Q start n (held w true) (left_at i k rest)
      → Meets Q (scan (normalize_round start) normalize_end i more (held w b) (take k rest))

  pub lockstep : (rest : Bytes) (i more k : ℕ) (b : Bool) → Lockstep i more k b rest
  unfolding scan Least
  lockstep [] i more k b c d h low due goes = absurd (cc (given h))
  lockstep (x ∷ xs) i zero zero b c d h low due goes =
      let p = trivia_scan-Least s0 i 0 (x ∷ xs) c (some n) d h in absurd (omega (arith, p, low))
  lockstep (x ∷ xs) i (suc more) zero b c d h low due goes =
      let p = trivia_scan-Least s0 i (suc more) (x ∷ xs) c (some n) d h in
      absurd (omega (arith, p, low))
  lockstep (x ∷ xs) i (suc more) (suc k) b c d h low due goes =
      let p = trivia_scan-Least s0 i (suc more) (x ∷ xs) c (some n) d h in
      lockstep xs (i + 1) more k b c d h (omega (arith, low))
        (elim due [ inl e ↦ inl e | inr e ↦ inr (omega (arith, e)) ])
        (subst (Goes Q start n (held w true)) (left_on i k x xs (omega (arith, p))) goes)
  lockstep (x ∷ xs) i zero (suc k) b c d h low due goes =
      let p = passed (trivia_round s0 i tt (x ∷ xs)) _ c h in
      elim (round-Passes s0 start i x xs c p.value p.between p.before) [
        | goes_on m e q ↦
            let on : trivia_scan s0 (i + 1) m xs p.between ≡ ok (some n, d) = rw e at p.behind in
            let l = trivia_scan-Least s0 (i + 1) m xs p.between (some n) d on in
            step-Goes Q start i (held w b) (held w true) x (take k xs) m
              (q w b k (omega (arith, l, low)))
              (lockstep xs (i + 1) m k true p.between d on (omega (arith, low)) (inl refl)
                (subst (Goes Q start n (held w true)) (left_on i k x xs (omega (arith, l))) goes))
        | arrives e ↦
            let at : some i ≡ some n = given (rw e at p.behind) in
            arrived i k x xs b (ground arith) due goes
        | fails e ↦ let never : none ≡ some n = given (rw e at p.behind) in absurd (cc)
      ]
