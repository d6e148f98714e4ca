-- ===== src/Lsp/Headers/Collapsed.antt =====
-- The normalized header: one line of text, no longer than what it was made of.
use portolan.Prelude.{
  ℕ, suc, ◌+◌, ◌-◌, ◌≤◌, Bool, true, false, not, ◌&&◌, ◌||◌, Option, none, some, [], ◌∷◌, ◌++◌,
  Bytes, if◌then◌else◌, take, length, is_empty, ◌≡◌, refl, arith, Bool-cases, inl, inr,
  length-append, length-take, length-drop,
}
use portolan.Context.{check}
use portolan.Context.Meets.{Meets, return-Meets, then-Meets}
use portolan.Text.Utf8.{decode_rune, decode_rune_size}
use portolan.Text.Space.{is_space}
use portolan.Lsp.Lexical.{Span, Round, between}
use portolan.Lsp.Lexical.Tokens.{any_of, behind}
use portolan.Lsp.Lexical.Spans.{spanned-Meets}
use portolan.Lsp.Lexical.Loop.{Owes, scan-Meets}
use portolan.Lsp.Headers.{
  Normalized, append_piece, is_line_break, normalize_literal, normalize_rune, normalize_round,
  normalize_end, normalize_declaration_header,
}

abbrev has_break : Bytes → Bool
has_break s = any_of is_line_break s

has_break-append : (s t : Bytes) → has_break (s ++ t) ≡ has_break s || has_break t
has_break-append [] t = refl
has_break-append (c ∷ s) t = ground (arith, has_break-append s t)

abbrev due : Normalized → ℕ
due h = if h.pending_space then 1 else 0

-- What is written is one line, and with what is left no longer than `size`.
record Fits (size : ℕ) (left : ℕ) (h : Normalized) : Type 0 where
  one_line : has_break h.written ≡ false
  within : length h.written + due h + left ≤ size

append_piece-Fits :
    {size left left' : ℕ} (h : Normalized) (piece : Bytes)
    → Fits size left h
    → has_break piece ≡ false
    → length piece + left' ≤ left
    → Fits size left' (append_piece h piece)
unfolding append_piece
append_piece-Fits h piece f clean short =
    elim (Bool-cases (h.pending_space && not (is_empty h.written))) [
      | inl e ↦ record {
        one_line = ground (arith, e, has_break-append h.written (b' ' ∷ piece), f.one_line);
        within = ground (arith, e, length-append h.written (b' ' ∷ piece), f.within);
      }
      | inr e ↦ record {
        one_line = ground (arith, e, has_break-append h.written piece, f.one_line);
        within = ground (arith, e, length-append h.written piece, f.within);
      }
    ]

space_break : (c : ℕ) → is_line_break c ≡ true → is_space c ≡ true
unfolding is_space
space_break c h = ground arith

-- A rune that is no space has no line break among its bytes.
rune-has_break :
    (c : ℕ) (cs : Bytes)
    → is_space (decode_rune (c ∷ cs)).0 ≡ false
    → has_break (take (decode_rune (c ∷ cs)).1 (c ∷ cs)) ≡ false
unfolding decode_rune
rune-has_break c [] h = ground (arith, space_break c)
rune-has_break c (d ∷ []) h = ground (arith, space_break c)
rune-has_break c (d ∷ e ∷ []) h = ground (arith, space_break c)
rune-has_break c (d ∷ e ∷ f ∷ cs) h = ground (arith, space_break c)

-- One line, no longer than `size`, not empty.
pub record IsHeader (size : ℕ) (t : Bytes) : Type 0 where
  pub one_line : has_break t ≡ false
  pub within : length t ≤ size
  pub written : is_empty t ≡ false

abbrev pub Header : ℕ → Option Bytes → Type 0
Header size none = Unit
Header size (some t) = IsHeader size t

abbrev FitsAt : ℕ → ℕ → Normalized → Bytes → Type 0
FitsAt size i h rest = Fits size (length rest) h

abbrev Kept : ℕ → ℕ → Bytes → Round Normalized (Option Bytes) → Type 0
Kept size i cs = Owes (FitsAt size) (Header size) i cs

space-Fits :
    {size left left' : ℕ} (h : Normalized)
    → Fits size left h
    → suc left' ≤ left
    → Fits size left' (record h { pending_space = true })
space-Fits h f short = record { one_line = f.one_line; within = ground (arith, f.within) }

normalize_rune-Kept :
    (size i : ℕ) (h : Normalized) (c : ℕ) (cs : Bytes)
    → Fits size (suc (length cs)) h
    → Kept size i cs (normalize_rune h (c ∷ cs))
unfolding normalize_rune
normalize_rune-Kept size i h c cs f =
    let z = decode_rune_size c cs in
    let n = (decode_rune (c ∷ cs)).1 in
    elim (Bool-cases (is_space (decode_rune (c ∷ cs)).0)) [
      | inl e ↦ rw e (space-Fits h f (omega (arith, z, length-drop (n - 1) cs)))
      | inr e ↦ rw e (
          append_piece-Fits h (take n (c ∷ cs)) f (rune-has_break c cs e)
            (omega (arith, z, length-drop (n - 1) cs, length-take n (c ∷ cs))))
    ]

normalize_literal-Kept :
    (size i : ℕ) (s : Span) (h : Normalized) (c : ℕ) (cs : Bytes)
    → Fits size (suc (length cs)) h
    → suc i ≤ s.next
    → s.next ≤ i + suc (length cs)
    → Kept size i cs (normalize_literal i s h (c ∷ cs))
unfolding normalize_literal
normalize_literal-Kept size i s h c cs f low high =
    let n = s.next - i in
    elim (Bool-cases (not s.complete || any_of is_line_break (take n (c ∷ cs)))) [
      | inl e ↦ rw e tt
      | inr e ↦ rw e (
          append_piece-Fits h (take n (c ∷ cs)) f (ground (arith, e))
            (omega (arith, low, high, length-drop (n - 1) cs, length-take n (c ∷ cs))))
    ]

comment-Kept :
    (size i : ℕ) (s : Span) (h : Normalized) (cs : Bytes)
    → Fits size (suc (length cs)) h
    → suc i ≤ s.next
    → s.next ≤ i + suc (length cs)
    → Kept size i cs (behind i s (record h { pending_space = true }) none)
unfolding behind
comment-Kept size i s h cs f low high = elim (Bool-cases s.complete) [
  | inl e ↦ rw e (space-Fits h f (omega (arith, low, high, length-drop (s.next - i - 1) cs)))
  | inr e ↦ rw e tt
]

normalize_round-Kept :
    (size start i : ℕ) (h : Normalized) (c : ℕ) (cs : Bytes)
    → Fits size (suc (length cs)) h
    → Meets (Kept size i cs) (normalize_round start i h (c ∷ cs))
unfolding normalize_round
normalize_round-Kept size start i h c cs f =
    spanned-Meets (Kept size i cs) (i - start) i (c ∷ cs)
      (return-Meets _ _ (normalize_rune-Kept size i h c cs f))
      (λ s low high. return-Meets _ _ (comment-Kept size i s h cs f low high))
      (λ s low high. return-Meets _ _ (normalize_literal-Kept size i s h c cs f low high))

finished : (size : ℕ) (h : Normalized) → Fits size 0 h → Meets (Header size) (normalize_end h)
unfolding normalize_end
finished size h f = then-Meets _ check (
    return-Meets _ _ (elim (Bool-cases (is_empty h.written)) [
      | inl e ↦ rw e tt
      | inr e ↦
          rw e (record { one_line = f.one_line; within = omega (arith, f.within); written = e })
    ]))

pub normalize_declaration_header-Header :
    (source : Bytes) (start end : ℕ)
    → Meets
        (Header (length (between start end source)))
        (normalize_declaration_header source start end)
unfolding normalize_declaration_header
normalize_declaration_header-Header source start end =
    let text = between start end source in
    scan-Meets (normalize_round start) normalize_end (FitsAt (length text)) (Header (length text))
      (λ i h f. finished (length text) h f)
      (λ i h c cs f. normalize_round-Kept (length text) start i h c cs f) text start 0
      (record { written = []; pending_space = false })
      (record { one_line = refl; within = omega arith })
