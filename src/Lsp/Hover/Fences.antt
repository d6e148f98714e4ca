-- ===== src/Lsp/Hover/Fences.antt =====
-- The code of a fenced block in markdown.
use portolan.Prelude.{
  ℕ, ◌+◌, Bool, true, not, some, [], ◌∷◌, ◌++◌, Bytes, ◌==◌, drop, length, all_of, length-append,
  take_prefix, drop_prefix, append_assoc, ◌≡◌, refl, sym, ap, ◌∙◌, arith,
}
use portolan.Context.{ok}
use portolan.Text.Space.{trim_space}
use portolan.Lsp.Lexical.{has_prefix}
use portolan.Lsp.Hover.{index, fence, fenced, behind_fence, markdown_code}

-- The byte does not occur.
unfoldable pub is_without : ℕ → Bytes → Bool
is_without b s = all_of (λ c. not (c == b)) s

-- A needle is found behind text that does not have its first byte.
index-behind :
    (b : ℕ) (needle s t : Bytes)
    → is_without b s ≡ true
    → has_prefix (b ∷ needle) t ≡ true
    → index (b ∷ needle) (s ++ t) ≡ some (length s)
unfolding index is_without has_prefix
index-behind b needle [] [] h p = absurd (cc)
index-behind b needle [] (c ∷ t) h p = ground (arith, p)
index-behind b needle (c ∷ s) t h p = ground (arith, h, index-behind b needle s t)

fence-first : (t : Bytes) → has_prefix fence (fence ++ t) ≡ true
unfolding has_prefix
fence-first t = refl

break-first : (t : Bytes) → has_prefix (b'\n' ∷ []) (b'\n' ∷ t) ≡ true
unfolding has_prefix
break-first t = refl

fenced_lem :
    (body rest : Bytes)
    → is_without b'`' body ≡ true
    → fenced (body ++ (fence ++ rest)) ≡ ok (trim_space body)
unfolding fenced
fenced_lem body rest h =
    rw
      (
        fenced,
        index-behind b'`' (b'`' ∷ b'`' ∷ []) body (fence ++ rest) h (fence-first rest),
        take_prefix body (fence ++ rest),
      )
      refl

without_break :
    (info : Bytes) → is_without b'\n' info ≡ true → is_without b'\n' (fence ++ info) ≡ true
unfolding is_without
without_break info h = h

drop_line : (line content : Bytes) → drop (length line + 1) (line ++ (b'\n' ∷ content)) ≡ content
drop_line line content =
    let e : length line + 1 ≡ length (line ++ (b'\n' ∷ [])) =
      omega (arith, length-append line (b'\n' ∷ [])) in
    ap (λ m. drop m (line ++ (b'\n' ∷ content))) e
    ∙ ap (drop (length (line ++ (b'\n' ∷ [])))) (sym (append_assoc line (b'\n' ∷ []) content))
    ∙ drop_prefix (line ++ (b'\n' ∷ [])) content

-- Of markdown whose first backtick opens a fenced block, markdownCode gives the trimmed code of the block,
-- whatever the line of the fence says and whatever follows the closing fence, if the code has no backtick.
pub markdown_code-fenced :
    (front info body rest : Bytes)
    → is_without b'`' front ≡ true
    → is_without b'\n' info ≡ true
    → is_without b'`' body ≡ true
    → markdown_code (front ++ ((fence ++ info) ++ (b'\n' ∷ (body ++ (fence ++ rest)))))
      ≡ ok (trim_space body)
unfolding markdown_code behind_fence
markdown_code-fenced front info body rest f i b =
    let content = body ++ (fence ++ rest) in
    let block = (fence ++ info) ++ (b'\n' ∷ content) in
    let opened =
      index-behind b'`' (b'`' ∷ b'`' ∷ []) front block f
        (fence-first (info ++ (b'\n' ∷ content))) in
    let ended =
      index-behind b'\n' [] (fence ++ info) (b'\n' ∷ content) (without_break info i)
        (break-first content) in
    rw (markdown_code, opened, drop_prefix front block)
      (rw (behind_fence, ended, drop_line (fence ++ info) content) (fenced_lem body rest b))
