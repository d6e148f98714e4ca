-- ===== src/Lsp/Headers/Named.antt =====
-- The header of a class or an interface that is found: its keyword, one blank, and its name.
use portolan.Prelude.{
  ℕ, ◌+◌, ◌-◌, ◌≤◌, ◌<◌, true, false, some, [], ◌∷◌, ◌++◌, Bytes, take, drop, length, all_of, equal,
  ◌≡◌, sym, ap, ◌∙◌, inl, inr, arith, Bool-cases, drop_prefix, length-drop, length-take,
  length-append, ltb,
}
use portolan.Context.{ok, Context}
use portolan.Context.Meets.{Meets}
use portolan.Lsp.Lexical.{token_boundary, is_identifier_byte, byte_at, between}
use portolan.Lsp.Lexical.Tokens.{skip_declaration_trivia}
use portolan.Lsp.Lexical.Loop.{drop_add}
use portolan.Lsp.Headers.{append_piece, normalize_declaration_header, name_here}
use portolan.Lsp.Headers.Found.{FoundBody}
use portolan.Lsp.Headers.Growth.{Begins, scan-Begins, is_word_byte, Goes, copy_word}
use portolan.Lsp.Headers.Lockstep.{held, trivia_scan, lockstep}
use portolan.Lsp.Headers.Cuts.{
  has_prefix_refl, has_prefix→append, take_append, between_cut, byte_at-between, all_of-byte_at,
  lt_of_between, byte_at_first,
}

-- A keyword at `k` and the text behind it.
module _ (source : Bytes) (x : ℕ) (w : Bytes) (y : ℕ) (v : Bytes)
    (word : all_of is_word_byte (x ∷ w) ≡ true) (name : all_of is_word_byte (y ∷ v) ≡ true) where
  abbrev title : Bytes
  title = (x ∷ w) ++ (b' ' ∷ y ∷ v)

  -- The loop over the text behind the keyword, which the name follows at `n`.
  named_scan :
      (k n j : ℕ) (u t : Bytes) (c d : Context)
      → trivia_scan (k + length (x ∷ w)) (k + length (x ∷ w)) 0 u c ≡ ok (some n, d)
      → k + length (x ∷ w) < n
      → n + length (y ∷ v) ≤ k + length (x ∷ w) + j
      → drop (n - (k + length (x ∷ w))) u ≡ (y ∷ v) ++ t
      → Goes (Begins title) k k (held [] false) (take (length (x ∷ w) + j) ((x ∷ w) ++ u))
  unfolding append_piece
  named_scan k n j u t c d h far near e =
      let at = k + length (x ∷ w) in
      let rest = at + j - n - length (y ∷ v) in
      let split : at + j - n ≡ length (y ∷ v) + rest = omega (arith, near) in
      let goes : Goes (Begins title) k n (held (x ∷ w) true) ((y ∷ v) ++ take rest t) =
        copy_word (Begins title) k n (held (x ∷ w) true) y v (take rest t) name (
          scan-Begins title k (take rest t) (n + length (y ∷ v)) 0 (held title false)
            (has_prefix_refl title)) in
      let left : take (at + j - n) (drop (n - at) u) ≡ (y ∷ v) ++ take rest t =
        ap (take (at + j - n)) e
        ∙ ap (λ m. take m ((y ∷ v) ++ t)) split
        ∙ take_append (y ∷ v) t rest in
      rw (take_append (x ∷ w) u j) (
        copy_word (Begins title) k k (held [] false) x w (take j u) word (
          lockstep (Begins title) at k n (x ∷ w) u at 0 j false c d h (omega (arith, near))
            (inr (omega (arith, far))) (rw left goes)))

  -- What the passes have found of a declaration: its keyword, and its name at `n`.
  pub record Declares (k n end : ℕ) (u : Bytes) : Type 0 where
    pub keyword_here : between k end source ≡ (x ∷ w) ++ u
    pub behind_keyword : k + length (x ∷ w) ≤ n
    pub name_there : name_here source (y ∷ v) n end ≡ true

  module _ (k n end : ℕ) (u : Bytes) (d : Declares k n end u) where
    room : k + length (x ∷ w) ≤ end
    room = omega (
      arith,
      ap length d.keyword_here,
      length-drop k (take end source),
      length-take end source,
      length-append (x ∷ w) u,
    )

    last_byte : is_identifier_byte (byte_at source (k + length w)) ≡ true
    unfolding is_word_byte
    last_byte =
        let r = all_of-byte_at is_word_byte (x ∷ w) u (length w) word (omega arith) in
        let e : byte_at ((x ∷ w) ++ u) (length w) ≡ byte_at source (k + length w) =
          ap (λ s. byte_at s (length w)) (sym d.keyword_here)
          ∙ byte_at-between k end (length w) source (omega (arith, room)) in
        ground (arith, ap is_word_byte e, r)

    not_adjacent : k + length (x ∷ w) < n
    unfolding token_boundary equal is_word_byte is_identifier_byte
    not_adjacent = elim (Bool-cases (ltb (k + length (x ∷ w)) n)) [
      | inl e ↦ ground (arith, e)
      | inr e ↦
          let at : n - 1 ≡ k + length w = ground (arith, d.behind_keyword) in
          let b = last_byte in
          let z = d.name_there in absurd (ground (arith, ap (byte_at source) at, name))
    ]

    behind_text : between (k + length (x ∷ w)) end source ≡ u
    behind_text =
        drop_add k (length (x ∷ w)) (take end source)
        ∙ ap (drop (length (x ∷ w))) d.keyword_here
        ∙ drop_prefix (x ∷ w) u

    name_text : (t : Bytes) × (drop (n - (k + length (x ∷ w))) u ≡ (y ∷ v) ++ t)
    name_text =
        let at = k + length (x ∷ w) in
        let (t, e) =
          has_prefix→append (y ∷ v) (between n end source) (ground (arith, d.name_there)) in
        let split : n ≡ at + (n - at) = omega (arith, d.behind_keyword) in
        (
          t,
          ap (drop (n - at)) (sym behind_text)
              ∙ sym (drop_add at (n - at) (take end source))
              ∙ ap (λ m. between m end source) (sym split)
              ∙ e,
        )

    pub titled :
        (b : ℕ) (c e : Context)
        → skip_declaration_trivia source (k + length (x ∷ w)) end c ≡ ok (some n, e)
        → FoundBody source (n + length (y ∷ v)) end (some b)
        → Meets (Begins title) (normalize_declaration_header source k b)
    unfolding skip_declaration_trivia normalize_declaration_header
    titled b c e h found =
        let at = k + length (x ∷ w) in
        let (t, f) = name_text in
        let low = lt_of_between b end source (byte_at_first (between b end source) found.1) in
        let size : b - k ≡ length (x ∷ w) + (b - at) = omega (arith, found.0, d.behind_keyword) in
        let cut : between k b source ≡ take (length (x ∷ w) + (b - at)) ((x ∷ w) ++ u) =
          between_cut k b end source (omega (arith, low))
          ∙ ap (take (b - k)) d.keyword_here
          ∙ ap (λ m. take m ((x ∷ w) ++ u)) size in
        rw cut (
          named_scan k n (b - at) u t c e (rw behind_text at h) not_adjacent
            (omega (arith, found.0, d.behind_keyword)) f)
