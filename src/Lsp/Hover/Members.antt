-- ===== src/Lsp/Hover/Members.antt =====
-- The signature of a member is the end of what was displayed, from the member's name on.
use portolan.Prelude.{
  ℕ, suc, ◌+◌, true, false, ◌||◌, Option, none, some, [], ◌∷◌, ◌++◌, Bytes, ◌==◌, take, drop,
  length, is_empty, take-append-drop, drop_prefix, append_assoc, ◌≡◌, refl, sym, ap, ◌∙◌, ◌⊎◌, inl,
  inr, Bool-cases, arith,
}
use portolan.Lsp.Lexical.{has_prefix}
use portolan.Lsp.Lexical.Tokens.{any_of}
use portolan.Lsp.Lexical.Loop.{drop_add}
use portolan.Lsp.Headers.Cuts.{has_prefix→append}
use portolan.Lsp.Hover.{
  last_index, trim_prefix, with_tail, is_loose, line_breaks, qualified_member,
  normalize_ts_go_member,
}

last_index-has_prefix :
    (needle s : Bytes) (i : ℕ)
    → is_empty needle ≡ false
    → last_index needle s ≡ some i
    → has_prefix needle (drop i s) ≡ true
unfolding last_index
last_index-has_prefix needle [] i n h = absurd (ground (arith, n, h))
last_index-has_prefix needle (c ∷ cs) i n h =
    later (last_index needle cs) refl (last_index-has_prefix needle cs)
  where
    later :
        (o : Option ℕ)
        → last_index needle cs ≡ o
        → ((j : ℕ)
            → is_empty needle ≡ false
            → last_index needle cs ≡ some j
            → has_prefix needle (drop j cs) ≡ true)
        → has_prefix needle (drop i (c ∷ cs)) ≡ true
    later (some j) e ih = let z : i ≡ suc j = ground (arith, e, h) in rw z (ih j n e)
    later none e ih = elim (Bool-cases (has_prefix needle (c ∷ cs))) [
      | inl p ↦ let z : i ≡ 0 = ground (arith, e, p, h) in rw z p
      | inr p ↦ absurd (ground (arith, e, p, h))
    ]

-- Nothing is left, or the end of the display, which is the name with a tail that begins with an allowed byte.
abbrev Kept : Bytes → Bytes → Bytes → Bytes → Type 0
Kept display name allowed_tail r =
    (r ≡ [])
    ⊎ ((front : Bytes) × (c : ℕ) × (tail : Bytes) × (display ≡ front ++ r)
        × (r ≡ name ++ (c ∷ tail))
        × (any_of (◌==◌ c) allowed_tail ≡ true))

with_tail-Kept :
    (display front name allowed_tail tail : Bytes)
    → display ≡ front ++ (name ++ tail)
    → Kept display name allowed_tail (with_tail name allowed_tail tail)
unfolding with_tail
with_tail-Kept display front name allowed_tail [] e = inl refl
with_tail-Kept display front name allowed_tail (c ∷ tail) e =
    elim (Bool-cases (any_of (◌==◌ c) allowed_tail)) [
      | inl p ↦ rw p (inr (front, c, tail, e, refl, p))
      | inr p ↦ rw p (inl refl)
    ]

trim_prefix-append : (prefix s : Bytes) → (front : Bytes) × (s ≡ front ++ trim_prefix prefix s)
unfolding trim_prefix
trim_prefix-append prefix s = elim (Bool-cases (has_prefix prefix s)) [
  | inl e ↦
      let (u, p) = has_prefix→append prefix s e in
      (
        prefix,
        rw e (p ∙ ap (λ t. prefix ++ t) (sym (ap (drop (length prefix)) p ∙ drop_prefix prefix u))),
      )
  | inr e ↦ ([], rw e refl)
]

separated :
    (name rest u : Bytes) (separator : ℕ)
    → drop separator rest ≡ (b'.' ∷ name) ++ u
    → drop (separator + 1 + length name) rest ≡ u
separated name rest u separator e =
    let n : separator + 1 + length name ≡ separator + length (b'.' ∷ name) = omega arith in
    ap (λ m. drop m rest) n
    ∙ drop_add separator (length (b'.' ∷ name)) rest
    ∙ ap (drop (length (b'.' ∷ name))) e
    ∙ drop_prefix (b'.' ∷ name) u

qualified_member-Kept :
    (display front name allowed_tail rest : Bytes) (o : Option ℕ)
    → display ≡ front ++ rest
    → last_index (b'.' ∷ name) rest ≡ o
    → Kept display name allowed_tail (qualified_member name allowed_tail rest o)
unfolding qualified_member
qualified_member-Kept display front name allowed_tail rest none e h = inl refl
qualified_member-Kept display front name allowed_tail rest (some separator) e h =
    elim (Bool-cases (separator == 0 || is_loose line_breaks (take separator rest))) [
      | inl p ↦ rw p (inl refl)
      | inr p ↦
          let (u, q) =
            has_prefix→append (b'.' ∷ name) (drop separator rest)
              (last_index-has_prefix (b'.' ∷ name) rest separator refl h) in
          let whole : rest ≡ take separator rest ++ ((b'.' ∷ []) ++ (name ++ u)) =
            sym (take-append-drop separator rest) ∙ ap (λ t. take separator rest ++ t) q in
          let split : display ≡ (front ++ (take separator rest ++ (b'.' ∷ []))) ++ (name ++ u) =
            e
            ∙ ap (λ t. front ++ t)
                (whole ∙ sym (append_assoc (take separator rest) (b'.' ∷ []) (name ++ u)))
            ∙ sym (append_assoc front (take separator rest ++ (b'.' ∷ [])) (name ++ u)) in
          rw (p, separated name rest u separator q)
            (with_tail-Kept display (front ++ (take separator rest ++ (b'.' ∷ []))) name
              allowed_tail u split)
    ]

-- What normalizeTSGoMember gives for a display is empty, or the end of the display, and then it is the member's
-- name with a tail that begins with one of the allowed bytes.
pub normalize_ts_go_member_lem :
    (display name prefix allowed_tail : Bytes)
    → (normalize_ts_go_member display name prefix allowed_tail ≡ [])
      ⊎ ((front : Bytes) × (c : ℕ) × (tail : Bytes) × (display
            ≡ front ++ normalize_ts_go_member display name prefix allowed_tail)
          × (normalize_ts_go_member display name prefix allowed_tail ≡ name ++ (c ∷ tail))
          × (any_of (◌==◌ c) allowed_tail ≡ true))
unfolding normalize_ts_go_member
normalize_ts_go_member_lem display name prefix allowed_tail =
    let rest = trim_prefix prefix display in
    let (front, e) = trim_prefix-append prefix display in
    elim (Bool-cases (is_empty name)) [
      | inl p ↦ rw (normalize_ts_go_member, p) (inl refl)
      | inr p ↦ elim (Bool-cases (has_prefix name rest)) [
        | inl q ↦
            let (u, w) = has_prefix→append name rest q in
            rw (normalize_ts_go_member, p, q, ap (drop (length name)) w ∙ drop_prefix name u)
              (with_tail-Kept display front name allowed_tail u (e ∙ ap (λ t. front ++ t) w))
        | inr q ↦
            rw (normalize_ts_go_member, p, q)
              (qualified_member-Kept display front name allowed_tail rest
                (last_index (b'.' ∷ name) rest) e refl)
      ]
    ]
