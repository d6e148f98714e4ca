-- ===== src/Lsp/Lexical/Loop.antt =====
-- The rule for the loop over a text: an invariant that every round keeps holds where the loop returns.
use portolan.Prelude.{
  ℕ, zero, suc, ◌+◌, List, [], ◌∷◌, Bytes, drop, take, ◌≡◌, refl, subst, arith, ap, ◌∙◌,
}
use portolan.Context.{M, return}
use portolan.Context.Meets.{Meets, return-Meets, bind-Meets}
use portolan.Context.Polling.{Transparent, return-Transparent, bind-Transparent}
use portolan.Lsp.Lexical.{Round, done, next, scan, between}

-- What a round owes: `Q` of the result if it returns, the invariant where it goes on.
abbrev pub Owes :
    {S R : Type 0} → (ℕ → S → Bytes → Type 0) → (R → Type 0) → ℕ → Bytes → Round S R → Type 0
Owes P Q i rest (done r) = Q r
Owes P Q i rest (next more t) = P (i + 1 + more) t (drop more rest)

module _ {S R : Type 0} (round : ℕ → S → Bytes → M (Round S R)) (finish : S → M R) where
  module _ (P : ℕ → S → Bytes → Type 0) (Q : R → Type 0)
      (ends : (i : ℕ) (s : S) → P i s [] → Meets Q (finish s))
      (keeps : (i : ℕ) (s : S) (c : ℕ) (cs : Bytes)
        → P i s (c ∷ cs)
        → Meets (Owes P Q i cs) (round i s (c ∷ cs))) where
    pub scan-Meets :
        (rest : Bytes) (i more : ℕ) (s : S)
        → P (i + more) s (drop more rest)
        → Meets Q (scan round finish i more s rest)
    unfolding scan
    scan-Meets [] i zero s h = ends (i + 0) s h
    scan-Meets [] i (suc more) s h = ends (i + suc more) s h
    scan-Meets (c ∷ cs) i (suc more) s h =
        scan-Meets cs (i + 1) more s (
          let e : i + suc more ≡ i + 1 + more = omega arith in
          subst (λ k. P k s (drop more cs)) e h)
    scan-Meets (c ∷ cs) i zero s h =
        bind-Meets Q (round i s (c ∷ cs))
          (keeps i s c cs (let e : i + 0 ≡ i = omega arith in subst (λ k. P k s (c ∷ cs)) e h))
          (λ o.
            elim o
              as (λ o.
                Owes P Q i cs o
                → Meets Q (elim o [
                  | done r ↦ return r
                  | next more t ↦ scan round finish (i + 1) more t cs
                ])) [
                  | done r ↦ λ q. return-Meets Q r q
                  | next more t ↦ λ p. scan-Meets cs (i + 1) more t p
                ])

  scan_on-Transparent :
      (o : Round S R) (i : ℕ) (cs : Bytes)
      → ((more : ℕ) (t : S) → Transparent (scan round finish (i + 1) more t cs))
      → Transparent (elim o as (λ _. M R) [
        | done r ↦ return r
        | next more t ↦ scan round finish (i + 1) more t cs
      ])
  scan_on-Transparent (done r) i cs h = return-Transparent r
  scan_on-Transparent (next more t) i cs h = h more t

  pub scan-Transparent :
      ((i : ℕ) (s : S) (rest : Bytes) → Transparent (round i s rest))
      → ((s : S) → Transparent (finish s))
      → (rest : Bytes) (i more : ℕ) (s : S) → Transparent (scan round finish i more s rest)
  unfolding scan
  scan-Transparent hr hf [] i more s = hf s
  scan-Transparent hr hf (c ∷ cs) i (suc more) s = scan-Transparent hr hf cs (i + 1) more s
  scan-Transparent hr hf (c ∷ cs) i zero s =
      bind-Transparent (round i s (c ∷ cs)) _ (hr i s (c ∷ cs))
        (λ o. scan_on-Transparent o i cs (λ more t. scan-Transparent hr hf cs (i + 1) more t))

-- The text behind a round is the text from the offset that the round went to.
pub drop_add {ℓ} : {A : Type ℓ} (n k : ℕ) (xs : List A) → drop (n + k) xs ≡ drop k (drop n xs)
drop_add zero k xs = let e : zero + k ≡ k = omega arith in rw e refl
drop_add (suc n) zero [] = let e : suc n + zero ≡ suc n = omega arith in rw e refl
drop_add (suc n) (suc k) [] = let e : suc n + suc k ≡ suc (n + suc k) = omega arith in rw e refl
drop_add (suc n) k (x ∷ xs) =
    let e : suc n + k ≡ suc (n + k) = omega arith in rw e (drop_add n k xs)

pub between_on :
    (i more end : ℕ) (source : Bytes) {c : ℕ} {cs : Bytes}
    → between i end source ≡ c ∷ cs
    → between (i + 1 + more) end source ≡ drop more cs
between_on i more end source {c} {cs} h =
    drop_add (i + 1) more (take end source)
    ∙ ap (drop more) (drop_add i 1 (take end source) ∙ ap (drop 1) h)
