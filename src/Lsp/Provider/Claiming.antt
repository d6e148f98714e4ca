-- ===== src/Lsp/Provider/Claiming.antt =====
-- The first critical section of `ensureOpen`.
use portolan.Prelude.{
  ℕ, ◌<◌, false, Option, none, some, Bytes, ◌==◌, if◌then◌else◌, ◌≡◌, refl, sym, ◌∙◌, ap, subst,
  arith, inl, inr,
}
use portolan.Lsp.Provider.{
  Transition, Opens, put, waiting, opening, fresh, start_open, claim, opened_source, source_of,
  System, set_routine, claim_with, claim_as,
}
use portolan.Lsp.Provider.Invariant.{
  Fits, Inv, is_opening, is_some, opened_source-at, opening-Fits, opening_other, put-cases,
  put-other, put-same, put_file-cases, put_file-same, quiet,
}
use portolan.Lsp.Provider.Change.{Change, Change-Inv}

module _ (p : Opens) (file : Bytes)
    (below : (f : Bytes) (j : ℕ) → p.open_files f ≡ some j → j < p.next)
    (free : p.open_files file ≡ none) where
  below_other : (f : Bytes) (j : ℕ) → p.open_files f ≡ some j → (j == p.next) ≡ false
  below_other f j e = let b = below f j e in ground arith

  start_open-opened_source : (f : Bytes) → opened_source f (start_open file p) ≡ opened_source f p
  unfolding start_open source_of
  start_open-opened_source f = elim (put_file-cases file (some p.next) p.open_files f) [
    | inl (same, e) ↦
        opened_source-at (start_open file p) f (some p.next) e
        ∙ ap source_of (put-same p.next fresh p.transitions)
        ∙ sym (opened_source-at p f none (ap p.open_files same ∙ free))
    | inr (other, e) ↦
        elim (p.open_files f)
            as (λ o. p.open_files f ≡ o → opened_source f (start_open file p) ≡ opened_source f p) [
              | none ↦ λ d.
                  opened_source-at (start_open file p) f none (e ∙ d)
                  ∙ sym (opened_source-at p f none d)
              | some j ↦ λ d.
                  opened_source-at (start_open file p) f (some j) (e ∙ d)
                  ∙ ap source_of (put-other p.next fresh p.transitions j (below_other f j d))
                  ∙ sym (opened_source-at p f (some j) d)
            ]
          refl
  ]

  start_open-Change : Change p (start_open file p) file p.next
  unfolding start_open
  start_open-Change = record {
    memory = λ j other. put-other p.next fresh p.transitions j other;
    kept = λ f j other e. elim (put_file-cases file (some p.next) p.open_files f) [
      | inl (same, d) ↦ absurd (let d2 = sym e ∙ ap p.open_files same ∙ free in ground arith)
      | inr (apart, d) ↦ d ∙ e
    ];
    back = λ f j e. elim (put_file-cases file (some p.next) p.open_files f) [
      | inl (same, d) ↦ inl (same, (let d2 = sym e ∙ d in ground arith))
      | inr (apart, d) ↦ inr (sym d ∙ e, below_other f j (sym d ∙ e))
    ];
    grows = omega arith;
    opened = λ f h. ap is_some (start_open-opened_source f) ∙ h;
  }

claim-at :
    (p : Opens) (file : Bytes) (o : Option ℕ)
    → p.open_files file ≡ o
    → claim file p
      ≡ elim o [ none ↦ (opening file p.next, start_open file p) | some i ↦ (waiting file i, p) ]
unfolding claim
claim-at p file o e =
    ap
      (λ x. elim x [
        | none ↦ (opening file p.next, start_open file p)
        | some i ↦ (waiting file i, p)
      ])
      e

-- One more call that carries out a transition, of a file of its own.
alone-put :
    (s : System) (g : ℕ) (file : Bytes) (n : ℕ)
    → Inv s
    → ((k j : ℕ) → s.routines k ≡ opening file j → ⊥)
    → (k l : ℕ) (f : Bytes) (j m : ℕ) → put g (opening file n) s.routines k ≡ opening f j
    → put g (opening file n) s.routines l ≡ opening f m
    → k ≡ l
alone-put s g file n v only k l f j m a b = elim (put-cases g (opening file n) s.routines k) [
  | inl (same, d) ↦ elim (put-cases g (opening file n) s.routines l) [
    | inl (same2, d2) ↦ same ∙ sym same2
    | inr (other, d2) ↦
        let named : f ≡ file = let e = sym d ∙ a in ground arith in
        absurd (only l m (sym d2 ∙ b ∙ ap (λ x. opening x m) named))
  ]
  | inr (other, d) ↦ elim (put-cases g (opening file n) s.routines l) [
    | inl (same2, d2) ↦
        let named : f ≡ file = let e = sym d2 ∙ b in ground arith in
        absurd (only k j (sym d ∙ a ∙ ap (λ x. opening x j) named))
    | inr (other2, d2) ↦ v.alone k l f j m (sym d ∙ a) (sym d2 ∙ b)
  ]
]

fresh-Inv :
    (s : System) (g : ℕ) (file : Bytes)
    → Inv s
    → is_opening (s.routines g) ≡ false
    → s.opens.open_files file ≡ none
    → Inv (claim_with g s (opening file s.opens.next, start_open file s.opens))
unfolding claim_with Fits start_open
fresh-Inv s g file v quiet free =
    let p = s.opens in
    let n = s.opens.next in
    let below = λ (f : Bytes) (j : ℕ) (e : p.open_files f ≡ some j). (v.entry f j e).below in
    let r = opening file n in
    let at_g : put g r s.routines g ≡ r = put-same g r s.routines in
    Change-Inv s (claim_with g s (r, start_open file p)) g file n
      (start_open-Change p file below free) v (λ k other. put-other g r s.routines k other)
      (subst (Fits (start_open file p)) (sym at_g) (
        put_file-same file (some n) p.open_files,
        ap (λ (t : Transition). t.done) (put-same n fresh p.transitions),
      ))
      (λ f w. absurd (let b = w.0 in omega arith))
      (λ k f other e. absurd (let b = below f n (opening-Fits s k f n v e).0 in omega arith))
      (λ k f j other e. opening_other s g k f j quiet e)
      (alone-put s g file n v
        (λ k j e. absurd (let d = sym (opening-Fits s k file j v e).0 ∙ free in ground arith)))
      (λ e. record {
        below = omega arith;
        carried = λ d. (g, at_g);
        succeeded = λ d. ap (λ (t : Transition). t.error) (put-same n fresh p.transitions);
      })
      (λ f. v.recorded f ∙ sym (start_open-opened_source p file below free f))
      (λ f.
        v.once f
        ∙ ap (λ (o : Option Bytes). if is_some o then 1 else 0)
            (sym (start_open-opened_source p file below free f)))

pub claim_as-Inv :
    (s : System) (g : ℕ) (file : Bytes)
    → Inv s
    → is_opening (s.routines g) ≡ false
    → Inv (claim_as g file s)
unfolding claim_as set_routine
claim_as-Inv s g file v quiet_g =
    elim (s.opens.open_files file) as (λ o. s.opens.open_files file ≡ o → Inv (claim_as g file s)) [
      | none ↦ λ e.
          subst (λ c. Inv (claim_with g s c)) (sym (claim-at s.opens file none e))
            (fresh-Inv s g file v quiet_g e)
      | some i ↦ λ e.
          subst (λ c. Inv (claim_with g s c)) (sym (claim-at s.opens file (some i) e))
            (unfold claim_with Fits in
              quiet s g (waiting file i) v ((v.entry file i e).below, inl e) quiet_g refl)
    ]
      refl
