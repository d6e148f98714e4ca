-- ===== src/Lsp/Provider/Change.antt =====
-- A critical section of one call, on one transition: what it has to keep for the invariant to hold behind it.
use portolan.Prelude.{
  ℕ, ◌≤◌, true, false, none, some, Bytes, ◌==◌, ==_iff, if◌then◌else◌, ◌≡◌, sym, ◌∙◌, ap, subst,
  arith, Bool-cases, inl, inr, ◌⊎◌,
}
use portolan.Lsp.Provider.{
  Transition, Opens, Routine, idle, entering, waiting, opening, returned, opened_source, System,
}
use portolan.Lsp.Provider.Invariant.{Entry, Fits, Inv, is_some, sent_source, times_sent}

-- A critical section of a call `g` on the transition `i` of a file.
pub record Change (p q : Opens) (file : Bytes) (i : ℕ) : Type 0 where
  pub memory : (j : ℕ) → (j == i) ≡ false → q.transitions j ≡ p.transitions j
  pub kept :
      (f : Bytes) (j : ℕ) → (j == i) ≡ false → p.open_files f ≡ some j → q.open_files f ≡ some j
  pub back :
      (f : Bytes) (j : ℕ)
      → q.open_files f ≡ some j
      → ((f ≡ file) × (j ≡ i)) ⊎ ((p.open_files f ≡ some j) × ((j == i) ≡ false))
  pub grows : p.next ≤ q.next
  pub opened : (f : Bytes) → is_some (opened_source f p) ≡ true → is_some (opened_source f q) ≡ true

Change-apart :
    (p q : Opens) (file : Bytes) (i : ℕ)
    → Change p q file i
    → ((f g : Bytes) (j : ℕ) → p.open_files f ≡ some j → p.open_files g ≡ some j → f ≡ g)
    → (f g : Bytes) (j : ℕ) → q.open_files f ≡ some j
    → q.open_files g ≡ some j
    → f ≡ g
Change-apart p q file i c v f g j a b = elim (c.back f j a) [
  | inl (same, at) ↦ elim (c.back g j b) [
    | inl (same2, at2) ↦ same ∙ sym same2
    | inr (old, other) ↦ absurd (ground arith)
  ]
  | inr (old, other) ↦ elim (c.back g j b) [
    | inl (same2, at2) ↦ absurd (ground arith)
    | inr (old2, other2) ↦ v f g j old old2
  ]
]

-- What holds for a call that does not have to do with the transition, or waits for it.
Change-Fits :
    (p q : Opens) (file : Bytes) (i : ℕ) (r : Routine)
    → Change p q file i
    → ((f : Bytes) → r ≡ waiting f i → Fits q (waiting f i))
    → ((f : Bytes) → r ≡ opening f i → ⊥)
    → Fits p r
    → Fits q r
unfolding Fits
Change-Fits p q file i idle c at apart v = tt
Change-Fits p q file i (entering f) c at apart v = tt
Change-Fits p q file i (returned f (some e)) c at apart v = tt
Change-Fits p q file i (returned f none) c at apart v = c.opened f v
Change-Fits p q file i (waiting f j) c at apart v = elim (Bool-cases (j == i)) [
  | inl same ↦
      subst (λ k. Fits q (waiting f k)) (sym ((==_iff j i).0 same))
        (at f (ap (waiting f) ((==_iff j i).0 same)))
  | inr other ↦
      let m = c.memory j other in
      let below = c.grows in
      (
        ground arith,
        elim (v.1) [ inl e ↦ inl (c.kept f j other e) | inr (d, x) ↦ inr (rw m d, rw m x) ],
      )
]
Change-Fits p q file i (opening f j) c at apart v = elim (Bool-cases (j == i)) [
  | inl same ↦ absurd (apart f (ap (opening f) ((==_iff j i).0 same)))
  | inr other ↦ (c.kept f j other v.0, rw (c.memory j other) v.1)
]

-- The invariant behind a critical section, from what holds for its own call and its own transition.
pub Change-Inv :
    (s t : System) (g : ℕ) (file : Bytes) (i : ℕ)
    → Change s.opens t.opens file i
    → Inv s
    → ((k : ℕ) → (k == g) ≡ false → t.routines k ≡ s.routines k)
    → Fits t.opens (t.routines g)
    → ((f : Bytes) → Fits s.opens (waiting f i) → Fits t.opens (waiting f i))
    → ((k : ℕ) (f : Bytes) → (k == g) ≡ false → s.routines k ≡ opening f i → ⊥)
    → ((k : ℕ) (f : Bytes) (j : ℕ)
        → (j == i) ≡ false
        → s.routines k ≡ opening f j
        → (k == g) ≡ false)
    → ((k l : ℕ) (f : Bytes) (j m : ℕ)
        → t.routines k ≡ opening f j
        → t.routines l ≡ opening f m
        → k ≡ l)
    → (t.opens.open_files file ≡ some i → Entry t file i)
    → ((f : Bytes) → sent_source f t.sent ≡ opened_source f t.opens)
    → ((f : Bytes) → times_sent f t.sent ≡ (if is_some (opened_source f t.opens) then 1 else 0))
    → Inv t
Change-Inv s t g file i c v moved fits_g waits others stays alone entry recorded once = record {
  fits = λ k. elim (Bool-cases (k == g)) [
    | inl same ↦ subst (λ l. Fits t.opens (t.routines l)) (sym ((==_iff k g).0 same)) fits_g
    | inr other ↦ subst (Fits t.opens) (sym (moved k other)) (
        Change-Fits s.opens t.opens file i (s.routines k) c
          (λ f a. waits f (subst (Fits s.opens) a (v.fits k))) (λ f a. others k f other a)
          (v.fits k))
  ];
  alone = alone;
  entry = λ f j a. elim (c.back f j a) [
    | inl (same, at) ↦
        subst (λ l. Entry t f l) (sym at)
          (subst (λ x. Entry t x i) (sym same)
            (entry (ap t.opens.open_files (sym same) ∙ a ∙ ap (λ (x : ℕ). some x) at)))
    | inr (old, other) ↦
        let e = v.entry f j old in
        let m = c.memory j other in
        let grown = c.grows in
        let below_old = e.below in
        record {
          below = ground arith;
          carried = λ d.
              let (k, o) = e.carried (subst (λ x. x.done ≡ false) m d) in
              (k, moved k (stays k f j other o) ∙ o);
          succeeded = λ d.
              ap (λ (x : Transition). x.error) m ∙ e.succeeded (subst (λ x. x.done ≡ true) m d);
        }
  ];
  apart = Change-apart s.opens t.opens file i c v.apart;
  recorded = recorded;
  once = once;
}
