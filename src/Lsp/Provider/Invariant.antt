-- ===== src/Lsp/Provider/Invariant.antt =====
-- The invariant of the open files and of the calls that stand between their critical sections.
use portolan.Prelude.{
  ℕ, suc, ◌<◌, Bool, true, false, Option, none, some, List, [], ◌∷◌, Bytes, equal, equal_iff,
  equal_refl, ◌==◌, ==_iff, if◌then◌else◌, ◌≡◌, refl, sym, ◌∙◌, ap, subst, arith, Bool-cases, inl,
  inr, ◌⊎◌,
}
use portolan.Context.{Error}
use portolan.Lsp.Provider.{
  Transition, Opens, put, put_file, Routine, entering, waiting, opening, returned, after_wait,
  opened_source, source_of, System, set_routine, new_provider, TextDocumentItem,
}

abbrev pub is_some {ℓ} : {A : Type ℓ} → Option A → Bool
is_some (some a) = true
is_some none = false

abbrev pub is_opening : Routine → Bool
is_opening (opening file i) = true
is_opening _ = false

-- The item that was last sent for a file, its text, and how often one was sent.
unfoldable pub sent_item : Bytes → List (Bytes × TextDocumentItem) → Option TextDocumentItem
sent_item file [] = none
sent_item file ((f, item) ∷ rest) =
    let older = sent_item file rest in if equal file f then some item else older

unfoldable pub sent_source : Bytes → List (Bytes × TextDocumentItem) → Option Bytes
sent_source file [] = none
sent_source file ((f, item) ∷ rest) =
    let older = sent_source file rest in if equal file f then some item.text else older

unfoldable pub times_sent : Bytes → List (Bytes × TextDocumentItem) → ℕ
times_sent file [] = 0
times_sent file ((f, item) ∷ rest) =
    let older = times_sent file rest in if equal file f then suc older else older

-- What holds for a call, where it stands.
unfoldable pub Fits : Opens → Routine → Type 0
Fits p (waiting file i) =
    (i < p.next)
    × ((p.open_files file ≡ some i)
        ⊎ (((p.transitions i).done ≡ true) × (is_some ((p.transitions i).error) ≡ true)))
Fits p (opening file i) = (p.open_files file ≡ some i) × ((p.transitions i).done ≡ false)
Fits p (returned file none) = is_some (opened_source file p) ≡ true
Fits p _ = Unit

-- A transition in the map is being carried out, or has succeeded.
pub record Entry (s : System) (file : Bytes) (i : ℕ) : Type 0 where
  pub below : i < s.opens.next
  pub carried : (s.opens.transitions i).done ≡ false → (g : ℕ) × (s.routines g ≡ opening file i)
  pub succeeded : (s.opens.transitions i).done ≡ true → (s.opens.transitions i).error ≡ none

pub record Inv (s : System) : Type 0 where
  pub fits : (g : ℕ) → Fits s.opens (s.routines g)
  pub alone :
      (g k : ℕ) (file : Bytes) (i j : ℕ)
      → s.routines g ≡ opening file i
      → s.routines k ≡ opening file j
      → g ≡ k
  pub entry : (file : Bytes) (i : ℕ) → s.opens.open_files file ≡ some i → Entry s file i
  pub apart :
      (f g : Bytes) (i : ℕ) → s.opens.open_files f ≡ some i → s.opens.open_files g ≡ some i → f ≡ g
  pub recorded : (file : Bytes) → sent_source file s.sent ≡ opened_source file s.opens
  pub once :
      (file : Bytes)
      → times_sent file s.sent ≡ (if is_some (opened_source file s.opens) then 1 else 0)

pub new_provider-Inv : Inv new_provider
unfolding new_provider opened_source sent_source times_sent Fits
new_provider-Inv = record {
  fits = λ g. tt;
  alone = λ g k file i j a b. absurd (ground arith);
  entry = λ file i a. absurd (ground arith);
  apart = λ f g i a b. absurd (ground arith);
  recorded = λ file. refl;
  once = λ file. refl;
}

-- The call itself, or another.
pub put-cases :
    {A : Type 0} (i : ℕ) (a : A) (f : ℕ → A) (j : ℕ)
    → ((j ≡ i) × (put i a f j ≡ a)) ⊎ (((j == i) ≡ false) × (put i a f j ≡ f j))
unfolding put
put-cases i a f j = elim (Bool-cases (j == i)) [
  | inl same ↦ inl ((==_iff j i).0 same, rw same refl)
  | inr other ↦ inr (other, rw other refl)
]

opening-is_opening : (r : Routine) (file : Bytes) (i : ℕ) → r ≡ opening file i → is_opening r ≡ true
opening-is_opening r file i e = rw e refl

-- A call that does not carry out a transition, before or behind a step, has none to its name.
not_by : {r : Routine} {file : Bytes} {i : ℕ} → is_opening r ≡ false → r ≡ opening file i → ⊥
not_by {r} {file} {i} quiet e = absurd (let loud = opening-is_opening r file i e in ground arith)

module _ (g : ℕ) (r : Routine) (f : ℕ → Routine) (file : Bytes) (i : ℕ) where
  pub opening-before :
      (k : ℕ) → is_opening r ≡ false → put g r f k ≡ opening file i → f k ≡ opening file i
  opening-before k after a = elim (put-cases g r f k) [
    | inl (same, e) ↦ absurd (not_by after (sym e ∙ a))
    | inr (other, e) ↦ sym e ∙ a
  ]

  opening-behind :
      (k : ℕ) → is_opening (f g) ≡ false → f k ≡ opening file i → put g r f k ≡ opening file i
  opening-behind k before a = elim (put-cases g r f k) [
    | inl (same, e) ↦ absurd (not_by before (ap f (sym same) ∙ a))
    | inr (other, e) ↦ e ∙ a
  ]

-- A step of a call that is not carrying out a transition, to where it does not carry one out.
pub quiet :
    (s : System) (g : ℕ) (r : Routine)
    → Inv s
    → Fits s.opens r
    → is_opening (s.routines g) ≡ false
    → is_opening r ≡ false
    → Inv (set_routine g r s)
unfolding set_routine
quiet s g r v f before after = record {
  fits = λ k. elim (put-cases g r s.routines k) [
    | inl (same, e) ↦ subst (Fits s.opens) (sym e) f
    | inr (other, e) ↦ subst (Fits s.opens) (sym e) (v.fits k)
  ];
  alone = λ k l file i j a b.
      v.alone k l file i j (opening-before g r s.routines file i k after a)
        (opening-before g r s.routines file j l after b);
  entry = λ file i a. record {
    below = (v.entry file i a).below;
    carried = λ d.
        let (k, e) = (v.entry file i a).carried d in
        (k, opening-behind g r s.routines file i k before e);
    succeeded = (v.entry file i a).succeeded;
  };
  apart = v.apart;
  recorded = v.recorded;
  once = v.once;
}

-- What an entry of the map says of the file's source.
pub opened_source-at :
    (p : Opens) (file : Bytes) (o : Option ℕ)
    → p.open_files file ≡ o
    → opened_source file p ≡ elim o [ none ↦ none | some i ↦ source_of (p.transitions i) ]
unfolding opened_source
opened_source-at p file o e =
    ap (λ x. elim x [ none ↦ none | some i ↦ source_of (p.transitions i) ]) e

pub source_of_done : (t : Transition) → t.error ≡ none → t.done ≡ true → source_of t ≡ some t.source
unfolding source_of
source_of_done t e d = rw (e, d) refl

returned-Fits :
    (p : Opens) (file : Bytes) (i : ℕ) (e : Option Error)
    → (p.transitions i).error ≡ e
    → Fits p (waiting file i)
    → (p.transitions i).done ≡ true
    → Fits p (returned file e)
unfolding Fits
returned-Fits p file i (some x) h w d = tt
returned-Fits p file i none h w d = elim (w.1) [
  | inl m ↦ ap is_some (opened_source-at p file (some i) m ∙ source_of_done (p.transitions i) h d)
  | inr (d2, x) ↦ absurd (ground arith)
]

pub after_wait-Fits :
    (p : Opens) (file : Bytes) (i : ℕ)
    → Fits p (waiting file i)
    → (p.transitions i).done ≡ true
    → Fits p (after_wait file (p.transitions i))
      × (is_opening (after_wait file (p.transitions i)) ≡ false)
unfolding after_wait Fits
after_wait-Fits p file i w d =
    let t = p.transitions i in
    elim (t.retryable)
      as (λ b.
        Fits p (if b then entering file else returned file t.error)
        × (is_opening (if b then entering file else returned file t.error) ≡ false)) [
          | true ↦ (tt, refl)
          | false ↦ (returned-Fits p file i t.error refl w d, refl)
        ]

pub put_file-cases :
    {A : Type 0} (file : Bytes) (a : A) (m : Bytes → A) (f : Bytes)
    → ((f ≡ file) × (put_file file a m f ≡ a)) ⊎ ((f ≡ file → ⊥) × (put_file file a m f ≡ m f))
unfolding put_file
put_file-cases file a m f = elim (Bool-cases (equal f file)) [
  | inl same ↦ inl ((equal_iff f file).0 same, rw same refl)
  | inr other ↦ inr (λ e. absurd (let same = (equal_iff f file).1 e in ground arith), rw other refl)
]

pub put-other :
    {A : Type 0} (i : ℕ) (a : A) (f : ℕ → A) (j : ℕ) → (j == i) ≡ false → put i a f j ≡ f j
unfolding put
put-other i a f j other = rw other refl

pub put-same : {A : Type 0} (i : ℕ) (a : A) (f : ℕ → A) → put i a f i ≡ a
unfolding put
put-same i a f = rw ((==_iff i i).1 refl) refl

pub put_file-same : {A : Type 0} (file : Bytes) (a : A) (m : Bytes → A) → put_file file a m file ≡ a
unfolding put_file
put_file-same file a m = rw (equal_refl file) refl

-- A call carries out a transition that is not done, which is that of its file.
pub opening-Fits :
    (s : System) (k : ℕ) (f : Bytes) (j : ℕ)
    → Inv s
    → s.routines k ≡ opening f j
    → Fits s.opens (opening f j)
opening-Fits s k f j v e = subst (Fits s.opens) e (v.fits k)

-- A call that was not carrying out a transition is another than one that is.
pub opening_other :
    (s : System) (g k : ℕ) (f : Bytes) (j : ℕ)
    → is_opening (s.routines g) ≡ false
    → s.routines k ≡ opening f j
    → (k == g) ≡ false
opening_other s g k f j quiet e = elim (Bool-cases (k == g)) [
  | inr other ↦ other
  | inl same ↦ absurd (not_by quiet (ap s.routines (sym ((==_iff k g).0 same)) ∙ e))
]
