-- ===== src/Lsp/Signatures/Pool/Invariant.antt =====
-- What holds of the pool throughout: an index is still on its way, or its answer is in place, unless the
-- work was canceled, which has a cause.
use portolan.Prelude.{
  ℕ, zero, suc, ◌+◌, ◌<◌, Bool, true, false, ◌||◌, Option, none, some, List, [], ◌∷◌, ◌++◌, Bytes,
  map, length, length-map, ◌==◌, get_elem?, set, length-set, get_elem?-set, ◌≡◌, refl, ap, ◌⊎◌, inl,
  inr, arith, ◌∙◌, Bool-cases,
}
use portolan.Context.{Error, Result, ok, err}
use portolan.Core.Types.{Symbol}
use portolan.Lsp.Conversion.{LspPosition}
use portolan.Lsp.Signatures.{Slot, direct, asked}
use portolan.Lsp.Signatures.Pool.{
  asked_indexes, direct_text, stopped, Pool, pool_start, once, answer_at, Step, hand, again,
  halt_selecting, halt_checking, close, begin, quit, reply, fail, cut_off, leave, cancel_by, Run,
  here, then_step, then_cancel,
}

unfoldable pub mem : ℕ → List ℕ → Bool
mem i [] = false
mem i (x ∷ xs) = x == i || mem i xs

mem-append : (i : ℕ) (xs ys : List ℕ) → mem i (xs ++ ys) ≡ mem i xs || mem i ys
unfolding mem
mem-append i [] ys = refl
mem-append i (x ∷ xs) ys = ground (arith, mem-append i xs ys)

abbrev pub is_some {ℓ} : {A : Type ℓ} → Option A → Bool
is_some none = false
is_some (some a) = true

-- The index is waiting, handed out or being asked for.
abbrev pub on_way : Pool → ℕ → Bool
on_way p i = mem i p.waiting || (mem i p.taken || mem i p.busy)

module _ (answer : LspPosition → Symbol → Result Bytes) (slots : List Slot) where
  -- The answer for the index is in place.
  abbrev pub InPlace : Pool → ℕ → Type 0
  InPlace p i =
      (t : Bytes) × (answer_at answer slots i ≡ some (ok t)) × (get_elem? p.signatures i ≡ some t)

  abbrev pub Covered : Pool → ℕ → Type 0
  Covered p i = (p.canceled ≡ true) ⊎ ((on_way p i ≡ true) ⊎ InPlace p i)

  pub record Inv (p : Pool) : Type 0 where
    pub sized : length p.signatures ≡ length slots
    pub covered : (i : ℕ) → i < length slots → Covered p i
    pub drained : p.feeder ≡ stopped → (p.canceled ≡ true) ⊎ (p.waiting ≡ [])
    pub caused : p.canceled ≡ true → (is_some p.first_err || is_some p.caller_err) ≡ true
    pub blamed :
        (e : Error)
        → p.first_err ≡ some e
        → (is_some p.caller_err ≡ true) ⊎ ((i : ℕ) × (answer_at answer slots i ≡ some (err e)))

  kept :
      {c c' w w' : Bool} {P : Type 0}
      → (c ≡ true → c' ≡ true)
      → (w ≡ true → w' ≡ true)
      → (c ≡ true) ⊎ ((w ≡ true) ⊎ P)
      → (c' ≡ true) ⊎ ((w' ≡ true) ⊎ P)
  kept f g (inl e) = inl (f e)
  kept f g (inr (inl e)) = inr (inl (g e))
  kept f g (inr (inr p)) = inr (inr p)

  mem_moved :
      (i j : ℕ) (before behind : List ℕ)
      → mem j (before ++ (i ∷ behind)) ≡ (i == j || mem j (before ++ behind))
  unfolding mem
  mem_moved i j before behind =
      ground (arith, mem-append j before (i ∷ behind), mem-append j before behind)

  answer_at-lt : (i : ℕ) {r : Result Bytes} → answer_at answer slots i ≡ some r → i < length slots
  unfolding answer_at
  answer_at-lt i h = in_range slots i h
    where
      in_range :
          (xs : List Slot) (i : ℕ) {r : Result Bytes}
          → answer_at answer xs i ≡ some r
          → i < length xs
      in_range [] i h = absurd (cc)
      in_range (x ∷ xs) zero h = omega arith
      in_range (x ∷ xs) (suc i) h = omega (arith, in_range xs i h)

  replied :
      (p : Pool) (i j : ℕ) (before behind : List ℕ) (t : Bytes)
      → Inv p
      → p.busy ≡ before ++ (i ∷ behind)
      → answer_at answer slots i ≡ some (ok t)
      → j < length slots
      → Covered
          (record p {
            signatures = set p.signatures i t;
            busy = before ++ behind;
            idle = p.idle + 1;
          })
          j
  replied p i j before behind t v split a l = elim (Bool-cases (i == j)) [
    | inl e ↦
        let same : i ≡ j = ground (arith, e) in
        let g = get_elem?-set p.signatures i j t (rw v.sized (answer_at-lt i a)) in
        inr (inr (t, rw (← same) a, g ∙ rw e refl))
    | inr e ↦ elim (v.covered j l) [
      | inl c ↦ inl c
      | inr (inl w) ↦ inr (inl (ground (arith, ap (mem j) split, mem_moved i j before behind)))
      | inr (inr (u, b, g)) ↦
          inr
            (inr (u, b, get_elem?-set p.signatures i j t (rw v.sized (answer_at-lt i a)) ∙ rw e g))
    ]
  ]

  blame :
      (p : Pool) (e : Error)
      → Inv p
      → (p.first_err ≡ none
          → (is_some p.caller_err ≡ true) ⊎ ((i : ℕ) × (answer_at answer slots i ≡ some (err e))))
      → (f : Error) → once p.first_err e ≡ some f
      → (is_some p.caller_err ≡ true) ⊎ ((i : ℕ) × (answer_at answer slots i ≡ some (err f)))
  blame p e v why f h = go p.first_err refl h
    where
      go :
          (o : Option Error)
          → p.first_err ≡ o
          → once o e ≡ some f
          → (is_some p.caller_err ≡ true) ⊎ ((i : ℕ) × (answer_at answer slots i ≡ some (err f)))
      go none q h = let s : e ≡ f = ground arith in rw (← s) (why q)
      go (some g) q h = v.blamed f (q ∙ h)

  once-is_some : (o : Option Error) (e : Error) (b : Bool) → (is_some (once o e) || b) ≡ true
  once-is_some none e b = refl
  once-is_some (some f) e b = refl

  with_caller : (b : Bool) → (b || true) ≡ true
  with_caller true = refl
  with_caller false = refl

  pub Step-Inv : {p q : Pool} → Inv p → Step answer slots p q → Inv q
  unfolding mem
  Step-Inv {p} v (hand i n rest f w d) = record {
    sized = v.sized;
    covered = λ j l. kept (λ e. e) (λ e. ground (arith, ap (mem j) w)) (v.covered j l);
    drained = λ e. cc;
    caused = v.caused;
    blamed = v.blamed;
  }
  Step-Inv v (again f c) = record {
    sized = v.sized;
    covered = v.covered;
    drained = λ e. cc;
    caused = v.caused;
    blamed = v.blamed;
  }
  Step-Inv v (halt_selecting f c) = record {
    sized = v.sized;
    covered = v.covered;
    drained = λ e. inl c;
    caused = v.caused;
    blamed = v.blamed;
  }
  Step-Inv v (halt_checking f c) = record {
    sized = v.sized;
    covered = v.covered;
    drained = λ e. inl c;
    caused = v.caused;
    blamed = v.blamed;
  }
  Step-Inv v (close f w) = record {
    sized = v.sized;
    covered = v.covered;
    drained = λ e. inr w;
    caused = v.caused;
    blamed = v.blamed;
  }
  Step-Inv {p} v (begin i before behind w c) = record {
    sized = v.sized;
    covered = λ j l.
        kept (λ e. e) (λ e. ground (arith, ap (mem j) w, mem_moved i j before behind))
          (v.covered j l);
    drained = v.drained;
    caused = v.caused;
    blamed = v.blamed;
  }
  Step-Inv v (quit i before behind w c) = record {
    sized = v.sized;
    covered = λ j l. inl c;
    drained = v.drained;
    caused = v.caused;
    blamed = v.blamed;
  }
  Step-Inv {p} v (reply i before behind t w a) = record {
    sized = length-set p.signatures i t ∙ v.sized;
    covered = λ j l. replied p i j before behind t v w a l;
    drained = v.drained;
    caused = v.caused;
    blamed = v.blamed;
  }
  Step-Inv {p} v (fail i before behind e w a) = record {
    sized = v.sized;
    covered = λ j l. inl refl;
    drained = λ _. inl refl;
    caused = λ _. once-is_some p.first_err e (is_some p.caller_err);
    blamed = blame p e v (λ _. inr (i, a));
  }
  Step-Inv {p} v (cut_off i before behind e w c) = record {
    sized = v.sized;
    covered = λ j l. inl c;
    drained = v.drained;
    caused = λ _. once-is_some p.first_err e (is_some p.caller_err);
    blamed = blame p e v (λ h. inl (rw h at (v.caused c)));
  }
  Step-Inv v (leave n f d) = record {
    sized = v.sized;
    covered = v.covered;
    drained = v.drained;
    caused = v.caused;
    blamed = v.blamed;
  }

  cancel_by-Inv : {p : Pool} (e : Error) → Inv p → Inv (cancel_by e p)
  unfolding cancel_by
  cancel_by-Inv {p} e v = record {
    sized = v.sized;
    covered = λ j l. inl refl;
    drained = λ _. inl refl;
    caused = λ _. with_caller (is_some p.first_err);
    blamed = λ f h. inl refl;
  }

  pub Run-Inv : {p q : Pool} → Inv p → Run answer slots p q → Inv q
  Run-Inv v here = v
  Run-Inv v (then_step r s) = Step-Inv (Run-Inv v r) s
  Run-Inv v (then_cancel e r c) = cancel_by-Inv e (Run-Inv v r)

-- The start.
module _ (answer : LspPosition → Symbol → Result Bytes) where
  covered_at :
      (offset : ℕ) (xs : List Slot) (i : ℕ)
      → i < length xs
      → (mem (i + offset) (asked_indexes offset xs) ≡ true)
        ⊎ ((t : Bytes) × (answer_at answer xs i ≡ some (ok t))
            × (get_elem? (map direct_text xs) i ≡ some t))
  unfolding mem asked_indexes direct_text answer_at
  covered_at offset [] i h = absurd (omega arith)
  covered_at offset (direct t ∷ xs) zero h = inr (t, refl, refl)
  covered_at offset (asked p s ∷ xs) zero h = inl (ground arith)
  covered_at offset (direct t ∷ xs) (suc i) h =
      let e : suc i + offset ≡ i + (offset + 1) = omega arith in
      rw e (covered_at (offset + 1) xs i (omega arith))
  covered_at offset (asked p s ∷ xs) (suc i) h =
      let e : suc i + offset ≡ i + (offset + 1) = omega arith in
      elim (covered_at (offset + 1) xs i (omega arith)) [
        | inl m ↦ inl (ground (arith, ap (λ k. mem k (asked_indexes (offset + 1) xs)) e, m))
        | inr p ↦ inr p
      ]

  pub pool_start-Inv : (slots : List Slot) → Inv answer slots (pool_start slots)
  unfolding pool_start
  pool_start-Inv slots = record {
    sized = length-map direct_text slots;
    covered = λ i l. elim (covered_at 0 slots i l) [
      | inl m ↦ inr (inl (let e : i + 0 ≡ i = omega arith in ground (arith, m, e)))
      | inr p ↦ inr (inr p)
    ];
    drained = λ e. absurd (cc);
    caused = λ e. absurd (cc);
    blamed = λ e h. absurd (cc);
  }
