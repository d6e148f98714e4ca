-- ===== src/Lsp/Signatures/Pool/Results.antt =====
-- What the pool returns.
use portolan.Prelude.{
  ℕ, suc, ◌<◌, true, false, ◌||◌, Option, none, some, List, [], ◌∷◌, Bytes, length, get_elem?, ◌≡◌,
  refl, ap, ◌⊎◌, inl, inr, arith,
}
use portolan.Context.{Error, Result, ok, err}
use portolan.Core.Types.{Symbol}
use portolan.Lsp.Conversion.{LspPosition}
use portolan.Lsp.Signatures.{Slot}
use portolan.Lsp.Signatures.Pool.{
  Pool, pool_start, slot_answer, answer_at, one_by_one, Run, IsDone, outcome,
}
use portolan.Lsp.Signatures.Pool.Invariant.{Inv, InPlace, is_some, mem, Run-Inv, pool_start-Inv}

module _ (answer : LspPosition → Symbol → Result Bytes) where
  -- Every answer in its place, index by index.
  gathered :
      (xs : List Slot) (signatures : List Bytes)
      → length signatures ≡ length xs
      → ((i : ℕ)
          → i < length xs
          → (t : Bytes) × (answer_at answer xs i ≡ some (ok t)) × (get_elem? signatures i ≡ some t))
      → one_by_one answer xs ≡ ok signatures
  unfolding one_by_one answer_at
  gathered [] [] n h = refl
  gathered [] (t ∷ ts) n h = absurd (omega (arith, n))
  gathered (x ∷ xs) [] n h = absurd (omega (arith, n))
  gathered (x ∷ xs) (t ∷ ts) n h =
      let (u, a, g) = h 0 (omega arith) in
      let r = gathered xs ts (omega (arith, n)) (λ i l. h (suc i) (omega arith)) in
      let e : slot_answer answer x ≡ ok t = ground (arith, a, g) in ground (arith, e, r)

  in_place :
      (slots : List Slot) (p : Pool)
      → Inv answer slots p
      → IsDone p
      → p.canceled ≡ false
      → (i : ℕ) → i < length slots
      → InPlace answer slots p i
  unfolding mem
  in_place slots p v d c i l = elim (v.covered i l) [
    | inl e ↦ absurd (cc)
    | inr (inl w) ↦ absurd (on_none w)
    | inr (inr q) ↦ q
  ]
    where
      on_none : (mem i p.waiting || (mem i p.taken || mem i p.busy)) ≡ true → ⊥
      on_none w = elim (v.drained d.fed) [
        | inl e ↦ cc
        | inr e ↦ ground (arith, w, ap (mem i) e, ap (mem i) d.none_taken, ap (mem i) d.none_busy)
      ]

  -- Signatures that the pool returns are those of asking one after the other, in the order of the plans,
  -- however the workers and the replies were interleaved.
  pub outcome-eq-one_by_one :
      (slots : List Slot) (p : Pool) (signatures : List Bytes)
      → Run answer slots (pool_start slots) p
      → IsDone p
      → outcome p ≡ ok signatures
      → one_by_one answer slots ≡ ok signatures
  unfolding outcome
  outcome-eq-one_by_one slots p signatures r d o =
      let v = Run-Inv answer slots (pool_start-Inv answer slots) r in
      let c : p.canceled ≡ false = not_canceled v in
      let s : p.signatures ≡ signatures = ground (arith, o) in
      rw (← s) (gathered slots p.signatures v.sized (in_place slots p v d c))
    where
      not_canceled : Inv answer slots p → p.canceled ≡ false
      not_canceled v = ground (arith, v.caused, o)

  -- An error that the pool returns is the answer for one of the plans, or the caller has canceled.
  pub outcome-eq-err :
      (slots : List Slot) (p : Pool) (e : Error)
      → Run answer slots (pool_start slots) p
      → outcome p ≡ err e
      → (is_some p.caller_err ≡ true) ⊎ ((i : ℕ) × (answer_at answer slots i ≡ some (err e)))
  unfolding outcome
  outcome-eq-err slots p e r o =
      let v = Run-Inv answer slots (pool_start-Inv answer slots) r in from p.first_err refl v
    where
      from :
          (f : Option Error)
          → p.first_err ≡ f
          → Inv answer slots p
          → (is_some p.caller_err ≡ true) ⊎ ((i : ℕ) × (answer_at answer slots i ≡ some (err e)))
      from none q v = inl (ground (arith, o))
      from (some f) q v = v.blamed e (ground (arith, o))
