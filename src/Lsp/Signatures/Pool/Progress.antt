-- ===== src/Lsp/Signatures/Pool/Progress.antt =====
-- From every state of the pool that is not its end there is a step.
use portolan.Prelude.{
  ℕ, zero, suc, ◌+◌, ◌*◌, ◌≤◌, true, false, some, List, [], ◌∷◌, Bytes, length, min, ltb, ◌≡◌, refl,
  ap, ◌⊎◌, inl, inr, arith, Bool-cases,
}
use portolan.Context.{Result, ok, err}
use portolan.Core.Types.{Symbol}
use portolan.Lsp.Conversion.{LspPosition}
use portolan.Lsp.Signatures.{Slot}
use portolan.Lsp.Signatures.Pool.{
  asked_indexes, max_concurrent_signature_requests, Feeder, selecting, checking, stopped, Pool,
  pool_start, slot_answer, answer_at, Step, hand, again, halt_selecting, halt_checking, close,
  begin, quit, reply, fail, cut_off, leave, cancel_by, Run, here, then_step, then_cancel, IsDone,
}
use portolan.Lsp.Signatures.Pool.Ending.{length_split, rank, steps, Run-rank}
use portolan.Lsp.Signatures.Pool.Alive.{in_range, Alive, pool_start-Alive, Run-Alive}

module _ (answer : LspPosition → Symbol → Result Bytes) (slots : List Slot) where
  -- Either all is done, or there is a step.
  abbrev Onward : Pool → Type 0
  Onward p = IsDone p ⊎ ((q : Pool) × Step answer slots p q)

  answer_there :
      (i : ℕ)
      → ltb i (length slots) ≡ true
      → (r : Result Bytes) × (answer_at answer slots i ≡ some r)
  unfolding answer_at
  answer_there i h = at slots i h
    where
      at :
          (xs : List Slot) (i : ℕ)
          → ltb i (length xs) ≡ true
          → (r : Result Bytes) × (answer_at answer xs i ≡ some r)
      at [] i h = absurd (ground arith)
      at (x ∷ xs) zero h = (slot_answer answer x, refl)
      at (x ∷ xs) (suc i) h = at xs i (ground arith)

  busy-Onward :
      (p : Pool) (i : ℕ) (rest : List ℕ) → Alive answer slots p → p.busy ≡ i ∷ rest → Onward p
  unfolding in_range
  busy-Onward p i rest v w =
      let (r, a) = answer_there i (ground (arith, w, v.busy_ok)) in answered r a
    where
      answered : (r : Result Bytes) → answer_at answer slots i ≡ some r → Onward p
      answered (ok t) a = inr (_, reply i [] rest t w a)
      answered (err e) a = inr (_, fail i [] rest e w a)

  taken-Onward : (p : Pool) (i : ℕ) (rest : List ℕ) → p.taken ≡ i ∷ rest → Onward p
  taken-Onward p i rest w = elim (Bool-cases p.canceled) [
    | inl c ↦ inr (_, quit i [] rest w c)
    | inr c ↦ inr (_, begin i [] rest w c)
  ]

  stopped-Onward :
      (p : Pool) (n : ℕ) → p.idle ≡ n → p.feeder ≡ stopped → p.taken ≡ [] → p.busy ≡ [] → Onward p
  stopped-Onward p zero d f t b =
      inl (record { fed = f; none_idle = d; none_taken = t; none_busy = b })
  stopped-Onward p (suc n) d f t b = inr (_, leave n f d)

  hand-Onward :
      (p : Pool) (i n : ℕ) (rest : List ℕ)
      → Alive answer slots p
      → p.idle ≡ n
      → p.feeder ≡ selecting
      → p.waiting ≡ i ∷ rest
      → p.taken ≡ []
      → p.busy ≡ []
      → p.canceled ≡ false
      → Onward p
  hand-Onward p i zero rest v d f w t b c =
      absurd (ground (arith, v.workers, v.fewer, ap length w, ap length t, ap length b))
  hand-Onward p i (suc n) rest v d f w t b c = inr (_, hand i n rest f w d)

  select-Onward :
      (p : Pool) (l : List ℕ)
      → Alive answer slots p
      → p.waiting ≡ l
      → p.feeder ≡ selecting
      → p.taken ≡ []
      → p.busy ≡ []
      → Onward p
  select-Onward p [] v w f t b = inr (_, close f w)
  select-Onward p (i ∷ rest) v w f t b = elim (Bool-cases p.canceled) [
    | inl c ↦ inr (_, halt_selecting f c)
    | inr c ↦ hand-Onward p i p.idle rest v refl f w t b c
  ]

  feeder-Onward :
      (p : Pool) (f : Feeder)
      → Alive answer slots p
      → p.feeder ≡ f
      → p.taken ≡ []
      → p.busy ≡ []
      → Onward p
  feeder-Onward p selecting v f t b = select-Onward p p.waiting v refl f t b
  feeder-Onward p stopped v f t b = stopped-Onward p p.idle refl f t b
  feeder-Onward p checking v f t b = elim (Bool-cases p.canceled) [
    | inl c ↦ inr (_, halt_checking f c)
    | inr c ↦ inr (_, again f c)
  ]

  Alive-Onward :
      (p : Pool) (busy taken : List ℕ)
      → Alive answer slots p
      → p.busy ≡ busy
      → p.taken ≡ taken
      → Onward p
  Alive-Onward p (i ∷ rest) taken v b t = busy-Onward p i rest v b
  Alive-Onward p [] (i ∷ rest) v b t = taken-Onward p i rest t
  Alive-Onward p [] [] v b t = feeder-Onward p p.feeder v refl t b

  -- The pool never stands still: in every state that it reaches, `requestSignatures` is past its wait or
  -- some worker, the feeder or a reply can go on, without the caller.
  pub Run-onward :
      (p : Pool)
      → Run answer slots (pool_start slots) p
      → IsDone p ⊎ ((q : Pool) × Step answer slots p q)
  Run-onward p r =
      Alive-Onward p p.busy p.taken (Run-Alive answer slots (pool_start-Alive answer slots) r) refl
        refl

  -- `requestSignatures` comes back: the pool takes a bounded number of steps, whatever order they come in and
  -- whether or not the caller cancels, and in every state that it reaches it is past its wait, or the
  -- feeder, a worker or a reply, which every request may get, has a step to take that does not depend on the
  -- caller to cancel.
  pub Run-ends :
      (p : Pool) (r : Run answer slots (pool_start slots) p)
      → (steps answer slots r
          ≤ 4 * length (asked_indexes 0 slots)
            + min (length (asked_indexes 0 slots)) max_concurrent_signature_requests
            + 2)
        × (IsDone p ⊎ ((q : Pool) × Step answer slots p q))
  unfolding rank pool_start
  Run-ends p r = (omega (arith, Run-rank answer slots r), Run-onward p r)

  -- At most eight requests are on their way at any time.
  pub Run-few :
      (p : Pool)
      → Run answer slots (pool_start slots) p
      → p.idle + length p.taken + length p.busy ≤ max_concurrent_signature_requests
  unfolding pool_start cancel_by
  Run-few p here = omega arith
  Run-few _ (then_cancel {q} e r c) = Run-few q r
  Run-few _ (then_step {q} r s) = few s (Run-few q r)
    where
      few :
          {p q : Pool}
          → Step answer slots p q
          → p.idle + length p.taken + length p.busy ≤ 8
          → q.idle + length q.taken + length q.busy ≤ 8
      few (hand i n rest f w d) h = ground (arith, h, d)
      few (again f c) h = h
      few (halt_selecting f c) h = h
      few (halt_checking f c) h = h
      few (close f w) h = h
      few {p} (begin i before behind w c) h =
          ground (arith, h, length_split i before behind p.taken w)
      few {p} (quit i before behind w c) h =
          ground (arith, h, length_split i before behind p.taken w)
      few {p} (reply i before behind t w a) h =
          ground (arith, h, length_split i before behind p.busy w)
      few {p} (fail i before behind e w a) h =
          ground (arith, h, length_split i before behind p.busy w)
      few {p} (cut_off i before behind e w c) h =
          ground (arith, h, length_split i before behind p.busy w)
      few (leave n f d) h = ground (arith, h, d)
