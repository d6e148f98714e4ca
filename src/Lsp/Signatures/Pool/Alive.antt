-- ===== src/Lsp/Signatures/Pool/Alive.antt =====
-- The pool never stops before every worker is gone: its workers are there until the work is canceled or
-- fed, so that whatever is on its way has a step.
use portolan.Prelude.{
  ℕ, ◌+◌, ◌≤◌, Bool, true, ◌&&◌, List, [], ◌∷◌, ◌++◌, Bytes, length, min, ltb, all_of, ◌≡◌, refl,
  ap, ◌⊎◌, inl, inr, arith,
}
use portolan.Context.{Error, Result}
use portolan.Core.Types.{Symbol}
use portolan.Lsp.Conversion.{LspPosition}
use portolan.Lsp.Signatures.{Slot, direct, asked}
use portolan.Lsp.Signatures.Pool.{
  asked_indexes, max_concurrent_signature_requests, stopped, Pool, pool_start, Step, hand, again,
  halt_selecting, halt_checking, close, begin, quit, reply, fail, cut_off, leave, cancel_by, Run,
  here, then_step, then_cancel,
}
use portolan.Lsp.Signatures.Pool.Ending.{length_split}

unfoldable pub in_range : List Slot → List ℕ → Bool
in_range slots l = all_of (λ i. ltb i (length slots)) l

all_of-append : (p : ℕ → Bool) (xs ys : List ℕ) → all_of p (xs ++ ys) ≡ all_of p xs && all_of p ys
all_of-append p [] ys = refl
all_of-append p (x ∷ xs) ys = ground (arith, all_of-append p xs ys)

module _ (slots : List Slot) where
  in_range_split :
      (i : ℕ) (before behind whole : List ℕ)
      → whole ≡ before ++ (i ∷ behind)
      → in_range slots whole ≡ true
      → (ltb i (length slots) ≡ true) × (in_range slots (before ++ behind) ≡ true)
  unfolding in_range
  in_range_split i before behind whole e h =
      let f : ℕ → Bool = λ i. ltb i (length slots) in
      ground (
        arith,
        ap (all_of f) e,
        h,
        all_of-append f before (i ∷ behind),
        all_of-append f before behind,
      )

module _ (answer : LspPosition → Symbol → Result Bytes) (slots : List Slot) where
  -- The workers are all there until the work is canceled or fed, and the indexes are those of plans.
  pub record Alive (p : Pool) : Type 0 where
    pub workers :
        (p.canceled ≡ true)
        ⊎ ((p.feeder ≡ stopped)
            ⊎ (p.idle + length p.taken + length p.busy
                ≡ min (length (asked_indexes 0 slots)) max_concurrent_signature_requests))
    pub fewer : length p.waiting ≤ length (asked_indexes 0 slots)
    pub waiting_ok : in_range slots p.waiting ≡ true
    pub taken_ok : in_range slots p.taken ≡ true
    pub busy_ok : in_range slots p.busy ≡ true

  Step-Alive : {p q : Pool} → Alive p → Step answer slots p q → Alive q
  unfolding in_range
  Step-Alive {p} v (hand i n rest f w d) = record {
    workers = ground (arith, v.workers);
    fewer = ground (arith, v.fewer, ap length w);
    waiting_ok = ground (arith, v.waiting_ok, w);
    taken_ok = ground (arith, v.waiting_ok, v.taken_ok, w);
    busy_ok = v.busy_ok;
  }
  Step-Alive v (again f c) = record {
    workers = ground (arith, v.workers);
    fewer = v.fewer;
    waiting_ok = v.waiting_ok;
    taken_ok = v.taken_ok;
    busy_ok = v.busy_ok;
  }
  Step-Alive v (halt_selecting f c) = record {
    workers = inl c;
    fewer = v.fewer;
    waiting_ok = v.waiting_ok;
    taken_ok = v.taken_ok;
    busy_ok = v.busy_ok;
  }
  Step-Alive v (halt_checking f c) = record {
    workers = inl c;
    fewer = v.fewer;
    waiting_ok = v.waiting_ok;
    taken_ok = v.taken_ok;
    busy_ok = v.busy_ok;
  }
  Step-Alive v (close f w) = record {
    workers = inr (inl refl);
    fewer = v.fewer;
    waiting_ok = v.waiting_ok;
    taken_ok = v.taken_ok;
    busy_ok = v.busy_ok;
  }
  Step-Alive {p} v (begin i before behind w c) =
      let s = in_range_split slots i before behind p.taken w v.taken_ok in
      record {
        workers = ground (arith, v.workers, length_split i before behind p.taken w);
        fewer = v.fewer;
        waiting_ok = v.waiting_ok;
        taken_ok = s.1;
        busy_ok = ground (arith, s.0, v.busy_ok);
      }
  Step-Alive {p} v (quit i before behind w c) = record {
    workers = inl c;
    fewer = v.fewer;
    waiting_ok = v.waiting_ok;
    taken_ok = (in_range_split slots i before behind p.taken w v.taken_ok).1;
    busy_ok = v.busy_ok;
  }
  Step-Alive {p} v (reply i before behind t w a) = record {
    workers = ground (arith, v.workers, length_split i before behind p.busy w);
    fewer = v.fewer;
    waiting_ok = v.waiting_ok;
    taken_ok = v.taken_ok;
    busy_ok = (in_range_split slots i before behind p.busy w v.busy_ok).1;
  }
  Step-Alive {p} v (fail i before behind e w a) = record {
    workers = inl refl;
    fewer = v.fewer;
    waiting_ok = v.waiting_ok;
    taken_ok = v.taken_ok;
    busy_ok = (in_range_split slots i before behind p.busy w v.busy_ok).1;
  }
  Step-Alive {p} v (cut_off i before behind e w c) = record {
    workers = inl c;
    fewer = v.fewer;
    waiting_ok = v.waiting_ok;
    taken_ok = v.taken_ok;
    busy_ok = (in_range_split slots i before behind p.busy w v.busy_ok).1;
  }
  Step-Alive v (leave n f d) = record {
    workers = inr (inl f);
    fewer = v.fewer;
    waiting_ok = v.waiting_ok;
    taken_ok = v.taken_ok;
    busy_ok = v.busy_ok;
  }

  cancel_by-Alive : {p : Pool} (e : Error) → Alive p → Alive (cancel_by e p)
  unfolding cancel_by
  cancel_by-Alive e v = record {
    workers = inl refl;
    fewer = v.fewer;
    waiting_ok = v.waiting_ok;
    taken_ok = v.taken_ok;
    busy_ok = v.busy_ok;
  }

  pub Run-Alive : {p q : Pool} → Alive p → Run answer slots p q → Alive q
  Run-Alive v here = v
  Run-Alive v (then_step r s) = Step-Alive (Run-Alive v r) s
  Run-Alive v (then_cancel e r c) = cancel_by-Alive e (Run-Alive v r)

  pub pool_start-Alive : Alive (pool_start slots)
  unfolding pool_start in_range
  pool_start-Alive = record {
    workers = inr (inr (omega arith));
    fewer = omega arith;
    waiting_ok = started 0 slots (length slots) (omega arith);
    taken_ok = refl;
    busy_ok = refl;
  }
    where
      started :
          (i : ℕ) (xs : List Slot) (n : ℕ)
          → i + length xs ≤ n
          → all_of (λ k. ltb k n) (asked_indexes i xs) ≡ true
      started i [] n h = refl
      started i (direct t ∷ xs) n h = started (i + 1) xs n (omega arith)
      started i (asked p s ∷ xs) n h = ground (arith, started (i + 1) xs n (omega arith))
