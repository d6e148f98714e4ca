-- ===== src/Lsp/Signatures/Pool/Ending.antt =====
-- Every step brings the pool nearer to its end.
use portolan.Prelude.{
  ℕ, suc, ◌+◌, ◌*◌, ◌≤◌, ◌<◌, Option, none, some, List, ◌∷◌, ◌++◌, Bytes, length, length-append,
  ◌≡◌, ap, arith,
}
use portolan.Context.{Error, Result}
use portolan.Core.Types.{Symbol}
use portolan.Lsp.Conversion.{LspPosition}
use portolan.Lsp.Signatures.{Slot}
use portolan.Lsp.Signatures.Pool.{
  Feeder, selecting, checking, stopped, Pool, Step, hand, again, halt_selecting, halt_checking,
  close, begin, quit, reply, fail, cut_off, leave, cancel_by, Run, here, then_step, then_cancel,
}

abbrev feeder_rank : Feeder → ℕ
feeder_rank selecting = 1
feeder_rank checking = 2
feeder_rank stopped = 0

abbrev to_cancel : Option Error → ℕ
to_cancel none = 1
to_cancel (some e) = 0

-- How many steps are left at most.
unfoldable pub rank : Pool → ℕ
rank p =
    4 * length p.waiting
    + feeder_rank p.feeder
    + p.idle
    + 3 * length p.taken
    + 2 * length p.busy
    + to_cancel p.caller_err

pub length_split :
    (i : ℕ) (before behind whole : List ℕ)
    → whole ≡ before ++ (i ∷ behind)
    → length whole ≡ suc (length (before ++ behind))
length_split i before behind whole e =
    omega (arith, ap length e, length-append before (i ∷ behind), length-append before behind)

module _ (answer : LspPosition → Symbol → Result Bytes) (slots : List Slot) where
  Step-rank : {p q : Pool} → Step answer slots p q → rank q < rank p
  unfolding rank
  Step-rank {p} (hand i n rest f w d) = ground (arith, ap length w)
  Step-rank (again f c) = ground arith
  Step-rank (halt_selecting f c) = ground arith
  Step-rank (halt_checking f c) = ground arith
  Step-rank (close f w) = ground arith
  Step-rank {p} (begin i before behind w c) = ground (arith, length_split i before behind p.taken w)
  Step-rank {p} (quit i before behind w c) = ground (arith, length_split i before behind p.taken w)
  Step-rank {p} (reply i before behind t w a) =
      ground (arith, length_split i before behind p.busy w)
  Step-rank {p} (fail i before behind e w a) = ground (arith, length_split i before behind p.busy w)
  Step-rank {p} (cut_off i before behind e w c) =
      ground (arith, length_split i before behind p.busy w)
  Step-rank (leave n f d) = ground arith

  cancel_by-rank : (p : Pool) (e : Error) → p.caller_err ≡ none → rank (cancel_by e p) < rank p
  unfolding rank cancel_by
  cancel_by-rank p e c = ground arith

  -- How many steps a run has, the caller's cancellation among them.
  unfoldable pub steps : {p q : Pool} → Run answer slots p q → ℕ
  steps here = 0
  steps (then_step r s) = suc (steps r)
  steps (then_cancel e r c) = suc (steps r)

  pub Run-rank : {p q : Pool} (r : Run answer slots p q) → rank q + steps r ≤ rank p
  unfolding steps
  Run-rank here = omega arith
  Run-rank (then_step r s) = omega (arith, Run-rank r, Step-rank s)
  Run-rank (then_cancel {q} e r c) = omega (arith, Run-rank r, cancel_by-rank q e c)
