-- ===== src/Lsp/FiniteWork.antt =====
-- internal/lsp/finite_work.go: which of completion, the caller's cancellation and an interruption
-- decides the outcome of work that cannot be stopped. The work runs beside the wait, so what the wait
-- wakes up on and what can be observed before and behind it are inputs.
use portolan.Prelude.{Option, none, some, ◌≡◌, ◌≢◌, arith}
use portolan.Context.{Error, Result, ok, err}

-- `ctx.Err()`, and the cause of the interruption if its channel is closed; `none` also where the work
-- has no interruption.
pub record Observed : Type 0 where
  pub caller : Option Error
  pub interruption : Option Error

-- The case that the select takes.
pub data Wakeup : Type 0 where
  completed caller_done interrupted : Wakeup

unfoldable pub finite_work_cancellation : Observed → Option Error
finite_work_cancellation o = elim o.caller [ some e ↦ some e | none ↦ o.interruption ]

module _ {ℓ} {A : Type ℓ} (zero_value : A) where
  -- The end of `runFiniteWork`: `completed` has its zero value unless the select received one.
  after_wait : Option Error → Wakeup → Result A → Result A
  after_wait (some e) wakeup result = err e
  after_wait none completed result = result
  after_wait none _ result = ok zero_value

  unfoldable pub run_finite_work : Observed → Observed → Wakeup → Result A → Result A
  unfolding after_wait finite_work_cancellation
  run_finite_work before after wakeup result = elim (finite_work_cancellation before) [
    | some e ↦ err e
    | none ↦ after_wait (finite_work_cancellation after) wakeup result
  ]

-- A channel that the select receives from is closed, so the cancellation is there to observe.
pub data Justified (after : Observed) : Wakeup → Type 0 where
  by_completion : Justified after completed
  by_caller : after.caller ≢ none → Justified after caller_done
  by_interruption : after.interruption ≢ none → Justified after interrupted

-- What decides the outcome, in the order of precedence.
unfoldable pub decided {ℓ} : {A : Type ℓ} → Option Error → Option Error → Result A → Result A
decided (some e) interruption result = err e
decided none (some e) result = err e
decided none none result = result

-- Where the work is not canceled when it starts, the caller's cancellation decides the outcome, without
-- one the interruption, and without either the work's own result, never the zero value of a wait that
-- was given up.
pub run_finite_work-decided :
    {A : Type 0} (zero_value : A) (before after : Observed) (wakeup : Wakeup) (result : Result A)
    → before.caller ≡ none
    → before.interruption ≡ none
    → Justified after wakeup
    → run_finite_work zero_value before after wakeup result
      ≡ decided after.caller after.interruption result
unfolding run_finite_work finite_work_cancellation after_wait decided
run_finite_work-decided z before after completed result a b by_completion = ground arith
run_finite_work-decided z before after caller_done result a b (by_caller h) = ground arith
run_finite_work-decided z before after interrupted result a b (by_interruption h) = ground arith
