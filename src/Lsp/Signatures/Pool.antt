-- ===== src/Lsp/Signatures/Pool.antt =====
-- internal/lsp/signatures.go, requestSignatures: the workers that ask the language server for the hovers of
-- the plans without a text, at most eight at a time. One feeder hands out indexes over a channel without a
-- buffer, the first error cancels the rest, and the caller may cancel at any moment.
pub mod Invariant
pub mod Results
pub mod Ending
pub mod Alive
pub mod Progress
use portolan.Prelude.{
  ℕ, zero, suc, ◌+◌, Bool, true, false, Option, none, some, List, [], ◌∷◌, ◌++◌, Bytes, map, length,
  min, ◌≡◌, get_elem?, set,
}
use portolan.Context.{Error, Result, ok, err}
use portolan.Core.Types.{Symbol}
use portolan.Lsp.Conversion.{LspPosition}
use portolan.Lsp.Signatures.{Slot, direct, asked}

abbrev pub max_concurrent_signature_requests : ℕ
max_concurrent_signature_requests = 8

-- The indexes that the feeder hands out.
unfoldable pub asked_indexes : ℕ → List Slot → List ℕ
asked_indexes i [] = []
asked_indexes i (direct t ∷ slots) = asked_indexes (i + 1) slots
asked_indexes i (asked p s ∷ slots) = i ∷ asked_indexes (i + 1) slots

unfoldable pub direct_text : Slot → Bytes
direct_text (direct t) = t
direct_text (asked p s) = []

-- The feeder waits in its select, has left it and looks at the context, or has left its loop.
pub data Feeder : Type 0 where
  selecting checking stopped : Feeder

-- A worker waits for an index, has one and looks at the context (`taken`), or waits for its reply (`busy`).
pub record Pool : Type 0 where
  pub signatures : List Bytes
  pub waiting : List ℕ
  pub feeder : Feeder
  pub idle : ℕ
  pub taken : List ℕ
  pub busy : List ℕ
  pub first_err : Option Error
  pub caller_err : Option Error
  pub canceled : Bool

unfoldable pub pool_start : List Slot → Pool
unfolding asked_indexes direct_text
pool_start slots = record {
  signatures = map direct_text slots;
  waiting = asked_indexes 0 slots;
  feeder = selecting;
  idle = min (length (asked_indexes 0 slots)) max_concurrent_signature_requests;
  taken = [];
  busy = [];
  first_err = none;
  caller_err = none;
  canceled = false;
}

-- `errOnce.Do`.
abbrev pub once : Option Error → Error → Option Error
once none e = some e
once (some f) e = some f

-- The caller's context ends: it has an error from then on, and so has the context of the work.
unfoldable pub cancel_by : Error → Pool → Pool
cancel_by e p = record p { caller_err = some e; canceled = true }

-- The request and the decoding of its reply.
module _ (answer : LspPosition → Symbol → Result Bytes) where
  unfoldable pub slot_answer : Slot → Result Bytes
  slot_answer (direct t) = ok t
  slot_answer (asked p s) = answer p s

  -- What the server has for the plan of that index.
  unfoldable pub answer_at : List Slot → ℕ → Option (Result Bytes)
  unfolding slot_answer
  answer_at [] i = none
  answer_at (x ∷ slots) zero = some (slot_answer x)
  answer_at (x ∷ slots) (suc i) = answer_at slots i

  -- Asking one after the other, in the order of the plans.
  unfoldable pub one_by_one : List Slot → Result (List Bytes)
  unfolding slot_answer
  one_by_one [] = ok []
  one_by_one (x ∷ slots) = elim (slot_answer x) [
    | err e ↦ err e
    | ok t ↦ elim (one_by_one slots) [ err e ↦ err e | ok ts ↦ ok (t ∷ ts) ]
  ]

  -- A step of the feeder, of a worker or of a reply.
  pub data Step (slots : List Slot) (p : Pool) : Pool → Type 0 where
    hand :
        (i n : ℕ) (rest : List ℕ)
        → p.feeder ≡ selecting
        → p.waiting ≡ i ∷ rest
        → p.idle ≡ suc n
        → Step slots p
            (record p { waiting = rest; feeder = checking; idle = n; taken = i ∷ p.taken })
    again :
        p.feeder ≡ checking → p.canceled ≡ false → Step slots p (record p { feeder = selecting })
    halt_selecting :
        p.feeder ≡ selecting → p.canceled ≡ true → Step slots p (record p { feeder = stopped })
    halt_checking :
        p.feeder ≡ checking → p.canceled ≡ true → Step slots p (record p { feeder = stopped })
    close : p.feeder ≡ selecting → p.waiting ≡ [] → Step slots p (record p { feeder = stopped })
    begin :
        (i : ℕ) (before behind : List ℕ)
        → p.taken ≡ before ++ (i ∷ behind)
        → p.canceled ≡ false
        → Step slots p (record p { taken = before ++ behind; busy = i ∷ p.busy })
    quit :
        (i : ℕ) (before behind : List ℕ)
        → p.taken ≡ before ++ (i ∷ behind)
        → p.canceled ≡ true
        → Step slots p (record p { taken = before ++ behind })
    reply :
        (i : ℕ) (before behind : List ℕ) (t : Bytes)
        → p.busy ≡ before ++ (i ∷ behind)
        → answer_at slots i ≡ some (ok t)
        → Step slots p (record p {
          signatures = set p.signatures i t;
          busy = before ++ behind;
          idle = p.idle + 1;
        })
    fail :
        (i : ℕ) (before behind : List ℕ) (e : Error)
        → p.busy ≡ before ++ (i ∷ behind)
        → answer_at slots i ≡ some (err e)
        → Step slots p
            (record p { busy = before ++ behind; first_err = once p.first_err e; canceled = true })
    cut_off :
        (i : ℕ) (before behind : List ℕ) (e : Error)
        → p.busy ≡ before ++ (i ∷ behind)
        → p.canceled ≡ true
        → Step slots p (record p { busy = before ++ behind; first_err = once p.first_err e })
    leave : (n : ℕ) → p.feeder ≡ stopped → p.idle ≡ suc n → Step slots p (record p { idle = n })

  -- The pool's own steps, with the caller's cancellation anywhere between them, or nowhere.
  pub data Run (slots : List Slot) (p : Pool) : Pool → Type 0 where
    here : Run slots p p
    then_step : {q r : Pool} → Run slots p q → Step slots q r → Run slots p r
    then_cancel :
        {q : Pool} (e : Error) → Run slots p q → q.caller_err ≡ none → Run slots p (cancel_by e q)

-- `wg.Wait()` returns: every worker is gone, and nothing is fed any more.
pub record IsDone (p : Pool) : Type 0 where
  pub fed : p.feeder ≡ stopped
  pub none_idle : p.idle ≡ 0
  pub none_taken : p.taken ≡ []
  pub none_busy : p.busy ≡ []

-- What `requestSignatures` returns behind the wait.
unfoldable pub outcome : Pool → Result (List Bytes)
outcome p = elim p.first_err [
  | some e ↦ err e
  | none ↦ elim p.caller_err [ some e ↦ err e | none ↦ ok p.signatures ]
]
