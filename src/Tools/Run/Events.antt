-- ===== src/Tools/Run/Events.antt =====
-- What `runTool` logs, for every tool, and its stages where nothing fails.
use portolan.Prelude.{ℕ, List, [], ◌∷◌, ◌++◌, Bytes, ◌≡◌, refl, ◌<◌, length, arith}
use portolan.Context.{Result, ok, err, Context, background, check, poll}
use portolan.Core.Types.{Freshness}
use portolan.Core.Config.{Event, current}
use portolan.Tools.Run.{
  Tools, ToolResult, run_tool, event_of, Validated, valid, invalid, invalid_file, validate_file,
  run_provider_stage,
}

-- The event of a call reports its output, the configured session and the freshness read at the start.
pub record Reports {ℓ} {Out : Type ℓ} (result : ToolResult Out) (t : Tools) (tool : Bytes)
    (fresh : Freshness) (out : Out) (e : Event) : Type ℓ where
  pub session : e.session_id ≡ t.config.session_id
  pub mode : e.graph_mode ≡ t.config.graph_mode
  pub named : e.tool ≡ tool
  pub sized : e.result_size ≡ result.result_size out
  pub same_truncation : e.truncated ≡ result.is_truncated out
  pub same_error : e.error ≡ result.error_of out
  pub same_generation : e.generation ≡ fresh.generation
  pub same_staleness : e.stale ≡ fresh.stale

-- One call logs one event behind those that were there, and the event reports the call's output.
pub record LogsOnce {ℓ} {Out : Type ℓ} (result : ToolResult Out) (t : Tools) (tool : Bytes)
    (generation : ℕ) (log : List Event) (r : Out × List Event) : Type ℓ where
  pub event : Event
  pub one_event : r.1 ≡ log ++ (event ∷ [])
  pub reports : Reports result t tool (current generation) r.0 event

pub run_tool-LogsOnce {ℓ} :
    {Out : Type ℓ} (result : ToolResult Out) (t : Tools) (tool : Bytes) (generation elapsed : ℕ)
    (execute : Out → Context → Out) (c : Context) (log : List Event)
    → LogsOnce result t tool generation log
        (run_tool result t generation elapsed tool execute c log)
unfolding run_tool
run_tool-LogsOnce result t tool generation elapsed execute c log = record {
  event =
      event_of result t elapsed tool (current generation)
        (execute (result.set_freshness (current generation)) c);
  one_event = refl;
  reports = record {
    session = refl;
    mode = refl;
    named = refl;
    sized = refl;
    same_truncation = refl;
    same_error = refl;
    same_generation = refl;
    same_staleness = refl;
  };
}

pub validate_file_ok :
    (t : Tools) (input : Bytes) {file : Bytes}
    → t.canonicalize input ≡ ok file
    → validate_file t input ≡ valid file
unfolding validate_file
validate_file_ok t input h = rw (h, validate_file)

pub run_provider_stage_ok {ℓ} :
    {A : Type ℓ} {r : Result A} {a : A}
    → r ≡ ok a
    → run_provider_stage r background ≡ ok (a, background)
unfolding run_provider_stage check poll
run_provider_stage_ok h = rw h

-- A rejected file comes with an explanation.
abbrev pub HasReason : Validated → Type 0
HasReason (invalid f) = 0 < length f.explanation
HasReason (valid file) = Unit {0}

pub validate_file-HasReason : (t : Tools) (input : Bytes) → HasReason (validate_file t input)
unfolding validate_file
validate_file-HasReason t input = go (t.canonicalize input)
  where
    go :
        (x : Result Bytes)
        → HasReason (elim x [ ok file ↦ valid file | err _ ↦ invalid invalid_file ])
    go (ok file) = tt
    go (err e) = omega arith
