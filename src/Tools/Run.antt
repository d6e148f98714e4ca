-- ===== src/Tools/Run.antt =====
-- internal/tools/tools.go: what every tool call shares. The provider is the interface
-- core.LanguageProvider of internal/core/types.go, and `canonicalize` is pathnorm.Canonicalize in the
-- host's environment; `quote` is the `%q` of a Go string. The operation's context is an argument, since
-- the deadline that `operationContext` adds is one more way for a poll to see a cancellation.
pub mod Events
use portolan.Prelude.{ℕ, Bool, List, [], ◌∷◌, ◌++◌, Bytes, codes}
use portolan.Context.{Error, Result, ok, err, Context, M, ◌>>=◌, return, check, lift}
use portolan.Core.Types.{Position, Location, Symbol, Nodes, Freshness}
use portolan.Core.Config.{Config, Event, current}

pub record Provider : Type 0 where
  pub definition : Bytes → Position → Result (List Location)
  pub references : Bytes → Position → Bool → Result (List Location)
  pub document_symbols : Bytes → Result Nodes
  pub symbol_signatures : Bytes → List Symbol → Result (List Bytes)

pub record Tools : Type 0 where
  pub provider : Provider
  pub config : Config
  pub canonicalize : Bytes → Result Bytes
  pub quote : Bytes → Bytes

-- A successful result counts only while the context is active.
unfoldable pub run_provider_stage {ℓ} : {A : Type ℓ} → Result A → M A
run_provider_stage result = lift result >>= λ a. check >>= λ _. return a

-- `toolResult`: what a completed call tells the telemetry.
pub record ToolResult {ℓ} (Out : Type ℓ) : Type ℓ where
  pub set_freshness : Freshness → Out
  pub result_size : Out → ℕ
  pub is_truncated : Out → Bool
  pub error_of : Out → Bytes

pub record Failure : Type 0 where
  pub failure : Bytes
  pub explanation : Bytes

abbrev pub invalid_file : Failure
invalid_file = record {
  failure = codes "invalid file path";
  explanation =
      codes
        "file must be an absolute Linux/WSL path, Windows drive path, or same-distro WSL UNC path";
}

pub data Validated : Type 0 where
  valid : Bytes → Validated
  invalid : Failure → Validated

unfoldable pub validate_file : Tools → Bytes → Validated
validate_file t input = elim (t.canonicalize input) [
  | ok file ↦ valid file
  | err _ ↦ invalid invalid_file
]

-- `runTool` with `finish`: the freshness is read before the body runs, and one event is logged behind
-- it. `execute` is the body, from the stamped output, and `log` the events that the logger has.
module _ {ℓ} {Out : Type ℓ} (result : ToolResult Out) where
  unfoldable pub event_of : Tools → ℕ → Bytes → Freshness → Out → Event
  event_of t elapsed tool fresh out = record {
    session_id = t.config.session_id;
    graph_mode = t.config.graph_mode;
    tool = tool;
    duration_ms = elapsed;
    result_size = result.result_size out;
    truncated = result.is_truncated out;
    stale = fresh.stale;
    generation = fresh.generation;
    error = result.error_of out;
  }

  unfoldable pub run_tool :
      Tools → ℕ → ℕ → Bytes → (Out → Context → Out) → Context → List Event → Out × List Event
  unfolding event_of
  run_tool t generation elapsed tool execute c log =
      let fresh = current generation in
      let out = execute (result.set_freshness fresh) c in
      (out, log ++ (event_of t elapsed tool fresh out ∷ []))
