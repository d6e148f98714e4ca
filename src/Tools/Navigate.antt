-- ===== src/Tools/Navigate.antt =====
-- internal/tools/find_definition.go and internal/tools/find_references.go.
pub mod Contract
use portolan.Prelude.{
  ℕ, Bool, true, false, Option, none, some, List, [], ◌∷◌, ◌++◌, Bytes, codes, ltb, if◌then◌else◌,
  length, take,
}
use portolan.Prelude.Int.{ℤ}
use portolan.Context.{Error, message, Result, ok, err, Context}
use portolan.Core.Types.{Position, Location, Nodes, Freshness}
use portolan.Core.Config.{cap_of, Event}
use portolan.Tools.Resolve.{resolve_symbol_position}
use portolan.Tools.Run.{
  Tools, Validated, valid, invalid, validate_file, run_provider_stage, ToolResult, run_tool,
}

-- `FindDefinitionInput` and `FindReferencesInput`, which have the same fields.
pub record NavigationInput : Type 0 where
  pub file : Bytes
  pub symbol : Bytes
  pub line : Option ℤ

-- `FindDefinitionOutput` and `FindReferencesOutput`, which have the same fields.
pub record NavigationOutput : Type 0 where
  pub found : Bool
  pub locations : List Location
  pub truncated : Bool
  pub freshness : Freshness
  pub message : Bytes
  pub error : Bytes

unfoldable pub stamped : Freshness → NavigationOutput
stamped fresh = record {
  found = false;
  locations = [];
  truncated = false;
  freshness = fresh;
  message = [];
  error = [];
}

abbrev pub navigation_result : ToolResult NavigationOutput
navigation_result = record {
  set_freshness = stamped;
  result_size = λ o. length o.locations;
  is_truncated = λ o. o.truncated;
  error_of = λ o. o.error;
}

-- The end of both tools: an honest empty, or the locations up to the cap.
unfoldable pub deliver : ℕ → Bytes → NavigationOutput → List Location → NavigationOutput
deliver limit nothing out [] = record out { message = nothing }
deliver limit nothing out (l ∷ ls) =
    if ltb limit (length (l ∷ ls))
    then record out { found = true; truncated = true; locations = take limit (l ∷ ls) }
    else record out { found = true; locations = l ∷ ls }

-- The two tools are one function of the request that they make and of two messages. Each function is
-- what follows a call, over the call's result.
module _ (t : Tools) (input : NavigationInput) (failed nothing : Bytes)
    (out : NavigationOutput) where
  unfoldable pub after_request : Result (List Location × Context) → NavigationOutput
  after_request (err e) = record out { error = message e; message = failed ++ t.quote input.symbol }
  after_request (ok (locs, _)) =
      deliver (cap_of t.config.max_results) (nothing ++ t.quote input.symbol) out locs

  unfoldable pub after_resolve :
      Bytes
      → (Bytes → Position → Result (List Location))
      → Result (Option Position × Context)
      → NavigationOutput
  unfolding after_request
  after_resolve file request (err e) = record out {
    error = message e;
    message = codes "operation canceled while resolving symbol " ++ t.quote input.symbol;
  }
  after_resolve file request (ok (none, _)) = record out {
    message = codes "symbol " ++ (t.quote input.symbol ++ (codes " not found in " ++ file));
  }
  after_resolve file request (ok (some pos, c)) =
      after_request (run_provider_stage (request file pos) c)

  unfoldable pub after_symbols :
      Bytes
      → (Bytes → Position → Result (List Location))
      → Result (Nodes × Context)
      → NavigationOutput
  unfolding after_resolve
  after_symbols file request (err e) = record out {
    error = message e;
    message = codes "failed to load symbols for " ++ file;
  }
  after_symbols file request (ok (symbols, c)) =
      after_resolve file request (resolve_symbol_position symbols input.symbol input.line c)

  unfoldable pub after_validate :
      (Bytes → Position → Result (List Location)) → Validated → Context → NavigationOutput
  unfolding after_symbols
  after_validate request (invalid f) c = record out { error = f.failure; message = f.explanation }
  after_validate request (valid file) c =
      after_symbols file request (run_provider_stage (t.provider.document_symbols file) c)

unfoldable pub find_definition_body :
    Tools → NavigationInput → NavigationOutput → Context → NavigationOutput
find_definition_body t input out =
    after_validate t input (codes "provider error resolving definition of ")
      (codes "no definition found for ") out t.provider.definition (validate_file t input.file)

unfoldable pub find_references_body :
    Tools → NavigationInput → NavigationOutput → Context → NavigationOutput
find_references_body t input out =
    after_validate t input (codes "provider error resolving references to ")
      (codes "no references found for ") out (λ file pos. t.provider.references file pos true)
      (validate_file t input.file)

-- A call: generation and elapsed time as they are read, the events logged so far.
unfoldable pub find_definition :
    Tools → NavigationInput → ℕ → ℕ → Context → List Event → NavigationOutput × List Event
unfolding run_tool
find_definition t input generation elapsed =
    run_tool navigation_result t generation elapsed (codes "find_definition")
      (find_definition_body t input)

unfoldable pub find_references :
    Tools → NavigationInput → ℕ → ℕ → Context → List Event → NavigationOutput × List Event
unfolding run_tool
find_references t input generation elapsed =
    run_tool navigation_result t generation elapsed (codes "find_references")
      (find_references_body t input)
