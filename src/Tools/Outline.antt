-- ===== src/Tools/Outline.antt =====
-- internal/tools/get_outline.go: the bounded, flat outline of a file with its signatures.
pub mod Contract
use portolan.Prelude.{
  ℕ, Bool, true, false, List, [], ◌∷◌, ◌++◌, Bytes, codes, length, if◌then◌else◌, ◌==◌,
}
use portolan.Context.{message, Result, ok, err, Context}
use portolan.Core.Types.{Nodes, nil, cons, Freshness}
use portolan.Core.Config.{cap_of, Event}
use portolan.Tools.Flatten.{OutlineSymbol, FlattenedSymbols, flatten_symbols}
use portolan.Tools.Run.{
  Tools, Validated, valid, invalid, validate_file, run_provider_stage, ToolResult, run_tool,
}

pub record GetOutlineOutput : Type 0 where
  pub found : Bool
  pub file : Bytes
  pub symbols : List OutlineSymbol
  pub truncated : Bool
  pub freshness : Freshness
  pub message : Bytes
  pub error : Bytes

unfoldable pub stamped : Freshness → GetOutlineOutput
stamped fresh = record {
  found = false;
  file = [];
  symbols = [];
  truncated = false;
  freshness = fresh;
  message = [];
  error = [];
}

abbrev pub outline_result : ToolResult GetOutlineOutput
outline_result = record {
  set_freshness = stamped;
  result_size = λ o. length o.symbols;
  is_truncated = λ o. o.truncated;
  error_of = λ o. o.error;
}

-- The loop `flat.outline[i].Signature = signatures[i]`, run once both have the same length.
unfoldable pub assign_signatures : List OutlineSymbol → List Bytes → List OutlineSymbol
assign_signatures (o ∷ os) (g ∷ gs) =
    record o { symbol = record (o.symbol) { signature = g } } ∷ assign_signatures os gs
assign_signatures os _ = os

-- Each function is what follows a call, over the call's result. `decimal` prints a number.
module _ (t : Tools) (decimal : ℕ → Bytes) (out : GetOutlineOutput) where
  unfoldable pub after_signatures :
      Bytes → FlattenedSymbols → Result (List Bytes × Context) → GetOutlineOutput
  unfolding assign_signatures
  after_signatures file flat (err e) = record out {
    error = message e;
    message = codes "failed to load symbol signatures for " ++ file;
  }
  after_signatures file flat (ok (signatures, _)) =
      if length signatures == length flat.outline
      then record out {
        found = true;
        symbols = assign_signatures flat.outline signatures;
        truncated = flat.truncated;
      }
      else record out {
        error =
            codes "provider returned "
            ++ (decimal (length signatures)
                ++ (codes " signatures for "
                    ++ (decimal (length flat.outline) ++ codes " symbols")));
        message = codes "failed to load symbol signatures for " ++ file;
      }

  unfoldable pub after_flatten : Bytes → Result (FlattenedSymbols × Context) → GetOutlineOutput
  unfolding after_signatures
  after_flatten file (err e) = record out {
    error = message e;
    message = codes "operation canceled while shaping outline for " ++ file;
  }
  after_flatten file (ok (flat, c)) =
      after_signatures file flat
        (run_provider_stage (t.provider.symbol_signatures file flat.originals) c)

  unfoldable pub after_symbols : Bytes → Result (Nodes × Context) → GetOutlineOutput
  unfolding after_flatten
  after_symbols file (err e) = record out {
    error = message e;
    message = codes "failed to load symbols for " ++ file;
  }
  after_symbols file (ok (nil, _)) = record out { message = codes "no symbols found in " ++ file }
  after_symbols file (ok (cons n ns, c)) =
      after_flatten file (flatten_symbols (cons n ns) (cap_of t.config.max_results) c)

-- Once the file is valid the output names it.
unfoldable pub after_validate :
    Tools → (ℕ → Bytes) → GetOutlineOutput → Validated → Context → GetOutlineOutput
unfolding after_symbols
after_validate t decimal out (invalid f) c = record out {
  error = f.failure;
  message = f.explanation;
}
after_validate t decimal out (valid file) c =
    after_symbols t decimal (record out { file = file }) file
      (run_provider_stage (t.provider.document_symbols file) c)

unfoldable pub get_outline :
    Tools → (ℕ → Bytes) → Bytes → ℕ → ℕ → Context → List Event → GetOutlineOutput × List Event
unfolding run_tool
get_outline t decimal file generation elapsed =
    run_tool outline_result t generation elapsed (codes "get_outline")
      (λ out. after_validate t decimal out (validate_file t file))
