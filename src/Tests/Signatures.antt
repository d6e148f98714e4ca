-- ===== src/Tests/Signatures.antt =====
-- Signatures of a class with a header and of a function that the server is asked about.
use portolan.Prelude.{
  ℕ, ◌≤◌, ◌+◌, ◌*◌, none, some, List, [], ◌∷◌, ◌++◌, codes, equal, ◌≡◌, refl, Bytes, true, false,
  ◌⊎◌, length, map, min,
}
use portolan.Prelude.Int.{pos}
use portolan.Context.{text, Result, Context, ok, err, background, check, poll}
use portolan.Core.Types.{Symbol, SymbolKind, Position, validate_position}
use portolan.Lsp.Conversion.{LspPosition, to_lsp_position}
use portolan.Lsp.Signatures.{
  Slot, direct, asked, needs_signature_source, plan_of, plan_signatures, is_anonymous, has_header,
  plan_signature, plan_behind_header, slots, slot,
}
use portolan.Lsp.Signatures.Plans.{plan_signatures-needs_signature_source}
use portolan.Lsp.Signatures.Pool.{
  Pool, pool_start, selecting, stopped, answer_at, asked_indexes, one_by_one,
  max_concurrent_signature_requests, Step, hand, again, close, begin, reply, fail, leave, Run, here,
  then_step, IsDone, outcome,
}
use portolan.Text.Segments.{clean_rooted, slashed}
use portolan.Pathnorm.{canonicalize, is_unc_path, split_mount_drive}
use portolan.Pathnorm.Uri.{file_url, path_to_uri}
use portolan.Lsp.Requests.{in_context, prepare_open}
use portolan.Tests.Requests.{server, file}
use portolan.Tests.Provider.{host, urls}
use portolan.Lsp.Signatures.Whole.{prepare_signatures, requested, SymbolSignatures-one_by_one}
use portolan.Lsp.Signatures.Pool.Invariant.{is_some}
use portolan.Lsp.Signatures.Pool.Results.{outcome-eq-err}
use portolan.Lsp.Signatures.Pool.Ending.{steps}
use portolan.Lsp.Signatures.Pool.Progress.{Run-ends}

abbrev spot : Position
spot = record { line = pos 3; character = pos 9 }

abbrev run : Symbol
run = record {
  name = codes "run";
  kind = SymbolKind.function;
  file = codes "/w/a.ts";
  range = record { start = spot; end = record { line = pos 5; character = pos 1 } };
  sel_range = record { start = spot; end = record { line = pos 3; character = pos 12 } };
  signature = [];
  detail = [];
}

plan_signatures-needs_signature_source_example :
    plan_signatures (run ∷ []) (codes "text") background ≡ ok (map plan_of (run ∷ []), background)
unfolding needs_signature_source
plan_signatures-needs_signature_source_example =
    plan_signatures-needs_signature_source (run ∷ []) (codes "text") background refl

abbrev two : List Slot
two = direct (codes "class Foo") ∷ asked (record { line = pos 3; character = pos 9 }) run ∷ []

abbrev answers : LspPosition → Symbol → Result Bytes
answers p s = ok (s.name ++ codes ": void")

abbrev refuses : LspPosition → Symbol → Result Bytes
refuses p s = err (text (codes "no"))

abbrev asking : Pool
asking = record {
  signatures = codes "class Foo" ∷ [] ∷ [];
  waiting = [];
  feeder = selecting;
  idle = 0;
  taken = [];
  busy = 1 ∷ [];
  first_err = none;
  caller_err = none;
  canceled = false;
}

one_asked : (answer : LspPosition → Symbol → Result Bytes) → Run answer two (pool_start two) asking
unfolding pool_start
one_asked answer =
    then_step (then_step (then_step here (hand 1 0 [] refl refl refl)) (again refl refl))
      (begin 1 [] [] refl refl)

abbrev refused : Pool
refused = record asking { busy = []; first_err = some (text (codes "no")); canceled = true }

run_refused : Run refuses two (pool_start two) refused
unfolding answer_at
run_refused = then_step (one_asked refuses) (fail 1 [] [] (text (codes "no")) refl refl)

outcome-eq-err_example :
    (is_some refused.caller_err ≡ true)
    ⊎ ((i : ℕ) × (answer_at refuses two i ≡ some (err (text (codes "no")))))
unfolding outcome
outcome-eq-err_example = outcome-eq-err refuses two refused (text (codes "no")) run_refused refl

Run-ends_example :
    (steps answers two (one_asked answers)
      ≤ 4 * length (asked_indexes 0 two)
        + min (length (asked_indexes 0 two)) max_concurrent_signature_requests
        + 2)
    × (IsDone asking ⊎ ((q : Pool) × Step answers two asking q))
Run-ends_example = Run-ends answers two asking (one_asked answers)

-- The whole request, for one function.
abbrev one : List Slot
one = asked (record { line = pos 3; character = pos 9 }) run ∷ []

abbrev answered : Pool
answered = record {
  signatures = codes "run: void" ∷ [];
  waiting = [];
  feeder = stopped;
  idle = 0;
  taken = [];
  busy = [];
  first_err = none;
  caller_err = none;
  canceled = false;
}

run_answered : Run answers one (pool_start one) answered
unfolding pool_start answer_at
run_answered =
    then_step
      (then_step
        (then_step
          (then_step
            (then_step (then_step here (hand 0 0 [] refl refl refl)) (begin 0 [] [] refl refl))
            (reply 0 [] [] (codes "run: void") refl refl))
          (again refl refl))
        (close refl refl))
      (leave 0 refl refl)

abbrev uri : Bytes
uri = codes "/p/a.ts"

prepared :
    prepare_signatures host urls server (λ path. none) file (run ∷ []) background
    ≡ ok ((uri, one), background)
unfolding prepare_signatures prepare_open in_context canonicalize is_unc_path split_mount_drive
    clean_rooted slashed path_to_uri file_url equal check poll needs_signature_source is_anonymous
    has_header plan_signatures plan_signature plan_behind_header slots slot to_lsp_position
    validate_position
prepared = refl

SymbolSignatures-one_by_one_example :
    (length answered.signatures ≡ 1)
    × ((run ∷ [] ≡ [])
        ⊎ ((uri : Bytes) × (xs : List Slot) × (d : Context) × (prepare_signatures host urls server
                (λ path. none)
                file
                (run ∷ [])
                background
              ≡ ok ((uri, xs), d))
            × (one_by_one answers xs ≡ ok (codes "run: void" ∷ []))))
unfolding outcome asked_indexes
SymbolSignatures-one_by_one_example =
    SymbolSignatures-one_by_one host urls server (λ path. none) (λ uri. answers) file background
      (run ∷ []) (codes "run: void" ∷ [])
      (requested uri one (λ e. cc) prepared (λ e. cc) run_answered
        (record { fed = refl; none_idle = refl; none_taken = refl; none_busy = refl }))
      refl
