-- ===== src/Tools/Navigate/Contract.antt =====
-- The contract that the package comment of internal/tools/tools.go states, for the navigation tools.
use portolan.Prelude.{
  ℕ, ◌≤◌, ◌<◌, true, false, Option, none, some, List, [], ◌∷◌, ◌++◌, Bytes, codes, ltb, length,
  take, length-take, take_all, Bool-cases, if◌then◌else◌, length-append, ◌≡◌, ◌⊎◌, inl, inr, arith,
}
use portolan.Context.{message, Result, ok, err, Context, background}
use portolan.Core.Types.{Position, Location, Nodes, Freshness}
use portolan.Core.Config.{cap_of, cap_of-pos, current, Event}
use portolan.Tools.Resolve.{resolve_symbol_position, resolved, entries, resolve_symbol_position_lem}
use portolan.Tools.Run.{Tools, Validated, valid, invalid, run_provider_stage}
use portolan.Tools.Run.Events.{
  LogsOnce, run_tool-LogsOnce, HasReason, validate_file-HasReason, validate_file_ok,
  run_provider_stage_ok,
}
use portolan.Tools.Navigate.{
  NavigationInput, NavigationOutput, stamped, navigation_result, deliver, after_request,
  after_resolve, after_symbols, after_validate, find_definition_body, find_references_body,
  find_definition, find_references,
}

-- Found means locations, at most as many as the cap; a truncated answer is a full one; an answer that
-- is not found has a message; the stamp is the one that was set.
pub record IsHonest (limit : ℕ) (fresh : Freshness) (out : NavigationOutput) : Type 0 where
  pub found_iff :
      ((out.found ≡ true) × (0 < length out.locations))
      ⊎ ((out.found ≡ false)
          × (out.locations ≡ [])
          × (out.truncated ≡ false)
          × (0 < length out.message))
  pub capped : length out.locations ≤ limit
  pub full : out.truncated ≡ true → length out.locations ≡ limit
  pub stamp : out.freshness ≡ fresh

module _ (t : Tools) (input : NavigationInput) (failed nothing : Bytes) (fresh : Freshness) where
  abbrev limit : ℕ
  limit = cap_of t.config.max_results

  unanswered-IsHonest :
      (e m : Bytes)
      → 0 < length m
      → IsHonest limit fresh (record (stamped fresh) { error = e; message = m })
  unfolding stamped
  unanswered-IsHonest e m q = ground arith

  deliver-IsHonest :
      (m : Bytes) (ls : List Location)
      → 0 < length m
      → IsHonest limit fresh (deliver limit m (stamped fresh) ls)
  unfolding deliver stamped
  deliver-IsHonest m [] q = ground arith
  deliver-IsHonest m (l ∷ ls) q =
      ground (arith, length-take limit (l ∷ ls), cap_of-pos t.config.max_results)

  module _ (q : 0 < length failed) (r : 0 < length nothing) where
    longer : (a b : Bytes) → 0 < length a → 0 < length (a ++ b)
    longer a b h = omega (arith, length-append a b)

    after_request-IsHonest :
        (x : Result (List Location × Context))
        → IsHonest limit fresh (after_request t input failed nothing (stamped fresh) x)
    unfolding after_request
    after_request-IsHonest (err e) =
        unanswered-IsHonest (message e) _ (longer failed (t.quote input.symbol) q)
    after_request-IsHonest (ok (ls, c)) =
        deliver-IsHonest _ ls (longer nothing (t.quote input.symbol) r)

    after_resolve-IsHonest :
        (file : Bytes) (request : Bytes → Position → Result (List Location))
        (x : Result (Option Position × Context))
        → IsHonest limit fresh (after_resolve t input failed nothing (stamped fresh) file request x)
    unfolding after_resolve stamped
    after_resolve-IsHonest file request (err e) = unanswered-IsHonest (message e) _ (omega arith)
    after_resolve-IsHonest file request (ok (none, c)) = unanswered-IsHonest [] _ (omega arith)
    after_resolve-IsHonest file request (ok (some pos, c)) =
        after_request-IsHonest (run_provider_stage (request file pos) c)

    after_validate-IsHonest :
        (request : Bytes → Position → Result (List Location)) (v : Validated) (c : Context)
        → HasReason v
        → IsHonest limit fresh (after_validate t input failed nothing (stamped fresh) request v c)
    unfolding after_validate
    after_validate-IsHonest request (invalid f) c h = unanswered-IsHonest f.failure f.explanation h
    after_validate-IsHonest request (valid file) c h =
        go (run_provider_stage (t.provider.document_symbols file) c)
      where
        go :
            (x : Result (Nodes × Context))
            → IsHonest limit fresh
                (after_symbols t input failed nothing (stamped fresh) file request x)
        go (err e) = unanswered-IsHonest (message e) _ (omega arith)
        go (ok (symbols, d)) =
            after_resolve-IsHonest file request
              (resolve_symbol_position symbols input.symbol input.line d)

-- The contract of a navigation tool.
pub record IsContract (t : Tools) (tool : Bytes) (generation : ℕ) (log : List Event)
    (r : NavigationOutput × List Event) : Type 0 where
  pub honest : IsHonest (cap_of t.config.max_results) (current generation) r.0
  pub logged : LogsOnce navigation_result t tool generation log r

-- Every find_definition call, whatever the provider answers and whenever the context is canceled,
-- returns an honest output within the cap, stamped with the generation read at its start, and logs
-- exactly one event, which carries the session and the output's size, truncation, error and stamp.
pub find_definition-IsContract :
    (t : Tools) (input : NavigationInput) (generation elapsed : ℕ) (c : Context) (log : List Event)
    → IsContract t
        (codes "find_definition")
        generation
        log
        (find_definition t input generation elapsed c log)
unfolding find_definition find_definition_body
find_definition-IsContract t input generation elapsed c log = record {
  honest =
      after_validate-IsHonest t input _ _ (current generation) (omega arith) (omega arith) _ _ c
        (validate_file-HasReason t input.file);
  logged =
      run_tool-LogsOnce navigation_result t _ generation elapsed (find_definition_body t input) c
        log;
}

-- Every find_references call, whatever the provider answers and whenever the context is canceled, returns
-- an honest output within the cap, stamped with the generation read at its start, and logs exactly one
-- event, which carries the session and the output's size, truncation, error and stamp.
pub find_references-IsContract :
    (t : Tools) (input : NavigationInput) (generation elapsed : ℕ) (c : Context) (log : List Event)
    → IsContract t
        (codes "find_references")
        generation
        log
        (find_references t input generation elapsed c log)
unfolding find_references find_references_body
find_references-IsContract t input generation elapsed c log = record {
  honest =
      after_validate-IsHonest t input _ _ (current generation) (omega arith) (omega arith) _ _ c
        (validate_file-HasReason t input.file);
  logged =
      run_tool-LogsOnce navigation_result t _ generation elapsed (find_references_body t input) c
        log;
}

deliver_lem :
    (limit : ℕ) (nothing : Bytes) (out : NavigationOutput) (l : Location) (ls : List Location)
    → deliver limit nothing out (l ∷ ls) ≡ record out {
      found = true;
      locations = take limit (l ∷ ls);
      truncated = if ltb limit (length (l ∷ ls)) then true else out.truncated;
    }
unfolding deliver
deliver_lem limit nothing out l ls = elim (Bool-cases (ltb limit (length (l ∷ ls)))) [
  | inl more ↦ rw more
  | inr fits ↦ rw (fits, take_all limit (l ∷ ls) (ground arith))
]

-- With nothing canceled, an outline in which the name resolves, and at least one location from the
-- provider, the answer is the provider's locations up to the cap, truncated exactly when there are more.
pub find_definition_lem :
    (t : Tools) (input : NavigationInput) (generation elapsed : ℕ) (log : List Event) (file : Bytes)
    (symbols : Nodes) (pos : Position) (l : Location) (ls : List Location)
    → t.canonicalize input.file ≡ ok file
    → t.provider.document_symbols file ≡ ok symbols
    → resolved (entries symbols) input.symbol input.line ≡ some pos
    → t.provider.definition file pos ≡ ok (l ∷ ls)
    → let limit = cap_of t.config.max_results in
      let out = (find_definition t input generation elapsed background log).0 in
      (out.found ≡ true)
      × (out.locations ≡ take limit (l ∷ ls))
      × (out.truncated ≡ ltb limit (length (l ∷ ls)))
      × (out.error ≡ [])
unfolding find_definition find_definition_body after_validate stamped
find_definition_lem t input generation elapsed log file symbols pos l ls hf hs hr hd = ground (
  arith,
  validate_file_ok t input.file hf,
  run_provider_stage_ok hs,
  resolve_symbol_position_lem symbols input.symbol input.line,
  run_provider_stage_ok hd,
  deliver_lem (cap_of t.config.max_results)
      (codes "no definition found for " ++ t.quote input.symbol) (stamped (current generation)) l
      ls,
)
