-- ===== src/Tools/Outline/Contract.antt =====
-- The contract of get_outline: that of the package comment of internal/tools/tools.go, and that the
-- rows of an outline are the file's first symbols in order, each with the signature at its place.
use portolan.Prelude.{
  ℕ, suc, ◌≤◌, ◌<◌, true, false, List, [], ◌∷◌, map, Bytes, codes, ◌==◌, length, ◌≡◌, ◌⊎◌, inl, inr,
  refl, ap, ◌∙◌, arith, Bool-cases,
}
use portolan.Context.{message, Result, ok, err, Context, background}
use portolan.Core.Types.{Symbol, SymbolNode, node, Nodes, nil, cons, Freshness}
use portolan.Core.Config.{cap_of, cap_of-pos, current, Event}
use portolan.Tools.Walk.{preorder}
use portolan.Tools.Flatten.{
  OutlineSymbol, outlined, flatten_symbols_lem, flatten_symbols-outlined, length-outlined,
}
use portolan.Tools.Run.{Tools, Validated, valid, invalid, validate_file, run_provider_stage}
use portolan.Tools.Run.Events.{
  LogsOnce, run_tool-LogsOnce, HasReason, validate_file-HasReason, validate_file_ok,
  run_provider_stage_ok,
}
use portolan.Tools.Outline.{
  GetOutlineOutput, stamped, outline_result, assign_signatures, after_signatures, after_flatten,
  after_symbols, after_validate, get_outline,
}

-- A row without its signature.
abbrev pub bare : OutlineSymbol → OutlineSymbol
bare o = record o { symbol = record (o.symbol) { signature = [] } }

abbrev pub signature_of : OutlineSymbol → Bytes
signature_of o = o.symbol.signature

map-signature_of-assign_signatures :
    (os : List OutlineSymbol) (gs : List Bytes)
    → length gs ≡ length os
    → map signature_of (assign_signatures os gs) ≡ gs
unfolding assign_signatures
map-signature_of-assign_signatures [] [] h = refl
map-signature_of-assign_signatures [] (g ∷ gs) h = absurd (omega arith)
map-signature_of-assign_signatures (o ∷ os) [] h = absurd (omega arith)
map-signature_of-assign_signatures (o ∷ os) (g ∷ gs) h =
    ap (◌∷◌ g) (map-signature_of-assign_signatures os gs (omega arith))

map-bare-assign_signatures :
    (os : List OutlineSymbol) (gs : List Bytes) → map bare (assign_signatures os gs) ≡ map bare os
unfolding assign_signatures
map-bare-assign_signatures [] gs = refl
map-bare-assign_signatures (o ∷ os) [] = refl
map-bare-assign_signatures (o ∷ os) (g ∷ gs) = ap (◌∷◌ (bare o)) (map-bare-assign_signatures os gs)

-- With nothing canceled, at least one symbol in the file and as many signatures as rows, the outline has the first symbols of the
-- file in order, up to the cap, with their depths and the signatures at their places; it is marked as
-- truncated exactly when the file has more symbols than the cap.
pub get_outline_lem :
    (t : Tools) (decimal : ℕ → Bytes) (input : Bytes) (generation elapsed : ℕ) (log : List Event)
    (file : Bytes) (n : SymbolNode) (ns : Nodes) (gs : List Bytes)
    → t.canonicalize input ≡ ok file
    → t.provider.document_symbols file ≡ ok (cons n ns)
    → t.provider.symbol_signatures file
        (outlined (preorder 0 (cons n ns)) (cap_of t.config.max_results)).originals
      ≡ ok gs
    → length gs ≡ length (outlined (preorder 0 (cons n ns)) (cap_of t.config.max_results)).outline
    → let spec = outlined (preorder 0 (cons n ns)) (cap_of t.config.max_results) in
      let out = (get_outline t decimal input generation elapsed background log).0 in
      (out.found ≡ true)
      × (out.file ≡ file)
      × (map bare out.symbols ≡ map bare spec.outline)
      × (map signature_of out.symbols ≡ gs)
      × (out.truncated ≡ spec.truncated)
      × (out.error ≡ [])
unfolding get_outline after_validate stamped
get_outline_lem t decimal input generation elapsed log file n ns gs hf hs hg hl =
    let limit = cap_of t.config.max_results in
    let rows = (outlined (preorder 0 (cons n ns)) limit).outline in
    ground (
      arith,
      validate_file_ok t input hf,
      run_provider_stage_ok hs,
      flatten_symbols_lem (cons n ns) limit,
      run_provider_stage_ok hg,
      map-signature_of-assign_signatures rows gs hl,
      map-bare-assign_signatures rows gs,
    )

length-assign_signatures :
    (os : List OutlineSymbol) (gs : List Bytes) → length (assign_signatures os gs) ≡ length os
unfolding assign_signatures
length-assign_signatures [] gs = refl
length-assign_signatures (o ∷ os) [] = refl
length-assign_signatures (o ∷ os) (g ∷ gs) = ap suc (length-assign_signatures os gs)

-- Found means rows, at most as many as the cap, and no error; a truncated outline is a full one; an
-- outline that is not found has no row and a message; the stamp is the one that was set.
pub record IsHonest (limit : ℕ) (fresh : Freshness) (out : GetOutlineOutput) : Type 0 where
  pub found_iff :
      ((out.found ≡ true) × (0 < length out.symbols) × (out.error ≡ []))
      ⊎ ((out.found ≡ false)
          × (out.symbols ≡ [])
          × (out.truncated ≡ false)
          × (0 < length out.message))
  pub capped : length out.symbols ≤ limit
  pub full : out.truncated ≡ true → length out.symbols ≡ limit
  pub stamp : out.freshness ≡ fresh

module _ (t : Tools) (decimal : ℕ → Bytes) (fresh : Freshness) where
  abbrev limit : ℕ
  limit = cap_of t.config.max_results

  unanswered-IsHonest :
      (file e m : Bytes)
      → 0 < length m
      → IsHonest limit fresh (record (stamped fresh) { file = file; error = e; message = m })
  unfolding stamped
  unanswered-IsHonest file e m q = ground arith

  answered-IsHonest :
      (file : Bytes) (es : List (ℕ × Symbol)) (gs : List Bytes)
      → 0 < length es
      → IsHonest limit fresh (record (stamped fresh) {
        found = true;
        file = file;
        symbols = assign_signatures (outlined es limit).outline gs;
        truncated = (outlined es limit).truncated;
      })
  unfolding stamped
  answered-IsHonest file es gs h =
      let n = length-assign_signatures (outlined es limit).outline gs in
      let (m, full) = length-outlined es limit in
      let p = cap_of-pos t.config.max_results in
      record {
        found_iff = inl (refl, omega arith, refl);
        capped = omega arith;
        full = λ h. n ∙ full h;
        stamp = refl;
      }

  after_signatures-IsHonest :
      (file : Bytes) (es : List (ℕ × Symbol)) (x : Result (List Bytes × Context))
      → 0 < length es
      → IsHonest limit fresh (
          after_signatures t decimal
            (record (stamped fresh) { file = file })
            file
            (outlined es limit)
            x)
  unfolding after_signatures
  after_signatures-IsHonest file es (err e) h = unanswered-IsHonest file (message e) _ (omega arith)
  after_signatures-IsHonest file es (ok (gs, c)) h =
      elim (Bool-cases (length gs == length (outlined es limit).outline)) [
        | inl same ↦ rw same (answered-IsHonest file es gs h)
        | inr other ↦ rw other (unanswered-IsHonest file _ _ (omega arith))
      ]

  after_symbols-IsHonest :
      (file : Bytes) (x : Result (Nodes × Context))
      → IsHonest limit fresh
          (after_symbols t decimal (record (stamped fresh) { file = file }) file x)
  unfolding after_symbols after_flatten preorder stamped
  after_symbols-IsHonest file (err e) = unanswered-IsHonest file (message e) _ (omega arith)
  after_symbols-IsHonest file (ok (nil, c)) = unanswered-IsHonest file [] _ (omega arith)
  after_symbols-IsHonest file (ok (cons (node s kids) ns, c)) =
      elim (flatten_symbols-outlined (cons (node s kids) ns) limit c).1 [
        | inl (e, p) ↦ rw (p, after_flatten) (unanswered-IsHonest file (message e) _ (omega arith))
        | inr (d, p) ↦ rw (p, after_flatten) (after_signatures-IsHonest file _ _ (omega arith))
      ]

  after_validate-IsHonest :
      (v : Validated) (c : Context)
      → HasReason v
      → IsHonest limit fresh (after_validate t decimal (stamped fresh) v c)
  unfolding after_validate stamped
  after_validate-IsHonest (invalid f) c h = unanswered-IsHonest [] f.failure f.explanation h
  after_validate-IsHonest (valid file) c h =
      after_symbols-IsHonest file (run_provider_stage (t.provider.document_symbols file) c)

pub record IsContract (t : Tools) (generation : ℕ) (log : List Event)
    (r : GetOutlineOutput × List Event) : Type 0 where
  pub honest : IsHonest (cap_of t.config.max_results) (current generation) r.0
  pub logged : LogsOnce outline_result t (codes "get_outline") generation log r

-- Every get_outline call, whatever the provider answers and whenever the context is canceled, returns
-- an honest output within the cap, stamped with the generation read at its start, and logs exactly one
-- event, which carries the session and the output's size, truncation, error and stamp.
pub get_outline-IsContract :
    (t : Tools) (decimal : ℕ → Bytes) (input : Bytes) (generation elapsed : ℕ) (c : Context)
    (log : List Event)
    → IsContract t generation log (get_outline t decimal input generation elapsed c log)
unfolding get_outline
get_outline-IsContract t decimal input generation elapsed c log = record {
  honest =
      after_validate-IsHonest t decimal (current generation) (validate_file t input) c
        (validate_file-HasReason t input);
  logged =
      run_tool-LogsOnce outline_result t _ generation elapsed
        (λ out. after_validate t decimal out (validate_file t input)) c log;
}
