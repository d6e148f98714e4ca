-- ===== src/Lsp/Signatures/Whole.antt =====
-- internal/lsp/signatures.go, SymbolSignatures: opening the file, planning, and the requests. The open files
-- are those of the server that the requests are given, and `source_of` is openedSource.
use portolan.Prelude.{
  ℕ, suc, ◌+◌, Option, none, some, List, [], ◌∷◌, Bytes, codes, map, length, length-map,
  if◌then◌else◌, ◌≡◌, ◌≢◌, refl, sym, ap, ◌∙◌, ◌⊎◌, inl, inr, arith,
}
use portolan.Context.{Error, text, Result, ok, err, Context, M, ◌>>=◌, return, throw}
use portolan.Context.Meets.{Meets, return-Meets, bind-Meets}
use portolan.Core.Types.{Symbol}
use portolan.Pathnorm.{Host}
use portolan.Pathnorm.Uri.{UrlPackage}
use portolan.Lsp.Conversion.{LspPosition}
use portolan.Lsp.Requests.{Server, prepare_open}
use portolan.Lsp.Signatures.{
  needs_signature_source, SignaturePlan, plan_signatures, Slot, direct, asked, slots,
}
use portolan.Lsp.Signatures.Plans.{any-Meets, plan_signatures-symbols, slots-length}
use portolan.Lsp.Signatures.Pool.{
  Pool, asked_indexes, direct_text, pool_start, slot_answer, one_by_one, Run, IsDone, outcome,
}
use portolan.Lsp.Signatures.Pool.Results.{outcome-eq-one_by_one}

module _ (h : Host) (u : UrlPackage) (server : Server) (source_of : Bytes → Option Bytes) where
  unfoldable pub signature_source : Bytes → List Symbol → M Bytes
  signature_source path symbols =
      if needs_signature_source symbols
      then elim (source_of path) [
        | none ↦ throw (text (codes "lsp: opened source unavailable for"))
        | some source ↦ return source
      ]
      else return []

  -- All that `SymbolSignatures` does in front of the requests: the URI, and what is known or asked.
  unfoldable pub prepare_signatures : Bytes → List Symbol → M (Bytes × List Slot)
  unfolding signature_source
  prepare_signatures file symbols = prepare_open h u server file >>= λ opened.
      signature_source opened.0 symbols >>= λ source.
      plan_signatures symbols source >>= λ plans. slots plans >>= λ xs. return (opened.1, xs)

  -- The results that `SymbolSignatures` can have. The hover of a position is asked under the URI.
  pub data SymbolSignatures (hover : Bytes → LspPosition → Symbol → Result Bytes) (file : Bytes)
      (c : Context) : List Symbol → Result (List Bytes) → Type 0 where
    no_symbols : SymbolSignatures hover file c [] (ok [])
    unprepared :
        {symbols : List Symbol} {e : Error}
        → symbols ≢ []
        → prepare_signatures file symbols c ≡ err e
        → SymbolSignatures hover file c symbols (err e)
    no_requests :
        {symbols : List Symbol} (uri : Bytes) (xs : List Slot) {d : Context}
        → symbols ≢ []
        → prepare_signatures file symbols c ≡ ok ((uri, xs), d)
        → asked_indexes 0 xs ≡ []
        → SymbolSignatures hover file c symbols (ok (map direct_text xs))
    requested :
        {symbols : List Symbol} (uri : Bytes) (xs : List Slot) {d : Context} {p : Pool}
        → symbols ≢ []
        → prepare_signatures file symbols c ≡ ok ((uri, xs), d)
        → asked_indexes 0 xs ≢ []
        → Run (hover uri) xs (pool_start xs) p
        → IsDone p
        → SymbolSignatures hover file c symbols (outcome p)

module _ (answer : LspPosition → Symbol → Result Bytes) where
  one_by_one-length :
      (xs : List Slot) (ts : List Bytes) → one_by_one answer xs ≡ ok ts → length ts ≡ length xs
  unfolding one_by_one
  one_by_one-length [] ts h = ground (arith, h)
  one_by_one-length (x ∷ xs) ts h =
      first (slot_answer answer x) refl (one_by_one answer xs) refl (one_by_one-length xs)
    where
      first :
          (r : Result Bytes)
          → slot_answer answer x ≡ r
          → (rs : Result (List Bytes)) → one_by_one answer xs ≡ rs
          → ((us : List Bytes) → one_by_one answer xs ≡ ok us → length us ≡ length xs)
          → length ts ≡ suc (length xs)
      first (err e) q rs p ih = absurd (ground (arith, q, h))
      first (ok t) q (err e) p ih = absurd (ground (arith, q, p, h))
      first (ok t) q (ok us) p ih =
          let l = ih us p in let z : ts ≡ t ∷ us = ground (arith, q, p, h) in rw z (ap suc l)

  one_by_one-direct :
      (i : ℕ) (xs : List Slot)
      → asked_indexes i xs ≡ []
      → one_by_one answer xs ≡ ok (map direct_text xs)
  unfolding one_by_one asked_indexes direct_text slot_answer
  one_by_one-direct i [] h = refl
  one_by_one-direct i (direct t ∷ xs) h = rw (one_by_one-direct (i + 1) xs h) refl
  one_by_one-direct i (asked p s ∷ xs) h = absurd (cc)

module _ (h : Host) (u : UrlPackage) (server : Server) (source_of : Bytes → Option Bytes) where
  prepare_signatures-length :
      (file : Bytes) (symbols : List Symbol)
      → Meets
          (λ r. length r.1 ≡ length symbols)
          (prepare_signatures h u server source_of file symbols)
  unfolding prepare_signatures
  prepare_signatures-length file symbols = any-Meets _ (prepare_open h u server file) (λ opened.
      any-Meets _ (signature_source h u server source_of opened.0 symbols) (λ source.
        bind-Meets _ (plan_signatures symbols source)
          (λ c ps d e. plan_signatures-symbols symbols source c e)
          (λ ps e. bind-Meets _ (slots ps) (slots-length ps) (λ xs l.
            return-Meets _ _
              (l ∙ sym (length-map (λ (p : SignaturePlan). p.symbol) ps) ∙ ap length e)))))

  asked_so :
      (hover : Bytes → LspPosition → Symbol → Result Bytes) (file : Bytes) (c : Context)
      (symbols : List Symbol) (signatures : List Bytes) (uri : Bytes) (xs : List Slot) (d : Context)
      → prepare_signatures h u server source_of file symbols c ≡ ok ((uri, xs), d)
      → one_by_one (hover uri) xs ≡ ok signatures
      → (length signatures ≡ length symbols)
        × ((symbols ≡ [])
            ⊎ ((uri : Bytes) × (xs : List Slot) × (d : Context) × (prepare_signatures h u server
                    source_of file symbols c
                  ≡ ok ((uri, xs), d))
                × (one_by_one (hover uri) xs ≡ ok signatures)))
  asked_so hover file c symbols signatures uri xs d p q = (
    one_by_one-length (hover uri) xs signatures q
        ∙ prepare_signatures-length file symbols c (uri, xs) d p,
    inr (uri, xs, d, p, q),
  )

  -- Signatures that SymbolSignatures returns are one for each symbol, and unless there are no symbols they
  -- are what the plans have and the server answers, asked one after the other in the order of the symbols.
  pub SymbolSignatures-one_by_one :
      (hover : Bytes → LspPosition → Symbol → Result Bytes) (file : Bytes) (c : Context)
      (symbols : List Symbol) (signatures : List Bytes) {r : Result (List Bytes)}
      → SymbolSignatures h u server source_of hover file c symbols r
      → r ≡ ok signatures
      → (length signatures ≡ length symbols)
        × ((symbols ≡ [])
            ⊎ ((uri : Bytes) × (xs : List Slot) × (d : Context) × (prepare_signatures h u server
                    source_of file symbols c
                  ≡ ok ((uri, xs), d))
                × (one_by_one (hover uri) xs ≡ ok signatures)))
  SymbolSignatures-one_by_one hover file c symbols signatures no_symbols e =
      (ground (arith, e), inl refl)
  SymbolSignatures-one_by_one hover file c symbols signatures (unprepared n p) e = absurd (cc)
  SymbolSignatures-one_by_one hover file c symbols signatures (no_requests uri xs {d} n p q) e =
      asked_so hover file c symbols signatures uri xs d p (one_by_one-direct (hover uri) 0 xs q ∙ e)
  SymbolSignatures-one_by_one hover file c symbols signatures
        (requested uri xs {d} {p} n q m r done) e =
      asked_so hover file c symbols signatures uri xs d q
        (outcome-eq-one_by_one (hover uri) xs p signatures r done e)
