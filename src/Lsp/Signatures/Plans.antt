-- ===== src/Lsp/Signatures/Plans.antt =====
-- The plans of a list of symbols: one for each, in their order, and when the source text is not needed.
use portolan.Prelude.{
  suc, false, not, none, some, List, [], ◌∷◌, Bytes, map, length, ◌≡◌, refl, ap, ◌∙◌, arith,
  is_empty, equal,
}
use portolan.Context.{M, ◌>>=◌, return, Context, ok, lift}
use portolan.Context.Success.{bind_ok}
use portolan.Context.Meets.{Meets, return-Meets, if-Meets, bind-Meets}
use portolan.Core.Types.{Symbol}
use portolan.Lsp.Headers.{extract_declaration_header}
use portolan.Lsp.Lexical.Tokens.{any_of}
use portolan.Lsp.Signatures.{
  SignaturePlan, is_anonymous, has_header, needs_signature_source, find_declaration_token, plan_of,
  plan_direct, plan_located, plan_behind_header, plan_signature, plan_signatures, wrap_error,
  anonymous_tokens, source_names, slot, slots,
}

plan_signature-plain :
    (s : Symbol) (source : Bytes)
    → has_header s.kind ≡ false
    → is_anonymous s ≡ false
    → (c : Context) → plan_signature s source c ≡ ok (plan_of s, c)
unfolding plan_signature plan_behind_header
plan_signature-plain s source h a c = rw (plan_signature, h, plan_behind_header, a) refl

-- Where needsSignatureSource says no, the plans are the same whatever the source text is, so that the program
-- may leave it empty.
pub plan_signatures-needs_signature_source :
    (ss : List Symbol) (source : Bytes) (c : Context)
    → needs_signature_source ss ≡ false
    → plan_signatures ss source c ≡ ok (map plan_of ss, c)
unfolding needs_signature_source plan_signatures
plan_signatures-needs_signature_source [] source c h = refl
plan_signatures-needs_signature_source (s ∷ ss) source c h =
    let e = plan_signature-plain s source (ground (arith, h)) (ground (arith, h)) c in
    let r = plan_signatures-needs_signature_source ss source c (ground (arith, h)) in
    bind_ok (plan_signature s source) _ c e ∙ bind_ok (plan_signatures ss source) _ c r

-- A plan is for its symbol.
abbrev IsFor : Symbol → SignaturePlan → Type 0
IsFor s p = p.symbol ≡ s

-- Any value may come from `m`.
pub any-Meets :
    {A B : Type 0} (Q : B → Type 0) (m : M A) {f : A → M B}
    → ((a : A) → Meets Q (f a))
    → Meets Q (m >>= f)
any-Meets Q m h = bind-Meets Q {Q = λ _. Unit {0}} m (λ c a d e. tt) (λ a _. h a)

plan_located-IsFor : (s : Symbol) (source : Bytes) → Meets (IsFor s) (plan_located s source)
unfolding plan_located
plan_located-IsFor s source =
    if-Meets _ (is_empty (anonymous_tokens s.kind)) (λ _. return-Meets _ _ refl)
      (λ _.
        any-Meets _ (wrap_error _ (find_declaration_token source s.range (anonymous_tokens s.kind)))
          (λ o.
            return-Meets _ _
              (elim o
                as (λ o.
                  IsFor s
                    (elim o [ none ↦ plan_of s | some p ↦ record (plan_of s) { position = p } ])) [
                      | none ↦ refl
                      | some p ↦ refl
                    ])))

plan_behind_header-IsFor :
    (s : Symbol) (source : Bytes) → Meets (IsFor s) (plan_behind_header s source)
unfolding plan_behind_header plan_direct
plan_behind_header-IsFor s source =
    if-Meets _ (not (is_anonymous s)) (λ _. return-Meets _ _ refl)
      (λ _.
        if-Meets _ (any_of (equal s.name) source_names)
          (λ _. any-Meets _ _ (λ t. return-Meets _ _ refl)) (λ _. plan_located-IsFor s source))

plan_signature-IsFor : (s : Symbol) (source : Bytes) → Meets (IsFor s) (plan_signature s source)
unfolding plan_signature
plan_signature-IsFor s source =
    if-Meets _ (has_header s.kind)
      (λ _. any-Meets _ (wrap_error _ (extract_declaration_header source s)) (λ o.
        elim o
          as (λ o. Meets (IsFor s) (elim o [
            | some header ↦ return (record (plan_of s) { direct = header })
            | none ↦ plan_behind_header s source
          ])) [ none ↦ plan_behind_header-IsFor s source | some header ↦ return-Meets _ _ refl ]))
      (λ _. plan_behind_header-IsFor s source)

plan_signatures-AreFor :
    (ss : List Symbol) (source : Bytes)
    → Meets (λ ps. map (λ (p : SignaturePlan). p.symbol) ps ≡ ss) (plan_signatures ss source)
unfolding plan_signatures
plan_signatures-AreFor [] source = return-Meets _ _ refl
plan_signatures-AreFor (s ∷ ss) source =
    bind-Meets _ (plan_signature s source) (plan_signature-IsFor s source) (λ p e.
      bind-Meets _ (plan_signatures ss source) (plan_signatures-AreFor ss source)
        (λ ps r. return-Meets _ _ (rw (e, r) refl)))

-- The plans are for the symbols, one for each, in their order.
pub plan_signatures-symbols :
    (ss : List Symbol) (source : Bytes) (c : Context) {ps : List SignaturePlan} {d : Context}
    → plan_signatures ss source c ≡ ok (ps, d)
    → map (λ (p : SignaturePlan). p.symbol) ps ≡ ss
plan_signatures-symbols ss source c {ps} {d} h = plan_signatures-AreFor ss source c ps d h

-- A slot for each plan.
pub slots-length : (ps : List SignaturePlan) → Meets (λ xs. length xs ≡ length ps) (slots ps)
unfolding slots
slots-length [] = return-Meets _ _ refl
slots-length (p ∷ ps) =
    any-Meets _ (lift (slot p))
      (λ x. bind-Meets _ (slots ps) (slots-length ps) (λ xs e. return-Meets _ _ (ap suc e)))
