-- ===== src/Lsp/Provider/Opening.antt =====
-- What `ensureOpen` promises, whatever its callers do and in whatever order.
use portolan.Prelude.{
  ℕ, ◌≤◌, true, false, Option, none, some, List, [], ◌∷◌, Bytes, equal, equal_iff, Bool-cases, ap,
  if◌then◌else◌, ◌≡◌, refl, sym, ◌∙◌, subst, arith, inl, inr,
}
use portolan.Context.{ok}
use portolan.Pathnorm.{Host}
use portolan.Pathnorm.Uri.{UrlPackage, path_to_uri}
use portolan.Lsp.Provider.{
  TextDocumentItem, new_provider, claim_as, claim_with, finish_as, set_routine, entering, waiting,
  opening, returned, after_wait, opened_source, System, Step, called, interrupted, claimed, woken,
  gave_up, finished, Reach, start, next,
}
use portolan.Lsp.Provider.Invariant.{
  Fits, Inv, after_wait-Fits, is_some, new_provider-Inv, quiet, sent_item, sent_source, times_sent,
}
use portolan.Lsp.Provider.Claiming.{claim_as-Inv}
use portolan.Lsp.Provider.Finishing.{Named, finish_as-Inv, open_file-Sends, sent_after-Named}

at_most_one : {n : ℕ} (o : Option Bytes) → n ≡ (if is_some o then 1 else 0) → n ≤ 1
at_most_one none e = omega (arith, e)
at_most_one (some x) e = omega (arith, e)

some-of : (o : Option Bytes) → is_some o ≡ true → (x : Bytes) × (o ≡ some x)
some-of none h = absurd (ground arith)
some-of (some x) h = (x, refl)

module _ (h : Host) (u : UrlPackage) where
  Step-Inv : {s t : System} → Step h u s t → Inv s → Inv t
  unfolding Fits
  Step-Inv (called s g file a) v = quiet s g (entering file) v tt (rw a refl) refl
  Step-Inv (interrupted s g file e a) v = quiet s g (returned file (some e)) v tt (rw a refl) refl
  Step-Inv (claimed s g file a) v = claim_as-Inv s g file v (rw a refl)
  Step-Inv (woken s g file i a d) v =
      let (f, q) = after_wait-Fits s.opens file i (subst (Fits s.opens) a (v.fits g)) d in
      quiet s g (after_wait file (s.opens.transitions i)) v f (rw a refl) q
  Step-Inv (gave_up s g file i e a) v = quiet s g (returned file (some e)) v tt (rw a refl) refl
  Step-Inv (finished s g file i o a) v = finish_as-Inv s g file i (open_file-Sends h u file o) v a

  Reach-Inv : {s : System} → Reach h u s → Inv s
  Reach-Inv start = new_provider-Inv
  Reach-Inv (next r a) = Step-Inv a (Reach-Inv r)

  Reach-Named : {s : System} → Reach h u s → Named h u s.sent
  unfolding Named new_provider claim_as claim_with finish_as set_routine
  Reach-Named start = tt
  Reach-Named (next r (called s g file a)) = Reach-Named r
  Reach-Named (next r (interrupted s g file e a)) = Reach-Named r
  Reach-Named (next r (claimed s g file a)) = Reach-Named r
  Reach-Named (next r (woken s g file i a d)) = Reach-Named r
  Reach-Named (next r (gave_up s g file i e a)) = Reach-Named r
  Reach-Named (next r (finished s g file i o a)) =
      sent_after-Named file s.sent (open_file-Sends h u file o) (Reach-Named r)

  -- The item of which the text was sent.
  sent_item-Named :
      (file source : Bytes) (sent : List (Bytes × TextDocumentItem))
      → Named h u sent
      → sent_source file sent ≡ some source
      → (item : TextDocumentItem) × ((sent_item file sent ≡ some item)
          × ((item.text ≡ source) × (path_to_uri h u file ≡ ok item.uri)))
  unfolding Named sent_source sent_item
  sent_item-Named file source [] n e = absurd (ground arith)
  sent_item-Named file source ((f, item) ∷ sent) n e = elim (Bool-cases (equal file f)) [
    | inl same ↦
        let at = (equal_iff file f).0 same in
        let x : item.text ≡ source = ground (arith, same, e) in
        (item, (rw same refl, (x, ap (path_to_uri h u) at ∙ n.0)))
    | inr other ↦
        let older : sent_source file sent ≡ some source = ground (arith, other, e) in
        let (found, (p, (q, r))) = sent_item-Named file source sent n.1 older in
        (found, (rw other p, (q, r)))
  ]

  -- In every state that calls of ensureOpen reach, where openFile and the critical section
  -- behind it are one step, the transport took at most one didOpen notification for
  -- a file to the server, and the source that openedSource gives is the text of that notification, none if there
  -- was none.
  pub Reach-sent_once :
      {s : System}
      → Reach h u s
      → (file : Bytes)
      → (opened_source file s.opens ≡ sent_source file s.sent) × (times_sent file s.sent ≤ 1)
  Reach-sent_once {s} r file =
      let v = Reach-Inv r in
      (sym (v.recorded file), at_most_one (opened_source file s.opens) (v.once file))

  -- In every state that calls of ensureOpen reach, two calls that are opening the same file are one call.
  Reach-one_opener :
      {s : System}
      → Reach h u s
      → (g k : ℕ) (file : Bytes) (i j : ℕ) → s.routines g ≡ opening file i
      → s.routines k ≡ opening file j
      → g ≡ k
  Reach-one_opener r g k file i j = (Reach-Inv r).alone g k file i j

  -- In every state that calls of ensureOpen reach, a call that returned no error has its file open: the
  -- transport took a didOpen notification to the server, with the URI of the file and the text that
  -- openedSource gives.
  pub Reach-returned_open :
      {s : System}
      → Reach h u s
      → (g : ℕ) (file : Bytes) → s.routines g ≡ returned file none
      → (item : TextDocumentItem) × ((opened_source file s.opens ≡ some item.text)
          × ((sent_item file s.sent ≡ some item) × (path_to_uri h u file ≡ ok item.uri)))
  unfolding Fits
  Reach-returned_open {s} r g file e =
      let v = Reach-Inv r in
      let o : Fits s.opens (returned file none) = subst (Fits s.opens) e (v.fits g) in
      let (source, d) = some-of (opened_source file s.opens) o in
      let (item, (p, (q, n))) =
        sent_item-Named file source s.sent (Reach-Named r) (v.recorded file ∙ d) in
      (item, (d ∙ ap (λ (x : Bytes). some x) (sym q), (p, n)))

  -- In every state that calls of ensureOpen reach, a call that waits for a transition that is not done
  -- waits for another call, which is opening the file.
  pub Reach-waits_for :
      {s : System}
      → Reach h u s
      → (g : ℕ) (file : Bytes) (i : ℕ) → s.routines g ≡ waiting file i
      → (s.opens.transitions i).done ≡ false
      → (k : ℕ) × (s.routines k ≡ opening file i)
  unfolding Fits
  Reach-waits_for {s} r g file i e d =
      let v = Reach-Inv r in
      let w : Fits s.opens (waiting file i) = subst (Fits s.opens) e (v.fits g) in
      elim (w.1) [
        | inl at ↦ (v.entry file i at).carried d
        | inr (done, failed) ↦ absurd (ground arith)
      ]
