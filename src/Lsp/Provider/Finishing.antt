-- ===== src/Lsp/Provider/Finishing.antt =====
-- The second critical section of `ensureOpen`.
use portolan.Prelude.{
  ℕ, Bool, true, false, Option, none, some, List, [], ◌∷◌, Bytes, codes, equal, equal_iff, ◌==◌,
  ==_iff, if◌then◌else◌, ◌≡◌, refl, sym, ◌∙◌, ap, subst, arith, Bool-cases, inl, inr,
}
use portolan.Context.{Error, Result, ok, err}
use portolan.Pathnorm.{Host}
use portolan.Pathnorm.Uri.{UrlPackage, path_to_uri}
use portolan.Lsp.Provider.{
  TextDocumentItem, Outside, retryable_open_error, failed, did_open, notify_open, opened_with,
  send_open, open_file, Transition, Opens, put, put_file, Routine, waiting, opening, returned,
  open_files_after, sent_after, Outcome, finish, opened_source, source_of, System, finish_as,
}
use portolan.Lsp.Provider.Invariant.{
  Entry, Fits, Inv, is_opening, is_some, opened_source-at, opening-Fits, opening-before, put-other,
  put-same, put_file-cases, put_file-same, sent_source, source_of_done, times_sent,
}
use portolan.Lsp.Provider.Change.{Change, Change-Inv}

source_of_not_done : (t : Transition) → t.done ≡ false → source_of t ≡ none
unfolding source_of
source_of_not_done t d =
    elim (t.error)
      as (λ e. elim e [ some x ↦ none | none ↦ if t.done then some t.source else none ] ≡ none) [
        | some x ↦ refl
        | none ↦ rw d refl
      ]

-- The second critical section, on the transition of the file.
module _ (p : Opens) (file : Bytes) (i : ℕ) (t : Transition)
    (apart : (f g : Bytes) (j : ℕ) → p.open_files f ≡ some j → p.open_files g ≡ some j → f ≡ g)
    (here : p.open_files file ≡ some i) (busy : (p.transitions i).done ≡ false) where
  settled : (Bytes → Option ℕ) → Opens
  settled m = record { open_files = m; transitions = put i t p.transitions; next = p.next }

  -- Another file has another transition, and its source stays.
  other_number : (f : Bytes) (j : ℕ) → (f ≡ file → ⊥) → p.open_files f ≡ some j → (j == i) ≡ false
  other_number f j other e = elim (Bool-cases (j == i)) [
    | inr differs ↦ differs
    | inl same ↦
        absurd
          (other (apart f file j e (here ∙ ap (λ (x : ℕ). some x) (sym ((==_iff j i).0 same)))))
  ]

  other_source :
      (m : Bytes → Option ℕ) (f : Bytes)
      → (f ≡ file → ⊥)
      → m f ≡ p.open_files f
      → opened_source f (settled m) ≡ opened_source f p
  unfolding settled
  other_source m f other e =
      elim (p.open_files f)
          as (λ o. p.open_files f ≡ o → opened_source f (settled m) ≡ opened_source f p) [
            | none ↦
                λ d. opened_source-at (settled m) f none (e ∙ d) ∙ sym (opened_source-at p f none d)
            | some j ↦ λ d.
                opened_source-at (settled m) f (some j) (e ∙ d)
                ∙ ap source_of (put-other i t p.transitions j (other_number f j other d))
                ∙ sym (opened_source-at p f (some j) d)
          ]
        refl

  before_source : opened_source file p ≡ none
  before_source = opened_source-at p file (some i) here ∙ source_of_not_done (p.transitions i) busy

  sent_file :
      t.error ≡ none → t.done ≡ true → opened_source file (settled p.open_files) ≡ some t.source
  unfolding settled
  sent_file e d =
      opened_source-at (settled p.open_files) file (some i) here
      ∙ ap source_of (put-same i t p.transitions)
      ∙ source_of_done t e d

  failed_source :
      (f : Bytes) → opened_source f (settled (put_file file none p.open_files)) ≡ opened_source f p
  failed_source f = elim (put_file-cases file none p.open_files f) [
    | inl (same, e) ↦
        opened_source-at (settled (put_file file none p.open_files)) f none (unfold settled in e)
        ∙ sym before_source
        ∙ ap (λ x. opened_source x p) (sym same)
    | inr (other, e) ↦ other_source (put_file file none p.open_files) f other e
  ]

  succeeded-Change : t.error ≡ none → t.done ≡ true → Change p (settled p.open_files) file i
  unfolding settled
  succeeded-Change e d = record {
    memory = λ j other. put-other i t p.transitions j other;
    kept = λ f j other a. a;
    back = λ f j a. elim (Bool-cases (j == i)) [
      | inl same ↦
          let at = (==_iff j i).0 same in
          inl (apart f file j a (here ∙ ap (λ (x : ℕ). some x) (sym at)), at)
      | inr other ↦ inr (a, other)
    ];
    grows = omega arith;
    opened = λ f a. elim (Bool-cases (equal f file)) [
      | inl same ↦
          ap (λ x. is_some (opened_source x (settled p.open_files))) ((equal_iff f file).0 same)
          ∙ ap is_some (sent_file e d)
      | inr other ↦
          ap is_some (
            other_source p.open_files f
              (λ x. absurd (let y = (equal_iff f file).1 x in ground arith)) refl)
          ∙ a
    ];
  }

  failed-Change : Change p (settled (put_file file none p.open_files)) file i
  unfolding settled
  failed-Change = record {
    memory = λ j other. put-other i t p.transitions j other;
    kept = λ f j other a. elim (put_file-cases file none p.open_files f) [
      | inl (same, e) ↦ absurd (let d = sym here ∙ ap p.open_files (sym same) ∙ a in ground arith)
      | inr (apart_from, e) ↦ e ∙ a
    ];
    back = λ f j a. elim (put_file-cases file none p.open_files f) [
      | inl (same, e) ↦ absurd (let d = sym e ∙ a in ground arith)
      | inr (other, e) ↦ inr (sym e ∙ a, other_number f j other (sym e ∙ a))
    ];
    grows = omega arith;
    opened = λ f a. ap is_some (failed_source f) ∙ a;
  }

-- The call that carried out a transition returns.
settled-Inv :
    (s t : System) (g : ℕ) (file : Bytes) (i : ℕ) (r : Routine)
    → Change s.opens t.opens file i
    → Inv s
    → s.routines g ≡ opening file i
    → t.routines ≡ put g r s.routines
    → is_opening r ≡ false
    → Fits t.opens r
    → ((f : Bytes) → Fits s.opens (waiting f i) → Fits t.opens (waiting f i))
    → (t.opens.open_files file ≡ some i → Entry t file i)
    → ((f : Bytes) → sent_source f t.sent ≡ opened_source f t.opens)
    → ((f : Bytes) → times_sent f t.sent ≡ (if is_some (opened_source f t.opens) then 1 else 0))
    → Inv t
unfolding Fits
settled-Inv s t g file i r c v a moved quiet_r fits_r waits entry recorded once =
    let at = λ (k : ℕ). ap (λ f. f k) moved in
    Change-Inv s t g file i c v (λ k other. at k ∙ put-other g r s.routines k other)
      (subst (Fits t.opens) (sym (at g ∙ put-same g r s.routines)) fits_r) waits
      (λ k f other e.
        let named = v.apart f file i (opening-Fits s k f i v e).0 (opening-Fits s g file i v a).0 in
        let same = v.alone k g file i i (e ∙ ap (λ x. opening x i) named) a in
        absurd (ground arith))
      (λ k f j other e. elim (Bool-cases (k == g)) [
        | inr differs ↦ differs
        | inl same ↦
            absurd (let d = sym a ∙ ap s.routines (sym ((==_iff k g).0 same)) ∙ e in ground arith)
      ])
      (λ k l f j m d e.
        v.alone k l f j m (opening-before g r s.routines f j k quiet_r (sym (at k) ∙ d))
          (opening-before g r s.routines f m l quiet_r (sym (at l) ∙ e)))
      entry recorded once

-- The list of what was sent, with one file more.
recorded-put :
    (s : System) (file : Bytes) (item : TextDocumentItem) (q : Opens)
    → Inv s
    → opened_source file s.opens ≡ none
    → opened_source file q ≡ some item.text
    → ((f : Bytes) → (f ≡ file → ⊥) → opened_source f q ≡ opened_source f s.opens)
    → (f : Bytes)
    → (sent_source f ((file, item) ∷ s.sent) ≡ opened_source f q)
      × (times_sent f ((file, item) ∷ s.sent) ≡ (if is_some (opened_source f q) then 1 else 0))
unfolding sent_source times_sent
recorded-put s file item q v before sent others f = elim (Bool-cases (equal f file)) [
  | inl same ↦
      let at = (equal_iff f file).0 same in
      let e : opened_source f q ≡ some item.text = ap (λ x. opened_source x q) at ∙ sent in
      let d : opened_source f s.opens ≡ none = ap (λ x. opened_source x s.opens) at ∙ before in
      let none_yet : times_sent f s.sent ≡ 0 =
        v.once f ∙ ap (λ (x : Option Bytes). if is_some x then 1 else 0) d in
      (rw (same, e) refl, rw (same, e, none_yet) refl)
  | inr other ↦
      let e = others f (λ x. absurd (let y = (equal_iff f file).1 x in ground arith)) in
      (rw (other, e) (v.recorded f), rw (other, e) (v.once f))
]

-- The file was opened, with what the server was sent.
succeeded-Inv :
    (s : System) (g : ℕ) (file : Bytes) (i : ℕ) (retryable : Bool) (item : TextDocumentItem)
    → Inv s
    → s.routines g ≡ opening file i
    → Inv (
        finish_as g file i
          (record { source = item.text; error = none; retryable = retryable }, item ∷ [])
          s)
unfolding finish_as finish open_files_after sent_after settled Fits
succeeded-Inv s g file i retryable item v a =
    let p = s.opens in
    let (here, busy) = opening-Fits s g file i v a in
    let t : Transition = record {
      done = true;
      source = item.text;
      error = none;
      retryable = retryable;
    } in
    let q = settled p file i t v.apart here busy p.open_files in
    let sent = sent_file p file i t v.apart here busy refl refl in
    let both =
      recorded-put s file item q v (before_source p file i t v.apart here busy) sent
        (λ f other. other_source p file i t v.apart here busy p.open_files f other refl) in
    settled-Inv s
      (finish_as g file i
        (record { source = item.text; error = none; retryable = retryable }, item ∷ []) s)
      g file i (returned file none) (succeeded-Change p file i t v.apart here busy refl refl) v a
      refl refl (ap is_some sent)
      (λ f w. (w.0, elim (w.1) [ inl e ↦ inl e | inr (d, x) ↦ absurd (ground arith) ]))
      (λ e. record {
        below = (v.entry file i here).below;
        carried = λ d. absurd (
            let now = ap (λ (x : Transition). x.done) (put-same i t p.transitions) in ground arith);
        succeeded = λ d. ap (λ (x : Transition). x.error) (put-same i t p.transitions);
      })
      (λ f. (both f).0) (λ f. (both f).1)

-- The file was not opened, and the server was sent nothing.
failed-Inv :
    (s : System) (g : ℕ) (file : Bytes) (i : ℕ) (source : Bytes) (x : Error) (retryable : Bool)
    → Inv s
    → s.routines g ≡ opening file i
    → Inv (
        finish_as g file i
          (record { source = source; error = some x; retryable = retryable }, [])
          s)
unfolding finish_as finish open_files_after sent_after settled Fits
failed-Inv s g file i source x retryable v a =
    let p = s.opens in
    let (here, busy) = opening-Fits s g file i v a in
    let t : Transition = record {
      done = true;
      source = source;
      error = some x;
      retryable = retryable;
    } in
    let same = failed_source p file i t v.apart here busy in
    settled-Inv s
      (finish_as g file i (record { source = source; error = some x; retryable = retryable }, []) s)
      g file i (returned file (some x)) (failed-Change p file i t v.apart here busy) v a refl refl
      tt
      (λ f w. (
        w.0,
        inr (
          ap (λ (y : Transition). y.done) (put-same i t p.transitions),
          ap (λ (y : Transition). is_some y.error) (put-same i t p.transitions),
        ),
      ))
      (λ e. absurd (let d = sym (put_file-same file none p.open_files) ∙ e in ground arith))
      (λ f. v.recorded f ∙ sym (same f))
      (λ f. v.once f ∙ ap (λ (y : Option Bytes). if is_some y then 1 else 0) (sym (same f)))

-- What `openFile` returns, and what the server was sent meanwhile: nothing where it failed, and otherwise one
-- item, with the file's URI and the text that is returned.
pub data Sends (h : Host) (u : UrlPackage) (file : Bytes)
    : Outcome × List TextDocumentItem → Type 0 where
  nothing :
      (source : Bytes) (x : Error) (retryable : Bool)
      → Sends h u file (record { source = source; error = some x; retryable = retryable }, [])
  one :
      (retryable : Bool) (item : TextDocumentItem)
      → path_to_uri h u file ≡ ok item.uri
      → Sends h u file
          (record { source = item.text; error = none; retryable = retryable }, item ∷ [])

pub finish_as-Inv :
    {h : Host} {u : UrlPackage} (s : System) (g : ℕ) (file : Bytes) (i : ℕ)
    {r : Outcome × List TextDocumentItem}
    → Sends h u file r
    → Inv s
    → s.routines g ≡ opening file i
    → Inv (finish_as g file i r s)
finish_as-Inv s g file i (nothing source x retryable) v a =
    failed-Inv s g file i source x retryable v a
finish_as-Inv s g file i (one retryable item e) v a = succeeded-Inv s g file i retryable item v a

-- Every item that was sent has the URI of its file.
unfoldable pub Named : Host → UrlPackage → List (Bytes × TextDocumentItem) → Type 0
Named h u [] = Unit
Named h u ((file, item) ∷ sent) = (path_to_uri h u file ≡ ok item.uri) × Named h u sent

pub sent_after-Named :
    {h : Host} {u : UrlPackage} (file : Bytes) (sent : List (Bytes × TextDocumentItem))
    {r : Outcome × List TextDocumentItem}
    → Sends h u file r
    → Named h u sent
    → Named h u (sent_after file r.1 sent)
unfolding sent_after Named
sent_after-Named file sent (nothing source x retryable) n = n
sent_after-Named file sent (one retryable item e) n = (e, n)

module _ (h : Host) (u : UrlPackage) where
  notified-Sends :
      (file uri content : Bytes) (o : Outside)
      → path_to_uri h u file ≡ ok uri
      → Sends h u file (send_open uri file content o)
  unfolding send_open notify_open opened_with failed did_open
  notified-Sends file uri content o e =
      elim (o.notify (did_open uri file content))
        as (λ n. Sends h u file (
          opened_with content o
            (elim n [ some x ↦ (some x, []) | none ↦ (none, did_open uri file content ∷ []) ]))) [
              | some x ↦ nothing _ _ _
              | none ↦ one false (did_open uri file content) e
            ]

  pub open_file-Sends : (file : Bytes) (o : Outside) → Sends h u file (open_file h u file o)
  unfolding open_file failed
  open_file-Sends file o = at (path_to_uri h u file) refl
    where
      read :
          (uri : Bytes) (r : Result Bytes)
          → path_to_uri h u file ≡ ok uri
          → Sends h u file (elim r [
            | err e ↦ (failed (codes "lsp: reading") e (retryable_open_error o e), [])
            | ok content ↦ send_open uri file content o
          ])
      read uri (err e) p = nothing _ _ _
      read uri (ok content) p = notified-Sends file uri content o p

      at :
          (r : Result Bytes)
          → path_to_uri h u file ≡ r
          → Sends h u file (elim r [
            | err e ↦ (failed (codes "lsp: encoding path") e false, [])
            | ok uri ↦ elim (o.read_file) [
              | err e ↦ (failed (codes "lsp: reading") e (retryable_open_error o e), [])
              | ok content ↦ send_open uri file content o
            ]
          ])
      at (err e) p = nothing _ _ _
      at (ok uri) p = read uri o.read_file p
