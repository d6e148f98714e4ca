-- ===== src/Lsp/Provider.antt =====
-- internal/lsp/provider.go: the files that the server has open. One caller per file is elected to open it;
-- the others wait for its outcome. A transition is shared by pointer: its number is its identity, and
-- `transitions` is the memory it lies in.
pub mod Invariant
mod Change
mod Claiming
mod Finishing
pub mod Opening
use portolan.Prelude.{
  ℕ, suc, ◌+◌, Bool, true, false, not, ◌&&◌, Option, none, some, List, [], ◌∷◌, Bytes, codes, equal,
  ◌==◌, if◌then◌else◌, ◌≡◌,
}
use portolan.Context.{
  Error, canceled, deadline_exceeded, provider_closed, eof, text, wrapped, Result, ok, err,
}
use portolan.Lsp.Uri.{language_id_for_file}
use portolan.Pathnorm.{Host}
use portolan.Pathnorm.Uri.{UrlPackage, path_to_uri}

pub record Transition : Type 0 where
  pub done : Bool
  pub source : Bytes
  pub error : Option Error
  pub retryable : Bool

pub record Opens : Type 0 where
  pub open_files : Bytes → Option ℕ
  pub transitions : ℕ → Transition
  pub next : ℕ

unfoldable pub put {ℓ} : {A : Type ℓ} → ℕ → A → (ℕ → A) → ℕ → A
put i a f j = if j == i then a else f j

unfoldable pub put_file {ℓ} : {A : Type ℓ} → Bytes → A → (Bytes → A) → Bytes → A
put_file file a f g = if equal g file then a else f g

-- Where a call of `ensureOpen` stands, between the critical sections.
pub data Routine : Type 0 where
  idle : Routine
  entering : Bytes → Routine
  waiting opening : Bytes → ℕ → Routine
  returned : Bytes → Option Error → Routine

abbrev pub fresh : Transition
fresh = record { done = false; source = []; error = none; retryable = false }

unfoldable pub start_open : Bytes → Opens → Opens
unfolding put put_file
start_open file p = record {
  open_files = put_file file (some p.next) p.open_files;
  transitions = put p.next fresh p.transitions;
  next = suc p.next;
}

-- The first critical section: the file's transition, or a new one that the caller has to carry out.
unfoldable pub claim : Bytes → Opens → Routine × Opens
claim file p = elim (p.open_files file) [
  | some i ↦ (waiting file i, p)
  | none ↦ (opening file p.next, start_open file p)
]

-- Behind the wait for `transition.done`.
unfoldable pub after_wait : Bytes → Transition → Routine
after_wait file t = if t.retryable then entering file else returned file t.error

-- What `openFile` returns.
pub record Outcome : Type 0 where
  pub source : Bytes
  pub error : Option Error
  pub retryable : Bool

-- The map behind an outcome: a failed file can be opened again.
unfoldable pub open_files_after : Bytes → Option Error → (Bytes → Option ℕ) → Bytes → Option ℕ
unfolding put_file
open_files_after file (some e) m = put_file file none m
open_files_after file none m = m

-- The second critical section.
unfoldable pub finish : Bytes → ℕ → Outcome → Opens → Opens
unfolding put open_files_after
finish file i o p = record {
  open_files = open_files_after file o.error p.open_files;
  transitions =
      put i (record { done = true; source = o.source; error = o.error; retryable = o.retryable })
        p.transitions;
  next = p.next;
}

unfoldable pub source_of : Transition → Option Bytes
source_of t = elim t.error [ some e ↦ none | none ↦ if t.done then some t.source else none ]

unfoldable pub opened_source : Bytes → Opens → Option Bytes
unfolding source_of
opened_source file p = elim (p.open_files file) [
  | none ↦ none
  | some i ↦ source_of (p.transitions i)
]

-- `errors.Is` for the errors of a context, which are values of their own.
same_error : Error → Error → Bool
same_error canceled canceled = true
same_error deadline_exceeded deadline_exceeded = true
same_error provider_closed provider_closed = true
same_error eof eof = true
same_error _ _ = false

unfoldable pub errors_is : Error → Error → Bool
unfolding same_error
errors_is (wrapped s e) target = errors_is e target
errors_is canceled target = same_error canceled target
errors_is deadline_exceeded target = same_error deadline_exceeded target
errors_is provider_closed target = same_error provider_closed target
errors_is eof target = same_error eof target
errors_is (text s) target = false

pub record TextDocumentItem : Type 0 where
  pub uri : Bytes
  pub language_id : Bytes
  pub version : ℕ
  pub text : Bytes

-- What `openFile` meets outside: the file's content, the transport, and the context when an error is judged.
pub record Outside : Type 0 where
  pub read_file : Result Bytes
  pub notify : TextDocumentItem → Option Error
  pub ctx_err : Option Error
  pub is_open : Bool

unfoldable pub retryable_open_error : Outside → Error → Bool
retryable_open_error o e = elim o.ctx_err [ none ↦ false | some c ↦ errors_is e c && o.is_open ]

failed : Bytes → Error → Bool → Outcome
failed message e retryable = record {
  source = [];
  error = some (wrapped message e);
  retryable = retryable;
}

did_open : Bytes → Bytes → Bytes → TextDocumentItem
unfolding language_id_for_file
did_open uri file content = record {
  uri = uri;
  language_id = language_id_for_file file;
  version = 1;
  text = content;
}

-- The notification itself: its error, and what the transport took to the server.
notify_open : TextDocumentItem → Outside → Option Error × List TextDocumentItem
notify_open item o = elim (o.notify item) [ some e ↦ (some e, []) | none ↦ (none, item ∷ []) ]

-- `openFile` behind the notification.
opened_with :
    Bytes → Outside → Option Error × List TextDocumentItem → Outcome × List TextDocumentItem
unfolding failed retryable_open_error
opened_with content o (some e, items) =
    (failed (codes "lsp: didOpen") e (retryable_open_error o e), items)
opened_with content o (none, items) =
    (record { source = content; error = none; retryable = false }, items)

-- `openFile` behind the read.
send_open : Bytes → Bytes → Bytes → Outside → Outcome × List TextDocumentItem
unfolding did_open notify_open opened_with
send_open uri file content o = opened_with content o (notify_open (did_open uri file content) o)

module _ (h : Host) (u : UrlPackage) where
  -- What it returns, and what the server was sent.
  unfoldable pub open_file : Bytes → Outside → Outcome × List TextDocumentItem
  unfolding send_open failed retryable_open_error
  open_file file o = elim (path_to_uri h u file) [
    | err e ↦ (failed (codes "lsp: encoding path") e false, [])
    | ok uri ↦ elim (o.read_file) [
      | err e ↦ (failed (codes "lsp: reading") e (retryable_open_error o e), [])
      | ok content ↦ send_open uri file content o
    ]
  ]

-- The provider among its callers. A number stands for one call of `ensureOpen`; `sent` are the didOpen
-- notifications that the transport took to the server, the last one first, each with the file it was for.
pub record System : Type 0 where
  pub opens : Opens
  pub routines : ℕ → Routine
  pub sent : List (Bytes × TextDocumentItem)

unfoldable pub set_routine : ℕ → Routine → System → System
unfolding put
set_routine g r s = record s { routines = put g r s.routines }

unfoldable pub claim_with : ℕ → System → Routine × Opens → System
unfolding put
claim_with g s (r, p) = record { opens = p; routines = put g r s.routines; sent = s.sent }

unfoldable pub claim_as : ℕ → Bytes → System → System
claim_as g file s = claim_with g s (claim file s.opens)

unfoldable pub sent_after :
    Bytes
    → List TextDocumentItem
    → List (Bytes × TextDocumentItem)
    → List (Bytes × TextDocumentItem)
sent_after file [] sent = sent
sent_after file (item ∷ items) sent = (file, item) ∷ sent_after file items sent

unfoldable pub finish_as : ℕ → Bytes → ℕ → Outcome × List TextDocumentItem → System → System
unfolding put sent_after
finish_as g file i (o, items) s = record {
  opens = finish file i o s.opens;
  routines = put g (returned file o.error) s.routines;
  sent = sent_after file items s.sent;
}

unfoldable pub new_provider : System
new_provider = record {
  opens = record { open_files = λ file. none; transitions = λ i. fresh; next = 0 };
  routines = λ g. idle;
  sent = [];
}

-- What a call does next. `openFile` and the critical section behind it are one step: in between the others
-- that ask for the file wait, and nobody else changes its transition. A context may end whenever it is asked
-- or waited for.
pub data Step (h : Host) (u : UrlPackage) : System → System → Type 0 where
  called :
      (s : System) (g : ℕ) (file : Bytes)
      → s.routines g ≡ idle
      → Step h u s (set_routine g (entering file) s)
  interrupted :
      (s : System) (g : ℕ) (file : Bytes) (e : Error)
      → s.routines g ≡ entering file
      → Step h u s (set_routine g (returned file (some e)) s)
  claimed :
      (s : System) (g : ℕ) (file : Bytes)
      → s.routines g ≡ entering file
      → Step h u s (claim_as g file s)
  woken :
      (s : System) (g : ℕ) (file : Bytes) (i : ℕ)
      → s.routines g ≡ waiting file i
      → (s.opens.transitions i).done ≡ true
      → Step h u s (set_routine g (after_wait file (s.opens.transitions i)) s)
  gave_up :
      (s : System) (g : ℕ) (file : Bytes) (i : ℕ) (e : Error)
      → s.routines g ≡ waiting file i
      → Step h u s (set_routine g (returned file (some e)) s)
  finished :
      (s : System) (g : ℕ) (file : Bytes) (i : ℕ) (o : Outside)
      → s.routines g ≡ opening file i
      → Step h u s (finish_as g file i (open_file h u file o) s)

pub data Reach (h : Host) (u : UrlPackage) : System → Type 0 where
  start : Reach h u new_provider
  next : {s t : System} → Reach h u s → Step h u s t → Reach h u t
